-- ===== src/Tests/Heads.antt =====
-- Response headers (internal/transport/http1) on concrete texts.
use go_http.Base.{
  Bool, true, false, ◌≡◌, ◌↔◌, ◌||◌, refl, some, List, [], ◌∷◌, reverse, Bytes, codes, equal,
}
use go_http.Strconv.{parse_uint, decimal, digits_value}
use go_http.Http1.Utils.{walk_reverse, walk, round, last_element}
use go_http.Http1.Utils.Elements.{elements}
use go_http.Http1.Utils.Walk.{visit, walk_reverse-visit}
use go_http.Textproto.{get}
use go_http.Http1.Response.{Response, new_response}
use go_http.Http1.Header.{declared_length, length_is, check_values, framing}
use go_http.Http1.Header.ContentLength.{Declares, declared_length_iff}
use go_http.Http1.Header.Rules.{
  extent, meaning, Same, open_ended, bodiless, connected, framing-extent,
}

-- Collects the elements; stops behind an empty one.
abbrev collect : List Bytes → Bytes → List Bytes × Bool
collect seen [] = ([] ∷ seen, false)
collect seen (c ∷ t) = ((c ∷ t) ∷ seen, true)

walk_reverse-visit_example :
    walk_reverse (codes "a,, b ,c d") collect []
    ≡ some (visit collect [] (reverse (elements (codes "a,, b ,c d"))))
walk_reverse-visit_example = walk_reverse-visit collect (codes "a,, b ,c d") []

walk_reverse-collect :
    walk_reverse (codes "a,, b ,c d") collect [] ≡ some ([] ∷ codes "b" ∷ codes "c d" ∷ [])
unfolding walk_reverse walk round
walk_reverse-collect = refl

declared_length_iff_example :
    (declared_length (codes "5, 5" ∷ codes "5" ∷ []) ≡ length_is (some 5))
    ↔ Declares (codes "5, 5" ∷ codes "5" ∷ []) 5
declared_length_iff_example = declared_length_iff (codes "5, 5") (codes "5" ∷ []) 5

declared_length_5 : declared_length (codes "5, 5" ∷ codes "5" ∷ []) ≡ length_is (some 5)
unfolding declared_length check_values walk_reverse walk round last_element parse_uint equal decimal
    digits_value
declared_length_5 = refl

-- An answer that the server ends by closing the connection.
abbrev closing : Response
closing = record new_response {
  status_code = 200;
  header = (codes "Connection", codes "close" ∷ []) ∷ [];
}

not_bodiless :
    bodiless (codes "GET") 200 ≡ true → (codes "gzip" ≡ []) × (connected (codes "GET") 200 ≡ false)
unfolding bodiless equal
not_bodiless e = absurd (cc)

framing-extent_example :
    Same
      (extent (codes "GET") 200 (some 5) (codes "gzip"))
      (meaning (framing (codes "GET") [] closing (some 5) (codes "gzip")))
    × ((framing (codes "GET") [] closing (some 5) (codes "gzip")).close ≡ (
        open_ended (extent (codes "GET") 200 (some 5) (codes "gzip"))
        || equal (get (codes "Connection") closing.header) (codes "close")
        || equal [] (codes "close")))
framing-extent_example =
    framing-extent (codes "GET") [] closing (some 5) (codes "gzip") not_bodiless
