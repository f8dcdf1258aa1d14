-- ===== src/Tests/Requests.antt =====
-- `Prepare` (internal/http/prepared.go) on concrete requests.
use go_http.Base.{
  ◌≡◌, ◌≢◌, ◌↔◌, ◌⊎◌, refl, some, List, [], ◌∷◌, Bytes, codes, false, pos, negsuc, equal,
}
use go_http.Strconv.{parse_int, parse_uint, decimal, digits_value}
use go_http.Request.{
  nil_body, string_body, Request, Url, PreparedRequest, prepared, prepare, prepare_at, scan_clone,
  scan_headers, update_body, fresh, no_body,
}
use go_http.Request.Preparing.{user_host, user_length, body_length, prepare_iff}

abbrev url : Url
url = record { scheme = codes "http"; host = codes "example.org"; request_uri = codes "/" }

abbrev put : Request
put = record {
  method = codes "PUT";
  body = string_body (codes "hello");
  header =
      some ((codes "HOST", codes "example.com" ∷ []) ∷ (codes "Accept", codes "*/*" ∷ []) ∷ []);
}

abbrev put_prepared : PreparedRequest
put_prepared = record {
  method = codes "PUT";
  url = url;
  body = fresh (codes "hello");
  header = some ((codes "Accept", codes "*/*" ∷ []) ∷ []);
  header_host = codes "example.com";
  content_length = pos 5;
  written = false;
}

prepare_iff_example :
    ((p : PreparedRequest) × (prepare put (some url) ≡ prepared p)
      × (p.header_host ≡ codes "example.com")
      × (p.content_length ≡ pos 5))
    ↔ ((codes "example.com" ≡ user_host put.header url.host)
        × (codes "example.com" ≢ [])
        × (body_length put.body (user_length put.header) ≡ some (pos 5))
        × ((user_length put.header ≡ negsuc 0) ⊎ (pos 5 ≡ user_length put.header)))
prepare_iff_example = prepare_iff put url (codes "example.com") (pos 5)

prepare-put : prepare put (some url) ≡ prepared put_prepared
unfolding prepare prepare_at scan_clone scan_headers update_body equal
prepare-put = refl

abbrev put_headers : List (Bytes × List Bytes)
put_headers = (codes "HOST", codes "example.com" ∷ []) ∷ (codes "Accept", codes "*/*" ∷ []) ∷ []

abbrev empty_post : Request
empty_post = record {
  method = codes "POST";
  body = nil_body;
  header = some ((codes "Content-Length", codes "7" ∷ []) ∷ []);
}

abbrev empty_prepared : PreparedRequest
empty_prepared = record {
  method = codes "POST";
  url = url;
  body = no_body;
  header = some [];
  header_host = codes "example.org";
  content_length = pos 7;
  written = false;
}

prepare-empty : prepare empty_post (some url) ≡ prepared empty_prepared
unfolding prepare prepare_at scan_clone scan_headers update_body equal parse_int parse_uint decimal
    digits_value
prepare-empty = refl
