-- ===== src/Tests/Channels.antt =====
-- Settings, streams and header blocks of HTTP/2 (internal/transport/h2c) at concrete values.
use go_http.Base.{
  ℕ, ◌-◌, ◌^◌, true, ◌&&◌, ◌||◌, ◌==◌, leb, ltb, ◌≡◌, refl, arith, List, [], ◌∷◌, Option, none,
  some, if◌then◌else◌, codes,
}
use go_http.Streams.Settings.{
  Setting, new_peer_settings, update_one, update_from, last_value, update_from-settings,
}
use go_http.Streams.Headers.{Frame, write_headers, Cut, write_headers-Cut}

-- The checks of golang.org/x/net/http2 on a setting; 1 is its error.
abbrev valid : Setting → Option ℕ
valid s =
    if (s.id == 2 && ltb 1 s.val)
      || (s.id == 4 && ltb (2 ^ 31 - 1) s.val)
      || (s.id == 5 && (ltb s.val 16384 || ltb (2 ^ 24 - 1) s.val))
    then some 1
    else none

abbrev frame : List Setting
frame =
    record { id = 4; val = 100000 }
    ∷ record { id = 9; val = 1 }
    ∷ record { id = 4; val = 70000 }
    ∷ []

update_from-settings_example : (update_from valid 0 new_peer_settings frame).settings 4 ≡ (
    if leb 1 4 && leb 4 6
    then last_value valid 0 4 (new_peer_settings 4) frame
    else new_peer_settings 4)
unfolding update_from update_one
update_from-settings_example = update_from-settings valid 0 frame new_peer_settings 4 refl

write_headers-Cut_example :
    (frames : List Frame) × (write_headers (λ i. 4) true (codes "abcdefghij") ≡ some frames)
    × Cut true (λ i. 4) true (codes "abcdefghij") frames
write_headers-Cut_example =
    write_headers-Cut (λ i. 4) true (codes "abcdefghij") (λ i. omega arith) (omega arith)
