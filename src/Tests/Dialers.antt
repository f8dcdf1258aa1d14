-- ===== src/Tests/Dialers.antt =====
-- Dialers and clients (internal/dialer, internal/helpers.go) and round trips on a stream
-- (internal/transport/h2c.go) at concrete values.
use go_http.Base.{◌≡◌, refl, true, ◌==◌, [], ◌∷◌, none, some, codes, equal, if◌then◌else◌}
use go_http.Dialer.Addresses.{split_host_port}
use go_http.Dialer.Resolving.{Store}
use go_http.Dialer.Dialing.{dial_key, secure, dialed, server_name, dial_key-scheme}
use go_http.Dialer.Proxying.{Answers}

dial_key-scheme_example :
    (dial_key (codes "http") (codes "a.org:443") []
      ≡ dial_key (codes "https") (codes "a.org:443") [])
    × (secure (codes "http") (codes "a.org:443") none true true ≡ dialed none)
    × (secure (codes "https") (codes "a.org:443") none true true
        ≡ dialed (some (server_name none (codes "a.org:443"))))
unfolding split_host_port equal
dial_key-scheme_example =
    dial_key-scheme (codes "a.org:443") [] none (codes "a.org", codes "443") refl

abbrev hosts : Store
hosts = record {
  maps = λ i. if i == 0 then (codes "a", codes "1") ∷ [] else (codes "a", codes "2") ∷ [];
  next = 2;
}

abbrev refusing : Answers
refusing = record {
  reached = λ address. true;
  handshakes = true;
  lookup = λ q. none;
  choice = 0;
  sets_up = true;
  has_session = true;
  response = some (403, record { content_length = some 9; transfer_encoding = []; close = true });
}
