-- ===== src/Textproto.antt =====
-- What the program uses of Go's `net/textproto`: lines, and MIME headers as association lists in the
-- order of arrival.
use go_http.Base.{
  ℕ, zero, suc, Bool, true, false, not, ◌&&◌, ◌||◌, Option, none, some, List, [], ◌∷◌, ◌++◌, leb,
  ◌==◌, if◌then◌else◌, Bytes, equal, length,
}
use go_http.Strconv.{is_digit, trim_string, lower, upper}
use go_http.Io.{Error, Source, drop_cr}

pub data TextError : Type 0 where
  io : Error → TextError
  malformed_mime : TextError

-- a line up to its newline, and what follows
unfoldable pub cut_line : Bytes → Bytes × Bytes
cut_line [] = ([], [])
cut_line (c ∷ s) = let r = cut_line s in if c == b'\n' then ([], s) else (c ∷ r.0, r.1)

unfoldable pub text_line_of : Source → Bytes → Source × Option Bytes
unfolding cut_line drop_cr
text_line_of s [] = (s, none)
text_line_of s (c ∷ p) =
    let r = cut_line (c ∷ p) in (record s { pending = r.1 }, some (drop_cr r.0).0)

-- `ReadLine`; with no byte left it fails with the error of the connection
unfoldable pub text_line : Source → Source × Option Bytes
unfolding text_line_of
text_line s = text_line_of s s.pending

-- `http.Header`: a value list for each key
abbrev pub Headers : Type 0
Headers = List (Bytes × List Bytes)

unfoldable pub values? : Bytes → Headers → Option (List Bytes)
values? k [] = none
values? k ((j, vs) ∷ h) = if equal j k then some vs else values? k h

-- `h[k]`
unfoldable pub values : Bytes → Headers → List Bytes
values k [] = []
values k ((j, vs) ∷ h) = if equal j k then vs else values k h

-- `h[k] = vs`
unfoldable pub set_values : Bytes → List Bytes → Headers → Headers
set_values k vs [] = (k, vs) ∷ []
set_values k vs ((j, ws) ∷ h) = if equal j k then (j, vs) ∷ h else (j, ws) ∷ set_values k vs h

-- `h[k] = append(h[k], v)`
unfoldable pub add_value : Bytes → Bytes → Headers → Headers
add_value k v [] = (k, v ∷ []) ∷ []
add_value k v ((j, ws) ∷ h) =
    if equal j k then (j, ws ++ (v ∷ [])) ∷ h else (j, ws) ∷ add_value k v h

abbrev pub first_of_values : List Bytes → Bytes
first_of_values [] = []
first_of_values (v ∷ vs) = v

-- `h.Get(k)` at a canonical key
unfoldable pub get : Bytes → Headers → Bytes
unfolding values
get k h = first_of_values (values k h)

-- the bytes of a header name (RFC 9110, `token`)
unfoldable pub is_token_byte : ℕ → Bool
is_token_byte c =
    is_digit c
    || (leb b'a' c && leb c b'z')
    || (leb b'A' c && leb c b'Z')
    || (c == b'!')
    || (leb b'#' c && leb c b'\'')
    || (c == b'*')
    || (c == b'+')
    || (c == b'-')
    || (c == b'.')
    || (leb b'^' c && leb c b'`')
    || (c == b'|')
    || (c == b'~')

unfoldable pub all_token_bytes : Bytes → Bool
unfolding is_token_byte
all_token_bytes [] = true
all_token_bytes (c ∷ s) = is_token_byte c && all_token_bytes s

-- The first letter and those behind a hyphen in upper case, the others in lower case.
unfoldable pub canonical_from : Bool → Bytes → Bytes
canonical_from first [] = []
canonical_from first (c ∷ s) = (if first then upper c else lower c) ∷ canonical_from (c == b'-') s

unfoldable pub canonical : Bytes → Bytes
unfolding canonical_from
canonical k = canonical_from true k

-- the key and the text in front of and behind the first colon
unfoldable pub cut_colon : Bytes → Option (Bytes × Bytes)
cut_colon [] = none
cut_colon (c ∷ s) = elim (cut_colon s) [
  | none ↦ if c == b':' then some ([], s) else none
  | some (k, v) ↦ if c == b':' then some ([], s) else some (c ∷ k, v)
]

unfoldable pub drop_tabs : Bytes → Bytes
drop_tabs [] = []
drop_tabs (c ∷ s) = if (c == b' ') || (c == b'\t') then drop_tabs s else c ∷ s

-- one line of a header block
unfoldable pub add_line : Bytes → Headers → Option Headers
unfolding cut_colon canonical all_token_bytes drop_tabs add_value
add_line kv h = elim (cut_colon kv) [
  | none ↦ none
  | some (k, v) ↦
      if all_token_bytes k && not (length k == 0)
      then some (add_value (canonical k) (drop_tabs v) h)
      else none
]

abbrev pub continues : Bytes → Bool
continues [] = false
continues (c ∷ s) = (c == b' ') || (c == b'\t')

-- A line with its continuation lines, trimmed and joined by spaces.
unfoldable pub continued : ℕ → Source → Bytes → Source × Bytes
continued zero s line = (s, line)
continued (suc fuel) s line =
    let next = text_line s in
    elim next.1 [
      | none ↦ (s, line)
      | some more ↦
          let rest = continued fuel next.0 (line ++ (b' ' ∷ trim_string more)) in
          if continues s.pending then rest else (s, line)
    ]

pub record Mime : Type 0 where
  pub source : Source
  pub headers : Headers
  pub error : Option TextError

-- The loop of `ReadMIMEHeader`; each round takes a line, so the bytes at hand are fuel enough.
unfoldable pub mime_loop : ℕ → Source → Headers → Mime
mime_loop zero s h = record { source = s; headers = h; error = some (io s.fault) }
mime_loop (suc fuel) s h =
    let l = text_line s in
    elim l.1 [
      | none ↦ record { source = l.0; headers = h; error = some (io s.fault) }
      | some [] ↦ record { source = l.0; headers = h; error = none }
      | some (c ∷ line) ↦
          let r = continued (suc (length l.0.pending)) l.0 (trim_string (c ∷ line)) in
          elim (add_line r.1 h) [
            | none ↦ record { source = r.0; headers = h; error = some malformed_mime }
            | some h' ↦ mime_loop fuel r.0 h'
          ]
    ]

-- `ReadMIMEHeader`
unfoldable pub read_mime_header : Source → Mime
read_mime_header s =
    if continues s.pending
    then (let l = text_line s in record { source = l.0; headers = []; error = some malformed_mime })
    else mime_loop (suc (length s.pending)) s []
