-- ===== src/Dialer/Addresses.antt =====
-- What internal/dialer uses of Go's `net` and `net/url` on a host with a port.
use go_http.Base.{
  ℕ, suc, ◌-◌, Bool, true, false, not, ◌&&◌, ◌||◌, ◌==◌, [], ◌∷◌, ◌++◌, Option, none, some, Bytes,
  codes, take, drop, length, if◌then◌else◌,
}
use go_http.Strconv.{is_digit}

-- Some byte is `c`.
unfoldable pub has_byte : ℕ → Bytes → Bool
has_byte c [] = false
has_byte c (b ∷ bs) = (b == c) || has_byte c bs

abbrev one_more : Option ℕ → Option ℕ
one_more none = none
one_more (some i) = some (suc i)

-- `strings.IndexByte`
unfoldable pub index_byte : ℕ → Bytes → Option ℕ
index_byte c [] = none
index_byte c (b ∷ bs) = let rest = index_byte c bs in if b == c then some 0 else one_more rest

-- `strings.LastIndexByte`
unfoldable pub last_index : ℕ → Bytes → Option ℕ
last_index c [] = none
last_index c (b ∷ bs) = elim (last_index c bs) [
  | some i ↦ some (suc i)
  | none ↦ if b == c then some 0 else none
]

abbrev bracketed : Bytes → Bool
bracketed [] = false
bracketed (b ∷ bs) = b == b'['

-- `net.SplitHostPort`; none is an error.
unfoldable pub split_host_port : Bytes → Option (Bytes × Bytes)
unfolding has_byte index_byte last_index
split_host_port hp = elim (last_index b':' hp) [
  | none ↦ none
  | some i ↦
      if bracketed hp
      then (elim (index_byte b']' hp) [
        | none ↦ none
        | some end ↦
            if suc end == i && not (has_byte b'[' (drop 1 hp) || has_byte b']' (drop (suc end) hp))
            then some (take (end - 1) (drop 1 hp), drop (suc i) hp)
            else none
      ])
      else if has_byte b':' (take i hp) || has_byte b'[' hp || has_byte b']' hp
      then none
      else some (take i hp, drop (suc i) hp)
]

-- `net.JoinHostPort`
unfoldable pub join_host_port : Bytes → Bytes → Bytes
unfolding has_byte
join_host_port host port =
    if has_byte b':' host
    then codes "[" ++ host ++ codes "]:" ++ port
    else host ++ codes ":" ++ port

unfoldable pub all_digits : Bytes → Bool
all_digits [] = true
all_digits (b ∷ bs) = is_digit b && all_digits bs

-- `Host` of a URL without its port, and the port.
unfoldable pub url_port : Bytes → Bytes × Bytes
unfolding last_index all_digits
url_port host = elim (last_index b':' host) [
  | none ↦ (host, [])
  | some i ↦ if all_digits (drop (suc i) host) then (take i host, drop (suc i) host) else (host, [])
]

unfoldable pub last_is : ℕ → Bytes → Bool
last_is c [] = false
last_is c (b ∷ []) = b == c
last_is c (b ∷ bs) = last_is c bs

-- `Hostname`
unfoldable pub hostname : Bytes → Bytes
unfolding url_port last_is
hostname host =
    let h = (url_port host).0 in
    if bracketed h && last_is b']' h then take (length h - 2) (drop 1 h) else h
