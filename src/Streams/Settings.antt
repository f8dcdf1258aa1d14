-- ===== src/Streams/Settings.antt =====
-- internal/transport/h2c/controller/settings.go. An identifier is a uint16 and a value a uint32; `v` is
-- an array of eight values.
pub mod Locking
use go_http.Base.{
  ℕ, zero, suc, ◌*◌, ◌^◌, ◌-◌, Bool, true, not, ◌&&◌, ◌||◌, ◌==◌, leb, ltb, ◌≡◌, ◌≢◌, arith, List,
  [], ◌∷◌, ◌++◌, Option, none, some, if◌then◌else◌,
}

-- `http2.Setting`
pub record Setting : Type 0 where
  pub id : ℕ
  pub val : ℕ

abbrev pub header_table_size : ℕ
header_table_size = 1

abbrev pub enable_push : ℕ
enable_push = 2

abbrev pub max_concurrent_streams : ℕ
max_concurrent_streams = 3

abbrev pub initial_window_size : ℕ
initial_window_size = 4

abbrev pub max_frame_size : ℕ
max_frame_size = 5

abbrev pub max_header_list_size : ℕ
max_header_list_size = 6

-- `settings`: the value at each identifier.
abbrev pub Settings : Type 0
Settings = ℕ → ℕ

unfoldable pub set : Settings → ℕ → ℕ → Settings
set s id val i = if i == id then val else s i

abbrev zeros : Settings
zeros = λ i. 0

-- `newSelfSettings`
unfoldable pub new_self_settings : Settings
unfolding set
new_self_settings =
    let s = set zeros header_table_size 4096 in
    let s = set s enable_push 0 in
    let s = set s max_concurrent_streams 1000 in
    let s = set s initial_window_size (4 * 2 ^ 20) in
    let s = set s max_header_list_size (10 * 2 ^ 20) in set s max_frame_size (16 * 2 ^ 20)

-- `newPeerSettings`
unfoldable pub new_peer_settings : Settings
unfolding set
new_peer_settings =
    let s = set zeros header_table_size 4096 in
    let s = set s enable_push 1 in
    let s = set s max_concurrent_streams 1000 in
    let s = set s initial_window_size 65535 in
    let s = set s max_frame_size 16384 in set s max_header_list_size (2 ^ 32 - 1)

-- No setting has the identifier.
unfoldable pub absent : ℕ → List Setting → Bool
absent id [] = true
absent id (i ∷ rest) = not (i.id == id) && absent id rest

-- The parameter: `Setting.Valid`, with `none` for a nil error, over a type of errors that has the
-- connection error of a protocol error.
module _ {E : Type 0} (valid : Setting → Option E) (protocol_error : E) where
  -- `UpdateFrom` on the settings of a frame, in their order: what each call of `cb` gets, the settings
  -- that are left, and the error.
  pub record Updated : Type 0 where
    pub settings : Settings
    pub calls : List (ℕ × ℕ × ℕ)
    pub error : Option E

  -- The function that `ForeachSetting` calls.
  unfoldable pub update_one : Settings → Setting → Updated
  update_one s i = elim (valid i) [
    | some e ↦ record { settings = s; calls = []; error = some e }
    | none ↦
        if i.id == enable_push && i.val == 1
        then record { settings = s; calls = []; error = some protocol_error }
        else if i.id == 0 || ltb 6 i.id
        then record { settings = s; calls = []; error = none }
        else record {
          settings = set s i.id i.val;
          calls = (i.id, s i.id, i.val) ∷ [];
          error = none;
        }
  ]

  -- `ForeachSetting` stops at the first error.
  unfoldable pub update_from : Settings → List Setting → Updated
  update_from s [] = record { settings = s; calls = []; error = none }
  update_from s (i ∷ rest) =
      let one = update_one s i in
      elim one.error [
        | some e ↦ one
        | none ↦
            let more = update_from one.settings rest in
            record more { calls = one.calls ++ more.calls }
      ]

  -- The loop of `advertiseSettings`, from `id` on.
  unfoldable pub advertised : Settings → ℕ → ℕ → List Setting
  advertised s zero id = []
  advertised s (suc n) id =
      let rest = advertised s n (suc id) in
      elim (valid (record { id = id; val = s id })) [
        | some e ↦ rest
        | none ↦ record { id = id; val = s id } ∷ rest
      ]

  -- `ConfigureReadSetting`. `none` is the panic of an index out of range.
  unfoldable pub configure_read_setting : Settings → ℕ → ℕ → Option (Settings × Option E)
  configure_read_setting s id val = elim (valid (record { id = id; val = val })) [
    | some e ↦ some (s, some e)
    | none ↦ if ltb id 8 then some (set s id val, none) else none
  ]

  -- The value of `id` that a sequence of settings leaves, from `val` on.
  unfoldable pub last_value : ℕ → ℕ → List Setting → ℕ
  last_value id val [] = val
  last_value id val (i ∷ rest) = last_value id (if i.id == id then i.val else val) rest

  -- A frame that is taken without an error leaves, at each of the identifiers 1 to 6, the last value that
  -- it has for it or else the old one, and at every other identifier the old one.
  pub update_from-settings :
      (settings : List Setting) (s : Settings) (id : ℕ)
      → (update_from s settings).error ≡ none
      → (update_from s settings).settings id
        ≡ (if leb 1 id && leb id 6 then last_value id (s id) settings else s id)
  unfolding update_from update_one last_value set
  update_from-settings [] s id e = ground arith
  update_from-settings (i ∷ rest) s id e =
      ground
        (arith, update_from-settings rest s id, update_from-settings rest (set s i.id i.val) id)

  -- A frame never turns push on.
  pub update_from-push :
      (settings : List Setting) (s : Settings)
      → s enable_push ≢ 1
      → (update_from s settings).settings enable_push ≢ 1
  unfolding update_from update_one set
  update_from-push [] s h = h
  update_from-push (i ∷ rest) s h =
      ground (arith, h, update_from-push rest s, update_from-push rest (set s i.id i.val))

  -- What `advertiseSettings` sends has no setting for an identifier whose value is not valid.
  pub advertised-invalid :
      (s : Settings) (id : ℕ) (e : E) (n from : ℕ)
      → valid (record { id = id; val = s id }) ≡ some e
      → absent id (advertised s n from) ≡ true
  unfolding advertised absent
  advertised-invalid s id e zero from h = ground arith
  advertised-invalid s id e (suc n) from h =
      ground (arith, h, advertised-invalid s id e n (suc from) h)
