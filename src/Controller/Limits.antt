-- ===== src/Controller/Limits.antt =====
-- internal/transport/h2c/controller: what `NewController` (controller.go) sets up from the settings of its own
-- side, in `framerMixin.init` (framer.go) and `hpackMixin.init` (hpack.go), and what a later
-- `ConfigureReadSetting` (settings.go) changes of it.
use go_http.Base.{
  ℕ, zero, suc, ◌+◌, ◌≤◌, ◌<◌, ◌≡◌, refl, ap, sym, subst, ◌∙◌, arith, inl, inr, true, ◌==◌, ltb,
  List, [], ◌∷◌, Option, none, some, if◌then◌else◌, Bool-cases, Option-cases,
}
use go_http.Streams.Settings.{
  Setting, Settings, header_table_size, max_frame_size, max_header_list_size, new_self_settings,
  set, advertised, configure_read_setting,
}

-- The limits of a framer and its decoder: what `SetMaxReadFrameSize` and `NewDecoder` are called with,
-- and `MaxHeaderListSize`; `last_size` is `lastSz` of the encoder.
pub record Limits : Type 0 where
  pub max_read_frame_size : ℕ
  pub decoder_table_size : ℕ
  pub max_header_list_size : ℕ
  pub last_size : ℕ

-- `framerMixin.init` and `hpackMixin.init`, for the table size that a new encoder has.
unfoldable pub init : ℕ → Settings → Limits
init encoder_size s = record {
  max_read_frame_size = s max_frame_size;
  decoder_table_size = s header_table_size;
  max_header_list_size = s max_header_list_size;
  last_size = encoder_size;
}

-- The part of a `Controller` that is meant here.
pub record Receiver : Type 0 where
  pub self_settings : Settings
  pub limits : Limits

-- `NewController`
unfoldable pub new_receiver : ℕ → Receiver
unfolding init new_self_settings
new_receiver encoder_size = record {
  self_settings = new_self_settings;
  limits = init encoder_size new_self_settings;
}

-- The first of the settings with the identifier.
unfoldable pub announced : ℕ → List Setting → Option ℕ
announced id [] = none
announced id (i ∷ rest) = let later = announced id rest in if i.id == id then some i.val else later

-- The parameter: `Setting.Valid`.
module _ {E : Type 0} (valid : Setting → Option E) (protocol_error : E) where
  -- `ConfigureReadSetting` of a `Controller`.
  unfoldable pub configure : Receiver → ℕ → ℕ → Option (Receiver × Option E)
  unfolding configure_read_setting
  configure r id val = elim (configure_read_setting valid protocol_error r.self_settings id val) [
    | none ↦ none
    | some (s, e) ↦ some (record r { self_settings = s }, e)
  ]

  announced-advertised :
      (s : Settings) (id n from : ℕ)
      → from ≤ id
      → id < from + n
      → valid (record { id = id; val = s id }) ≡ none
      → announced id (advertised valid protocol_error s n from) ≡ some (s id)
  unfolding announced advertised
  announced-advertised s id zero from a b v = absurd (omega arith)
  announced-advertised s id (suc n) from a b v = elim (Bool-cases (from == id)) [
    | inl e ↦
        let here : from ≡ id = ground (arith, e) in
        let v' : valid (record { id = from; val = s from }) ≡ none =
          subst (λ i. valid (record { id = i; val = s i }) ≡ none) (sym here) v in
        rw (v', e, advertised, announced) (ap (λ i. some (s i)) here)
    | inr e ↦
        let rest = announced-advertised s id n (suc from) (ground (arith, e)) (omega arith) v in
        elim (Option-cases (valid (record { id = from; val = s from }))) [
          | inl n' ↦ rw (n', e, advertised, announced) rest
          | inr n' ↦ rw (n'.1, advertised) rest
        ]
  ]

  -- A valid setting 1 to 6 that is configured on a new controller, or on one that was configured before,
  -- is announced to the peer in the handshake with the new value, but the framer and its decoder keep
  -- the limits that they were made with.
  pub configure-announced :
      (r : Receiver) (id val : ℕ)
      → 1 ≤ id
      → id ≤ 6
      → valid (record { id = id; val = val }) ≡ none
      → (r' : Receiver) × (configure r id val ≡ some (r', none))
        × (announced id (advertised valid protocol_error r'.self_settings 6 1) ≡ some val)
        × (r'.limits ≡ r.limits)
  unfolding configure configure_read_setting
  configure-announced r id val a b v =
      let s' = set r.self_settings id val in
      let here : s' id ≡ val = unfold set in ground arith in
      let v' : valid (record { id = id; val = s' id }) ≡ none =
        subst (λ n. valid (record { id = id; val = n }) ≡ none) (sym here) v in
      let room : ltb id 8 ≡ true = ground arith in
      (
        record r { self_settings = s' },
        rw (v, room, configure, configure_read_setting) refl,
        announced-advertised s' id 6 1 a (omega arith) v' ∙ ap some here,
        refl,
      )
