-- ===== src/Streams/Settings/Locking.antt =====
-- internal/transport/h2c/controller/settings.go, `settingsMixin`: the settings of the peer behind their
-- RWMutex, for any number of users of a setting. A user gets a value with the read lock, and gives the lock
-- back by the function that it also gets. The handler of SETTINGS holds the write lock while it enters the
-- settings of the frame one after the other, until `done`. The settings of this side have a lock of
-- their own, which `ConfigureReadSetting` does not take: they are no part of the steps.
use go_http.Base.{
  ℕ, zero, suc, Bool, true, false, not, ◌||◌, ltb, ◌==◌, ◌<◌, Bool-cases, ◌≡◌, ◌≢◌, refl, arith,
  List, [], ◌∷◌, Option, none, some, inl, inr, if◌then◌else◌, length, subst, sym,
}
use Prim.{Unit}
use go_http.Streams.Settings.{Setting, Settings, update_one, new_peer_settings, new_self_settings}

-- A `sync.RWMutex`: the number of its readers, and whether it is held for writing.
pub record RwMutex : Type 0 where
  pub readers : ℕ
  pub writing : Bool

abbrev pub unlocked : RwMutex
unlocked = record { readers = 0; writing = false }

-- `RLock` and `Lock`; none where they wait.
abbrev pub rlock : RwMutex → Option RwMutex
rlock m = if m.writing then none else some (record m { readers = suc m.readers })

abbrev pub lock : RwMutex → Option RwMutex
lock m = if m.writing || not (m.readers == 0) then none else some (record m { writing = true })

-- `RUnlock` and `Unlock`
abbrev pub pred : ℕ → ℕ
pred zero = zero
pred (suc n) = n

abbrev pub runlock : RwMutex → RwMutex
runlock m = record m { readers = pred m.readers }

abbrev pub unlock : RwMutex → RwMutex
unlock m = record m { writing = false }

-- The settings and their lock; the identifier and the value of each use of a setting that is not given
-- back; and, where the handler of SETTINGS is at work, the settings of the frame that are left.
pub record Shared : Type 0 where
  pub settings : Settings
  pub mutex : RwMutex
  pub uses : List (ℕ × ℕ)
  pub handler : Option (List Setting)

abbrev pub shared : Settings → Shared
shared s = record { settings = s; mutex = unlocked; uses = []; handler = none }

-- `newSettingsMixin`: the settings of the peer, and those of this side.
unfoldable pub new_settings_mixin : Shared × Shared
unfolding new_peer_settings new_self_settings
new_settings_mixin = (shared new_peer_settings, shared new_self_settings)

-- `UsePeerSetting` and `UseSelfSetting`: the value. `none`: it waits for the lock, or the identifier is
-- out of range, which panics.
unfoldable pub use_setting : Shared → ℕ → Option (Shared × ℕ)
use_setting m id = elim (rlock m.mutex) [
  | none ↦ none
  | some mu ↦
      if ltb id 8
      then some (record m { mutex = mu; uses = (id, m.settings id) ∷ m.uses }, m.settings id)
      else none
]

-- The uses without one of them.
unfoldable pub give_back : ℕ → List (ℕ × ℕ) → List (ℕ × ℕ)
give_back n [] = []
give_back zero (u ∷ us) = us
give_back (suc n) (u ∷ us) = u ∷ give_back n us

-- Every use has the value that the setting has.
unfoldable pub Current : Settings → List (ℕ × ℕ) → Type 0
Current s [] = Unit
Current s (u ∷ us) = (u.1 ≡ s u.0) × Current s us

give_back-nil : (n : ℕ) → give_back n [] ≡ []
unfolding give_back
give_back-nil n = refl

Current-give_back :
    (s : Settings) (n : ℕ) (us : List (ℕ × ℕ)) → Current s us → Current s (give_back n us)
unfolding Current give_back
Current-give_back s n [] c = c
Current-give_back s zero (u ∷ us) c = c.1
Current-give_back s (suc n) (u ∷ us) c = (c.0, Current-give_back s n us c.1)

length-give_back :
    (n : ℕ) (us : List (ℕ × ℕ)) → n < length us → length (give_back n us) ≡ pred (length us)
unfolding give_back
length-give_back n [] h = absurd (omega (arith, h))
length-give_back zero (u ∷ us) h = refl
length-give_back (suc n) (u ∷ []) h = absurd (omega (arith, h))
length-give_back (suc n) (u ∷ v ∷ us) h =
    let rest = length-give_back n (v ∷ us) (omega (arith, h)) in ground (arith, rest)

-- What holds of the lock and its holders.
pub record Held (m : Shared) : Type 0 where
  pub current : Current m.settings m.uses
  pub counted : m.mutex.readers ≡ length m.uses
  pub apart : m.mutex.writing ≡ true → m.uses ≡ []
  pub exclusive : m.handler ≢ none → m.mutex.writing ≡ true

no_uses : (us : List (ℕ × ℕ)) → length us ≡ 0 → us ≡ []
no_uses [] h = refl
no_uses (u ∷ us) h = absurd (omega (arith, h))

handler-no_uses : (m : Shared) (fs : List Setting) → Held m → m.handler ≡ some fs → m.uses ≡ []
handler-no_uses m fs h e = h.apart (h.exclusive (λ n. cc))

use-Held :
    (m : Shared) (id val : ℕ) (m' : Shared) → use_setting m id ≡ some (m', val) → Held m → Held m'
unfolding use_setting
use-Held m id val m' e h = elim (Bool-cases m.mutex.writing) [
  | inl w ↦ absurd (ground (arith, e, w))
  | inr w ↦ elim (Bool-cases (ltb id 8)) [
    | inr k ↦ absurd (ground (arith, e, w, k))
    | inl k ↦
        let counted = h.counted in
        let exclusive = h.exclusive in
        let used : Shared = record m {
          mutex = record m.mutex { readers = suc m.mutex.readers };
          uses = (id, m.settings id) ∷ m.uses;
        } in
        let same : used ≡ m' = ground (arith, e, w, k) in
        subst Held same (record {
          current = unfold Current in (refl, h.current);
          counted = ground (arith, counted);
          apart = λ q. ground (arith, q, w);
          exclusive = exclusive;
        })
  ]
]

-- The parameters of `UpdateFrom`.
module _ {E : Type 0} (valid : Setting → Option E) (protocol_error : E) where
  -- `UpdatePeerSettings` up to the first setting of the frame. `none`: it waits for the lock.
  unfoldable pub update_peer_settings : Shared → List Setting → Option Shared
  update_peer_settings m frame = elim (lock m.mutex) [
    | none ↦ none
    | some mu ↦ some (record m { mutex = mu; handler = some frame })
  ]

  -- One setting of the frame; an error ends the loop.
  unfoldable pub enter_setting : Shared → Setting → List Setting → Shared
  unfolding update_one
  enter_setting m i rest =
      let u = update_one valid protocol_error m.settings i in
      record m {
        settings = u.settings;
        handler = elim u.error [ none ↦ some rest | some e ↦ some [] ];
      }

  -- A step of a user or of the handler of SETTINGS.
  pub data Step (m : Shared) : Shared → Type 0 where
    uses : (id val : ℕ) (m' : Shared) → use_setting m id ≡ some (m', val) → Step m m'
    gives_back :
        (n : ℕ)
        → n < length m.uses
        → Step m (record m { mutex = runlock m.mutex; uses = give_back n m.uses })
    updates :
        (frame : List Setting) (m' : Shared)
        → m.handler ≡ none
        → update_peer_settings m frame ≡ some m'
        → Step m m'
    enters :
        (i : Setting) (rest : List Setting)
        → m.handler ≡ some (i ∷ rest)
        → Step m (enter_setting m i rest)
    unlocks : m.handler ≡ some [] → Step m (record m { mutex = unlock m.mutex; handler = none })

  pub data Reach (m : Shared) : Shared → Type 0 where
    here : Reach m m
    next : {n o : Shared} → Reach m n → Step n o → Reach m o

  update-Held :
      (m : Shared) (frame : List Setting) (m' : Shared)
      → update_peer_settings m frame ≡ some m'
      → Held m
      → Held m'
  unfolding update_peer_settings
  update-Held m frame m' q h = elim (Bool-cases (m.mutex.writing || not (m.mutex.readers == 0))) [
    | inl w ↦ absurd (ground (arith, q, w))
    | inr w ↦
        let counted = h.counted in
        let updating : Shared = record m {
          mutex = record m.mutex { writing = true };
          handler = some frame;
        } in
        let same : updating ≡ m' = ground (arith, q, w) in
        subst Held same (record {
          current = h.current;
          counted = counted;
          apart = λ k. no_uses m.uses (ground (arith, w, counted));
          exclusive = λ k. refl;
        })
  ]

  enter-Held :
      (m : Shared) (i : Setting) (rest : List Setting)
      → m.handler ≡ some (i ∷ rest)
      → Held m
      → Held (enter_setting m i rest)
  unfolding enter_setting
  enter-Held m i rest e h =
      let none_left = handler-no_uses m (i ∷ rest) h e in
      record {
        current =
            subst (Current (update_one valid protocol_error m.settings i).settings) (sym none_left)
              (unfold Current in tt);
        counted = h.counted;
        apart = h.apart;
        exclusive = λ k. h.exclusive (λ n. cc);
      }

  Step-Held : {m n : Shared} → Step m n → Held m → Held n
  Step-Held {m} (uses id val m' e) h = use-Held m id val m' e h
  Step-Held {m} (gives_back n b) h =
      let counted = h.counted in
      record {
        current = Current-give_back m.settings n m.uses h.current;
        counted = rw (length-give_back n m.uses b, counted) refl;
        apart = λ q. rw (h.apart q) (give_back-nil n);
        exclusive = h.exclusive;
      }
  Step-Held {m} (updates frame m' q e) h = update-Held m frame m' e h
  Step-Held {m} (enters i rest e) h = enter-Held m i rest e h
  Step-Held {m} (unlocks e) h = record {
    current = h.current;
    counted = h.counted;
    apart = λ q. absurd (cc);
    exclusive = λ k. absurd (k refl);
  }

  Reach-Held : {m n : Shared} → Held m → Reach m n → Held n
  Reach-Held h here = h
  Reach-Held h (next r s) = Step-Held s (Reach-Held h r)

  shared-Held : (s : Settings) → Held (shared s)
  unfolding Current
  shared-Held s = record {
    current = tt;
    counted = refl;
    apart = λ q. refl;
    exclusive = λ k. absurd (k refl);
  }

  -- Whoever uses a setting of the peer may go by the value that it got: until it is given back it is the
  -- value of the setting, whatever other users and SETTINGS frames come, and while a frame is entered
  -- no setting is in use.
  pub Reach-Current :
      (s : Settings) {m : Shared}
      → Reach (shared s) m
      → Current m.settings m.uses × (m.handler ≢ none → m.uses ≡ [])
  Reach-Current s r =
      let h = Reach-Held (shared-Held s) r in (h.current, λ k. h.apart (h.exclusive k))
