-- ===== src/Streams/Locks.antt =====
-- internal/transport/h2c/conn.go: the locks of `AssignStreamID` and of the handler of SETTINGS.
-- `AssignStreamID` takes `muActive` and then the read lock of the peer's settings; the handler takes
-- the write lock of the peer's settings and then, for a new initial window, `muActive`. There is one
-- caller of each. `muNewStream` and `condOutflow` are left out.
use go_http.Base.{◌≡◌, ◌≢◌, ◌↔◌, refl, arith}

-- Where `AssignStreamID` stands, by the locks that it holds.
pub data Opener : Type 0 where
  outside with_active with_both : Opener

-- Where the handler stands.
pub data Changer : Type 0 where
  outside with_peer with_both : Changer

pub record Locks : Type 0 where
  pub opener : Opener
  pub changer : Changer

abbrev pub free : Locks
free = record { opener = Opener.outside; changer = Changer.outside }

-- One step: a lock is taken once nobody holds it, and what is held is let go at the end.
pub data Step (s : Locks) : Locks → Type 0 where
  opener_locks_active :
      s.opener ≡ Opener.outside
      → s.changer ≢ Changer.with_both
      → Step s (record s { opener = Opener.with_active })
  opener_reads_settings :
      s.opener ≡ Opener.with_active
      → s.changer ≡ Changer.outside
      → Step s (record s { opener = Opener.with_both })
  opener_leaves : s.opener ≡ Opener.with_both → Step s (record s { opener = Opener.outside })
  changer_locks_peer :
      s.changer ≡ Changer.outside
      → s.opener ≢ Opener.with_both
      → Step s (record s { changer = Changer.with_peer })
  changer_locks_active :
      s.changer ≡ Changer.with_peer
      → s.opener ≡ Opener.outside
      → Step s (record s { changer = Changer.with_both })
  changer_leaves : s.changer ≡ Changer.with_both → Step s (record s { changer = Changer.outside })

pub data Reach (s : Locks) : Locks → Type 0 where
  here : Reach s s
  next : {t u : Locks} → Reach s t → Step t u → Reach s u

-- No step is possible.
unfoldable pub Dead : Locks → Type 0
Dead s = (t : Locks) → Step s t → ⊥

abbrev pub crossed : Locks
crossed = record { opener = Opener.with_active; changer = Changer.with_peer }

Dead-crossed :
    (o : Opener) (c : Changer)
    → Dead (record { opener = o; changer = c })
    → record { opener = o; changer = c } ≡ crossed
unfolding Dead
Dead-crossed Opener.outside Changer.outside d =
    absurd (d _ (opener_locks_active refl (ground arith)))
Dead-crossed Opener.outside Changer.with_peer d = absurd (d _ (changer_locks_active refl refl))
Dead-crossed Opener.outside Changer.with_both d = absurd (d _ (changer_leaves refl))
Dead-crossed Opener.with_active Changer.outside d = absurd (d _ (opener_reads_settings refl refl))
Dead-crossed Opener.with_active Changer.with_peer d = refl
Dead-crossed Opener.with_active Changer.with_both d = absurd (d _ (changer_leaves refl))
Dead-crossed Opener.with_both c d = absurd (d _ (opener_leaves refl))

crossed-Dead : {s t : Locks} → s ≡ crossed → Step s t → ⊥
crossed-Dead e (opener_locks_active f h) = ground arith
crossed-Dead e (opener_reads_settings f h) = ground arith
crossed-Dead e (opener_leaves f) = ground arith
crossed-Dead e (changer_locks_peer f h) = ground arith
crossed-Dead e (changer_locks_active f h) = ground arith
crossed-Dead e (changer_leaves f) = ground arith

-- From the free locks the two get to the state in which `AssignStreamID` has `muActive` and waits for the
-- peer's settings, and the handler has those and waits for `muActive`; that state, and no other, has no
-- next step: a deadlock.
pub Dead-iff_crossed : Reach free crossed × ((s : Locks) → (Dead s ↔ (s ≡ crossed)))
unfolding Dead
Dead-iff_crossed = (
  next (next here (opener_locks_active refl (ground arith)))
      (changer_locks_peer refl (ground arith)),
  λ s. (λ d. Dead-crossed s.opener s.changer d, λ e t p. crossed-Dead e p),
)
