-- ===== src/Streams/Standstill.antt =====
-- internal/transport/h2c/stream.go, `WriteRequestBody`, beside the read loop of its connection: the upload holds
-- the read lock of the peer's settings from its beginning to its end, also while `takeOutflow` waits; the
-- read loop handles the frames in their order, and for SETTINGS waits for the write lock. There is one
-- upload, and the context is left out, which `takeOutflow` does not look at.
use go_http.Base.{ℕ, ◌≡◌, subst, arith, List, [], ◌∷◌, ◌++◌, none, some}
use go_http.Flow.Outflow.{refund}
use go_http.Flow.Take.{Windows, take_outflow}

-- Where the upload is: not in `WriteRequestBody`, in its loop, or in `takeOutflow` for a number of bytes.
pub data Uploader : Type 0 where
  outside between : Uploader
  drawing : (sz : ℕ) → Uploader

-- What the read loop gets: SETTINGS with ACK, a change of the initial window, by a difference, and WINDOW_UPDATE for the stream
-- or for the connection.
pub data Incoming : Type 0 where
  ack : Incoming
  settings for_stream for_conn : (increment : ℕ) → Incoming

pub record Shared : Type 0 where
  pub uploader : Uploader
  pub windows : Windows
  pub incoming : List Incoming

abbrev pub widen_stream : Windows → ℕ → Windows
widen_stream w n = record w { stream = (refund w.stream n).0 }

abbrev pub widen_conn : Windows → ℕ → Windows
widen_conn w n = record w { conn = (refund w.conn n).0 }

-- A step of the upload, of the read loop or of the peer.
pub data Step (s : Shared) : Shared → Type 0 where
  -- `UsePeerSetting`, which a handler that waits for the lock keeps out, and its end.
  enters : s.uploader ≡ outside → Step s (record s { uploader = between })
  leaves : s.uploader ≡ between → Step s (record s { uploader = outside })
  -- `takeOutflow`
  asks : (sz : ℕ) → s.uploader ≡ between → Step s (record s { uploader = drawing sz })
  draws :
      (sz k : ℕ) (w : Windows)
      → s.uploader ≡ drawing sz
      → take_outflow s.windows sz ≡ some (w, k)
      → Step s (record s { uploader = between; windows = w })
  -- The handlers. That of SETTINGS returns at an acknowledgement before it takes a lock.
  acknowledges :
      (rest : List Incoming) → s.incoming ≡ ack ∷ rest → Step s (record s { incoming = rest })
  changes :
      (delta : ℕ) (rest : List Incoming)
      → s.incoming ≡ settings delta ∷ rest
      → s.uploader ≡ outside
      → Step s (record s { incoming = rest; windows = widen_stream s.windows delta })
  widens_stream :
      (n : ℕ) (rest : List Incoming)
      → s.incoming ≡ for_stream n ∷ rest
      → Step s (record s { incoming = rest; windows = widen_stream s.windows n })
  widens_conn :
      (n : ℕ) (rest : List Incoming)
      → s.incoming ≡ for_conn n ∷ rest
      → Step s (record s { incoming = rest; windows = widen_conn s.windows n })
  -- The peer sends a frame.
  arrives : (f : Incoming) → Step s (record s { incoming = s.incoming ++ f ∷ [] })

pub data Reach (s : Shared) : Shared → Type 0 where
  here : Reach s s
  next : {t u : Shared} → Reach s t → Step t u → Reach s u

-- The frames up to the first SETTINGS that is no acknowledgement do not give the upload what it waits for.
unfoldable pub Blocked : ℕ → Windows → List Incoming → Type 0
Blocked sz w [] = ⊥
Blocked sz w (settings delta ∷ rest) = take_outflow w sz ≡ none
Blocked sz w (ack ∷ rest) = (take_outflow w sz ≡ none) × Blocked sz w rest
Blocked sz w (for_stream n ∷ rest) = (take_outflow w sz ≡ none) × Blocked sz (widen_stream w n) rest
Blocked sz w (for_conn n ∷ rest) = (take_outflow w sz ≡ none) × Blocked sz (widen_conn w n) rest

Blocked-waits :
    (sz : ℕ) (w : Windows) (fs : List Incoming) → Blocked sz w fs → take_outflow w sz ≡ none
unfolding Blocked
Blocked-waits sz w [] b = elim b [ ]
Blocked-waits sz w (settings delta ∷ rest) b = b
Blocked-waits sz w (ack ∷ rest) b = b.0
Blocked-waits sz w (for_stream n ∷ rest) b = b.0
Blocked-waits sz w (for_conn n ∷ rest) b = b.0

Blocked-append :
    (sz : ℕ) (w : Windows) (fs : List Incoming) (f : Incoming)
    → Blocked sz w fs
    → Blocked sz w (fs ++ f ∷ [])
unfolding Blocked
Blocked-append sz w [] f b = elim b [ ]
Blocked-append sz w (settings delta ∷ rest) f b = b
Blocked-append sz w (ack ∷ rest) f b = (b.0, Blocked-append sz w rest f b.1)
Blocked-append sz w (for_stream n ∷ rest) f b =
    (b.0, Blocked-append sz (widen_stream w n) rest f b.1)
Blocked-append sz w (for_conn n ∷ rest) f b = (b.0, Blocked-append sz (widen_conn w n) rest f b.1)

-- The upload waits, and the read loop cannot give it what it waits for.
pub record Stuck (sz : ℕ) (s : Shared) : Type 0 where
  pub waits : s.uploader ≡ drawing sz
  pub blocked : Blocked sz s.windows s.incoming

-- The first frame is handled.
Blocked-first :
    (sz : ℕ) (w : Windows) {fs gs : List Incoming} → fs ≡ gs → Blocked sz w fs → Blocked sz w gs
Blocked-first sz w e b = subst (Blocked sz w) e b

Step-Stuck : {sz : ℕ} {s t : Shared} → Step s t → Stuck sz s → Stuck sz t
unfolding Blocked
Step-Stuck (enters u) k = let w = k.waits in absurd (ground arith)
Step-Stuck (leaves u) k = let w = k.waits in absurd (ground arith)
Step-Stuck (asks sz' u) k = let w = k.waits in absurd (ground arith)
Step-Stuck {sz} {s} (draws sz' n w' u d) k =
    let w = k.waits in
    let same : sz' ≡ sz = ground arith in
    let nothing : take_outflow s.windows sz' ≡ none =
      rw (same) (Blocked-waits sz s.windows s.incoming k.blocked) in
    absurd (cc)
Step-Stuck {sz} {s} (acknowledges rest f) k = record {
  waits = k.waits;
  blocked = (Blocked-first sz s.windows f k.blocked).1;
}
Step-Stuck (changes d rest f u) k = let w = k.waits in absurd (ground arith)
Step-Stuck {sz} {s} (widens_stream n rest f) k = record {
  waits = k.waits;
  blocked = (Blocked-first sz s.windows f k.blocked).1;
}
Step-Stuck {sz} {s} (widens_conn n rest f) k = record {
  waits = k.waits;
  blocked = (Blocked-first sz s.windows f k.blocked).1;
}
Step-Stuck {sz} {s} (arrives f) k = record {
  waits = k.waits;
  blocked = Blocked-append sz s.windows s.incoming f k.blocked;
}

-- An upload that waits in `takeOutflow`, while a SETTINGS frame that is no acknowledgement is to be handled
-- and the frames before it do not give the upload what it waits for, waits for ever, whatever the peer
-- sends behind it: the windows never get to what it waits for.
pub Reach-Stuck :
    {s t : Shared} (sz : ℕ)
    → s.uploader ≡ drawing sz
    → Blocked sz s.windows s.incoming
    → Reach s t
    → (t.uploader ≡ drawing sz) × (take_outflow t.windows sz ≡ none)
Reach-Stuck {s} {t} sz u b r =
    let k = run r in (k.waits, Blocked-waits sz t.windows t.incoming k.blocked)
  where
    run : {v : Shared} → Reach s v → Stuck sz v
    run here = record { waits = u; blocked = b }
    run (next q st) = Step-Stuck st (run q)
