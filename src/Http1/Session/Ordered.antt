-- ===== src/Http1/Session/Ordered.antt =====
-- internal/transport/http1/http1.go: what holds of the sessions of a connection however its callers and
-- its two goroutines run.
use go_http.Base.{
  ℕ, ◌+◌, ◌≤◌, ◌≡◌, ◌≢◌, ◌⊎◌, ◌||◌, inl, inr, refl, arith, Bool, true, false, ◌==◌, List, [], ◌∷◌,
  ◌++◌, append_assoc, append-nil, Option, none, some, length, if◌then◌else◌,
}
use go_http.Http1.Session.Steps.{
  Message, success, own, broken, Phase, fresh, offered, taken, cancelled, returned, Worker, idle,
  gone, busy, handing, Conn, set_up, release, Step, calls_do, gives_up, gets, closes, takes,
  refuses, writes, fails_writing, hands, drops, reads, fails_reading, Reach, here, next,
}

-- The session that a goroutine offers.
abbrev pub carried : Worker → List ℕ
carried (handing s) = s ∷ []
carried _ = []

abbrev pub has : Worker → ℕ → ℕ
has idle s = 0
has gone s = 0
has (busy t) s = if s == t then 1 else 0
has (handing t) s = if s == t then 1 else 0

-- Where a session is: with a goroutine, or answered with a message that `Do` has not got.
abbrev pub places : Conn → ℕ → ℕ
places c s = has c.writer s + has c.reader s + length (c.inbox s)

abbrev pub in_hand : Phase → ℕ
in_hand taken = 1
in_hand _ = 0

abbrev is_gone : Worker → Bool
is_gone gone = true
is_gone _ = false

abbrev pub is_some : Option ℕ → Bool
is_some none = false
is_some (some e) = true

-- The requests and responses in order.
pub record Ordered (c : Conn) : Type 0 where
  pub in_order : c.written ≡ c.read ++ (c.dropped ++ carried c.writer)
  pub at_most : length c.dropped ≤ (if is_gone c.reader then 1 else 0)
  pub reader_keeps : carried c.reader ≡ []

-- The reader at its `select` has dropped nothing.
dropped-idle : (c : Conn) → Ordered c → c.reader ≡ idle → c.dropped ≡ []
dropped-idle c o r = ground (arith, o.at_most)

Step-Ordered : {c d : Conn} → Step c d → Ordered c → Ordered d
unfolding release
Step-Ordered {c} (calls_do s p) o = record {
  in_order = o.in_order;
  at_most = o.at_most;
  reader_keeps = o.reader_keeps;
}
Step-Ordered {c} (gives_up s p) o = record {
  in_order = o.in_order;
  at_most = o.at_most;
  reader_keeps = o.reader_keeps;
}
Step-Ordered {c} (gets s m rest p q) o = record {
  in_order = o.in_order;
  at_most = o.at_most;
  reader_keeps = o.reader_keeps;
}
Step-Ordered {c} (closes s close p) o = ground (arith, o.in_order, o.at_most, o.reader_keeps)
Step-Ordered {c} (takes s w p e) o = ground (arith, w)
Step-Ordered {c} (refuses s x w p e) o = ground (arith, w)
Step-Ordered {c} (writes s w) o =
    ground (arith, append-nil c.dropped, append_assoc c.read c.dropped (s ∷ []))
Step-Ordered {c} (fails_writing s e w) o = ground (arith, w)
Step-Ordered {c} (hands s w r e) o =
    ground (arith, dropped-idle c o r, append-nil (c.read ++ s ∷ []))
Step-Ordered {c} (drops s x w r e) o = ground (arith, dropped-idle c o r)
Step-Ordered {c} (reads s r) o = ground (arith, dropped-idle c o)
Step-Ordered {c} (fails_reading s e r) o = ground (arith, r)

-- In every run of a connection's goroutines with any number of callers: the sessions whose responses the
-- reading goroutine went on to read are, in this order, those whose requests were written first; behind
-- them come at most one that it refused and one that waits for it.
pub Reach-Ordered : {c : Conn} → Reach set_up c → Ordered c
Reach-Ordered here = record { in_order = refl; at_most = omega arith; reader_keeps = refl }
Reach-Ordered (next r s) = Step-Ordered s (Reach-Ordered r)

abbrev pub is_own : Message → Bool
is_own (own e) = true
is_own _ = false

-- The session was answered with an error of its own.
abbrev pub failed : Phase → List Message → Bool
failed (returned m) ms = is_own m
failed p [] = false
failed p (m ∷ ms) = is_own m

-- `Do` gave a response, whose body may be closed.
abbrev pub succeeded : Phase → Bool
succeeded (returned success) = true
succeeded p = false

-- One session of a connection: it is in one place from being taken until `Do` returns. The pool gets it
-- back at most once, with `close` if it failed, and else only after `Do` gave a response.
pub record Accounted (s : ℕ) (c : Conn) : Type 0 where
  pub placed : places c s ≡ in_hand (c.phase s)
  pub kept : c.held s ≡ true → c.calls s ≡ []
  pub once : c.held s ≡ false → length (c.calls s) ≡ 1
  pub told : failed (c.phase s) (c.inbox s) ≡ true → c.calls s ≡ true ∷ []
  pub only : c.held s ≡ false → failed (c.phase s) (c.inbox s) || succeeded (c.phase s) ≡ true
  pub writer_ends : is_some c.werr ≡ true → c.writer ≡ gone

Step-Accounted : (t : ℕ) {c d : Conn} → Step c d → Accounted t c → Accounted t d
unfolding release
Step-Accounted t {c} (calls_do s p) a = ground (arith, a.writer_ends)
Step-Accounted t {c} (gives_up s p) a = ground (arith, a.writer_ends)
Step-Accounted t {c} (gets s m rest p q) a = ground (arith)
Step-Accounted t {c} (closes s close p) a = ground (arith, a.writer_ends)
Step-Accounted t {c} (takes s w p e) a = ground (arith, a.writer_ends)
Step-Accounted t {c} (refuses s x w p e) a = ground (arith, a.writer_ends)
Step-Accounted t {c} (writes s w) a = ground (arith, a.writer_ends)
Step-Accounted t {c} (fails_writing s e w) a = ground (arith, a.writer_ends)
Step-Accounted t {c} (hands s w r e) a = ground (arith, a.writer_ends)
Step-Accounted t {c} (drops s x w r e) a = ground (arith, a.writer_ends)
Step-Accounted t {c} (reads s r) a = ground (arith, a.writer_ends)
Step-Accounted t {c} (fails_reading s e r) a = ground (arith, a.writer_ends)

-- In every run each session is, from being taken until its `Do` returns, with just one goroutine or
-- behind one message on its `doneCh`, so that no goroutine ever waits to send there. Its session of the
-- pool is released at most once: with `close` if its own write or read failed, and else only after its
-- `Do` gave a response. The writing goroutine has returned once `werr` is set.
pub Reach-Accounted : (s : ℕ) {c : Conn} → Reach set_up c → Accounted s c
Reach-Accounted s here = record {
  placed = refl;
  kept = λ e. refl;
  once = λ e. absurd (cc);
  told = λ e. absurd (cc);
  only = λ e. absurd (cc);
  writer_ends = λ e. absurd (cc);
}
Reach-Accounted s (next r st) = Step-Accounted s st (Reach-Accounted s r)

-- A caller whose context ended before its session was taken, or whose session was refused for the error
-- of another, returns without having released the session of the pool.
pub Reach-unreleased :
    (s e : ℕ) {c : Conn}
    → Reach set_up c
    → (c.phase s ≡ cancelled) ⊎ (c.phase s ≡ returned (broken e))
    → (c.held s ≡ true) × (c.calls s ≡ [])
Reach-unreleased s e {c} r (inl p) =
    let a = Reach-Accounted s r in ground (arith, a.kept, a.only, a.placed)
Reach-unreleased s e {c} r (inr p) =
    let a = Reach-Accounted s r in ground (arith, a.kept, a.only, a.placed)

-- The writing goroutine has returned, or it waits for a reading one that has.
abbrev pub is_dead : Worker → Worker → Bool
is_dead gone r = true
is_dead (handing s) gone = true
is_dead w r = false

abbrev pub waits : Phase → Bool
waits fresh = true
waits offered = true
waits cancelled = true
waits _ = false

Step-dead :
    (t : ℕ) {c d : Conn}
    → Step c d
    → is_dead c.writer c.reader ≡ true
    → waits (c.phase t) ≡ true
    → (is_dead d.writer d.reader ≡ true) × (waits (d.phase t) ≡ true)
unfolding release
Step-dead t {c} (calls_do s p) a b = ground arith
Step-dead t {c} (gives_up s p) a b = ground arith
Step-dead t {c} (gets s m rest p q) a b = ground arith
Step-dead t {c} (closes s close p) a b = ground arith
Step-dead t {c} (takes s w p e) a b = ground arith
Step-dead t {c} (refuses s x w p e) a b = ground arith
Step-dead t {c} (writes s w) a b = ground arith
Step-dead t {c} (fails_writing s e w) a b = ground arith
Step-dead t {c} (hands s w r e) a b = ground arith
Step-dead t {c} (drops s x w r e) a b = ground arith
Step-dead t {c} (reads s r) a b = ground arith
Step-dead t {c} (fails_reading s e r) a b = ground arith

Run-dead :
    (s : ℕ) {c d : Conn}
    → is_dead c.writer c.reader ≡ true
    → waits (c.phase s) ≡ true
    → Reach c d
    → (is_dead d.writer d.reader ≡ true) × (waits (d.phase s) ≡ true)
Run-dead s a b here = (a, b)
Run-dead s a b (next r st) = let i = Run-dead s a b r in Step-dead s st i.0 i.1

-- In every run: after the first error of a write, no session that was not taken before is taken any more,
-- so that its `Do` returns only by the end of its context. So also once a session is offered to a reading
-- goroutine that has returned.
pub Reach-dead :
    (s : ℕ) {c d : Conn}
    → Reach set_up c
    → (is_some c.werr ≡ true) ⊎ ((carried c.writer ≢ []) × (c.reader ≡ gone))
    → waits (c.phase s) ≡ true
    → Reach c d
    → waits (d.phase s) ≡ true
Reach-dead s {c} r (inl e) b q =
    let g = (Reach-Accounted s r).writer_ends e in (Run-dead s (ground (arith, g)) b q).1
Reach-dead s {c} r (inr (n, g)) b q = (Run-dead s (stranded c.writer c.reader n g) b q).1
  where
    stranded : (w r : Worker) → carried w ≢ [] → r ≡ gone → is_dead w r ≡ true
    stranded w r n g = ground arith
