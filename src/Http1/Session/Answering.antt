-- ===== src/Http1/Session/Answering.antt =====
-- internal/transport/http1/http1.go: that a session which a goroutine has taken gets its answer.
use go_http.Base.{
  ℕ, ◌≡◌, ◌≢◌, ◌⊎◌, inl, inr, refl, arith, true, ◌==◌, List, [], ◌∷◌, ◌++◌, Option-cases,
  Bool-cases,
}
use go_http.Http1.Session.Steps.{
  Message, success, broken, taken, Worker, idle, gone, busy, handing, Conn, set_up, answer, Step,
  writes, hands, drops, reads, Reach, here, next,
}
use go_http.Http1.Session.Ordered.{Reach-Ordered, Reach-Accounted, has, places, carried}

-- A run that leads to a message for the session.
abbrev pub Answered : ℕ → Conn → Type 0
Answered s c = (d : Conn) × Reach c d × (d.inbox s ≢ [])

Reach-trans : {c d e : Conn} → Reach c d → Reach d e → Reach c e
Reach-trans r here = r
Reach-trans r (next q s) = next (Reach-trans r q) s

behind : (s : ℕ) {c d : Conn} → Step c d → Answered s d → Answered s c
behind s st (e, r, m) = (e, Reach-trans (next here st) r, m)

append-ne-nil : (ms : List Message) (m : Message) → ms ++ m ∷ [] ≢ []
append-ne-nil [] m e = cc
append-ne-nil (n ∷ ms) m e = cc

answer-inbox : (c : Conn) (s : ℕ) (m : Message) → (answer c s m).inbox s ≢ []
answer-inbox c s m =
    let same : (s == s) ≡ true = ground arith in rw (same) (append-ne-nil (c.inbox s) m)

-- The reading goroutine has the session.
read-Answered : (s : ℕ) (c : Conn) → c.reader ≡ busy s → Answered s c
read-Answered s c r =
    let c' = record c { reader = idle } in
    (answer c' s success, next here (reads s r), answer-inbox c' s success)

-- The writing goroutine offers it, and the other one is at its `select`.
hand-Answered : (s : ℕ) (c : Conn) → c.writer ≡ handing s → c.reader ≡ idle → Answered s c
hand-Answered s c w r = elim (Option-cases c.rerr) [
  | inl e ↦
      behind s (hands s w r e) (
        read-Answered s (record c { writer = idle; reader = busy s; read = c.read ++ s ∷ [] }) refl)
  | inr e ↦
      let c' = record c { writer = idle; reader = gone; dropped = c.dropped ++ s ∷ [] } in
      (answer c' s (broken e.0), next here (drops s e.0 w r e.1), answer-inbox c' s (broken e.0))
]

-- The writing goroutine has it, and the reading one still runs.
handing-Answered :
    (s : ℕ) (c : Conn) (r : Worker)
    → c.writer ≡ handing s
    → c.reader ≡ r
    → carried r ≡ []
    → Answered s c ⊎ (r ≡ gone)
handing-Answered s c idle w e k = inl (hand-Answered s c w e)
handing-Answered s c gone w e k = inr refl
handing-Answered s c (busy t) w e k =
    inl (
      behind s (reads t e) (hand-Answered s (answer (record c { reader = idle }) t success) w refl))
handing-Answered s c (handing t) w e k = cc

writer-Answered :
    (s : ℕ) (c : Conn) (w : Worker)
    → c.writer ≡ w
    → has w s ≡ 1
    → carried c.reader ≡ []
    → Answered s c ⊎ (c.reader ≡ gone)
writer-Answered s c idle w h k = absurd (omega (arith, h))
writer-Answered s c gone w h k = absurd (omega (arith, h))
writer-Answered s c (busy t) w h k =
    let same : t ≡ s = ground (arith, h) in
    let w' : c.writer ≡ busy s = ground (arith, w, same) in
    let c' = record c { writer = handing s; written = c.written ++ s ∷ [] } in
    elim (handing-Answered s c' c.reader refl refl k) [
      | inl a ↦ inl (behind s (writes s w') a)
      | inr g ↦ inr g
    ]
writer-Answered s c (handing t) w h k =
    let same : t ≡ s = ground (arith, h) in
    handing-Answered s c c.reader (ground (arith, w, same)) refl k

reader-Answered :
    (s : ℕ) (c : Conn) (r : Worker) → c.reader ≡ r → has r s ≡ 1 → carried r ≡ [] → Answered s c
reader-Answered s c idle e h k = absurd (omega (arith, h))
reader-Answered s c gone e h k = absurd (omega (arith, h))
reader-Answered s c (busy t) e h k =
    let same : t ≡ s = ground (arith, h) in read-Answered s c (ground (arith, e, same))
reader-Answered s c (handing t) e h k = cc

has_one : (w : Worker) (s : ℕ) → has w s ≢ 1 → has w s ≡ 0
has_one idle s h = refl
has_one gone s h = refl
has_one (busy t) s h = ground (arith, h)
has_one (handing t) s h = ground (arith, h)

-- At every point of a connection's life a session that was taken, and whose `Do` has not returned, has a
-- message on its `doneCh` or can still get one, unless the writing goroutine has it and the reading
-- one has returned.
pub Reach-Answered :
    (s : ℕ) {c : Conn}
    → Reach set_up c
    → c.phase s ≡ taken
    → Answered s c ⊎ ((has c.writer s ≡ 1) × (c.reader ≡ gone))
Reach-Answered s {c} r p =
    let o = Reach-Ordered r in
    let a = Reach-Accounted s r in
    let one : places c s ≡ 1 = ground (arith, a.placed, p) in
    let few : c.inbox s ≡ [] → has c.writer s ≢ 1 → has c.reader s ≢ 1 → ⊥ =
      λ e w q. ground (arith, one, e, has_one c.writer s w, has_one c.reader s q) in
    elim (Bool-cases (has c.writer s == 1)) [
      | inl w ↦ elim (writer-Answered s c c.writer refl (ground (arith, w)) o.reader_keeps) [
        | inl x ↦ inl x
        | inr g ↦ inr (ground (arith, w), g)
      ]
      | inr w ↦ elim (Bool-cases (has c.reader s == 1)) [
        | inl q ↦ inl (reader-Answered s c c.reader refl (ground (arith, q)) o.reader_keeps)
        | inr q ↦ inl (c, here, λ e. few e (ground (arith, w)) (ground (arith, q)))
      ]
    ]
