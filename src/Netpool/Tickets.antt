-- ===== src/Netpool/Tickets.antt =====
-- utils/netpool: the account of connections over the life of a pool. Sessions of any number of
-- goroutines interleave; each step is one receive, send or `select` on the channels with what follows it
-- up to the next one. A session is released once, as the transports do.
use go_http.Base.{
  Bool-cases, ℕ, suc, ◌+◌, ◌-◌, ◌≤◌, ◌<◌, true, false, ◌&&◌, ◌≡◌, ◌⊎◌, inl, inr, refl, arith, List,
  [], ◌∷◌, ◌++◌, some, ◌==◌, if◌then◌else◌, ltb, length, ap,
}
use go_http.Netpool.{
  Pool, update, is_available, is_stale, close, take_ticket, next_idle, Got, got, open_new, waits,
  blocks,
}

-- How often `c` occurs.
unfoldable pub count : ℕ → List ℕ → ℕ
count c [] = 0
count c (d ∷ ds) = (if c == d then 1 else 0) + count c ds

-- `cs` without the first `c`
unfoldable pub remove : ℕ → List ℕ → List ℕ
remove c [] = []
remove c (d ∷ ds) = elim (c == d) [ true ↦ ds | false ↦ d ∷ remove c ds ]

pub count-append : (c d : ℕ) (ds : List ℕ) → count c (ds ++ d ∷ []) ≡ count c (d ∷ []) + count c ds
unfolding count
count-append c d [] = ground arith
count-append c d (x ∷ ds) = ground (arith, count-append c d ds)

pub length-snoc : (d : ℕ) (ds : List ℕ) → length (ds ++ d ∷ []) ≡ suc (length ds)
length-snoc d [] = refl
length-snoc d (x ∷ ds) = ap suc (length-snoc d ds)

pub count-remove :
    (c d : ℕ) (ds : List ℕ) → 0 < count d ds → count c (remove d ds) + count c (d ∷ []) ≡ count c ds
unfolding count remove
count-remove c d [] h = ground arith
count-remove c d (x ∷ ds) h = ground (arith, count-remove c d ds)

pub length-remove : (d : ℕ) (ds : List ℕ) → 0 < count d ds → suc (length (remove d ds)) ≡ length ds
unfolding count remove
length-remove d [] h = ground arith
length-remove d (x ∷ ds) h = ground (arith, length-remove d ds)

pub count_le_length : (c : ℕ) (ds : List ℕ) → count c ds ≤ length ds
unfolding count
count_le_length c [] = omega arith
count_le_length c (d ∷ ds) = ground (arith, count_le_length c ds)

-- 1 for a state that exists and is open, or else 0.
unfoldable pub live : Pool → ℕ → ℕ
unfolding is_available
live p c = if is_available p c && ltb c p.next then 1 else 0

-- The sessions that are out and the tickets held by connections that are being opened, or that could
-- not be opened, against the pool.
pub record Accounted (p : Pool) (held : List ℕ) (pending : ℕ) : Type 0 where
  pub tickets_are : (p.max_conn ≡ 0) ⊎ (p.tickets ≡ length p.idle + length held + pending)
  pub few_tickets : p.tickets ≤ p.max_conn
  pub few_idle : length p.idle ≤ p.max_idle
  pub places : (c : ℕ) → count c p.idle + count c held ≤ live p c

-- What `tryGetConn` returns is accounted for, and it does end.
unfoldable pub Fits : List ℕ → ℕ → Got → Type 0
Fits held pending (got q c) = Accounted q (c ∷ held) pending
Fits held pending (open_new q) = Accounted q held (suc pending)
Fits held pending (waits q) = Accounted q held pending
Fits held pending blocks = ⊥

close_idle :
    (p : Pool) (d left : ℕ) (rest held : List ℕ) (pending : ℕ)
    → left ≡ p.tickets - 1
    → Accounted (record p { idle = d ∷ rest }) held pending
    → Accounted
        (record p {
          idle = rest;
          states = update p.states d (record (p.states d) { is_closed = true });
          tickets = left;
        })
        held
        pending
unfolding count live is_available update
close_idle p d left rest held pending l a =
    let few = a.few_tickets in
    let idle = a.few_idle in
    let are = a.tickets_are in
    record {
      tickets_are = ground arith;
      few_tickets = omega arith;
      few_idle = omega arith;
      places = λ c. let q = a.places c in let r = a.places d in ground arith;
    }

take_ticket-Fits :
    (p : Pool) (held : List ℕ) (pending : ℕ)
    → Accounted p held pending
    → Fits held pending (take_ticket p)
unfolding take_ticket Fits live is_available
take_ticket-Fits p held pending a =
    let few = a.few_tickets in
    let are = a.tickets_are in
    elim (Bool-cases (p.max_conn == 0)) [
      | inl e ↦ rw (e) (record {
        tickets_are = ground arith;
        few_tickets = few;
        few_idle = a.few_idle;
        places = a.places;
      })
      | inr e ↦ elim (Bool-cases (ltb p.tickets p.max_conn)) [
        | inl f ↦
            rw (e, f)
              (record {
                tickets_are = ground arith;
                few_tickets = ground arith;
                few_idle = a.few_idle;
                places = a.places;
              })
        | inr f ↦ rw (e, f) a
      ]
    ]

-- The oldest idle connection is open.
idle_is_available :
    (p : Pool) (d : ℕ) (rest held : List ℕ) (pending : ℕ)
    → Accounted (record p { idle = d ∷ rest }) held pending
    → is_available p d ≡ true
unfolding count live
idle_is_available p d rest held pending a = let q = a.places d in ground arith

-- It can be closed.
close_idle-Accounted :
    (p : Pool) (d : ℕ) (rest held : List ℕ) (pending : ℕ)
    → Accounted (record p { idle = d ∷ rest }) held pending
    → (r : Pool) × (close (record p { idle = rest }) d ≡ some r)
      × Accounted (record r { idle = rest }) held pending
unfolding close
close_idle-Accounted p d rest held pending a =
    let few = a.few_tickets in
    let are = a.tickets_are in
    elim (Bool-cases (p.max_conn == 0)) [
      | inl e ↦ rw (e) (_, refl, close_idle p d p.tickets rest held pending (ground arith) a)
      | inr e ↦
          let some_left : (p.tickets == 0) ≡ false = ground arith in
          rw (e, some_left) (_, refl, close_idle p d (p.tickets - 1) rest held pending refl a)
    ]

pub next_idle-Fits :
    (now : ℕ) (idle : List ℕ) (p : Pool) (held : List ℕ) (pending : ℕ)
    → Accounted (record p { idle = idle }) held pending
    → Fits held pending (next_idle now idle p)
unfolding next_idle Fits count live is_available
next_idle-Fits now [] p held pending a = take_ticket-Fits (record p { idle = [] }) held pending a
next_idle-Fits now (d ∷ rest) p held pending a =
    let avail = idle_is_available p d rest held pending a in
    let closed = close_idle-Accounted p d rest held pending a in
    elim (Bool-cases (is_stale now p d)) [
      | inl e ↦ rw (e, closed.1, next_idle) (next_idle-Fits now rest closed.0 held pending closed.2)
      | inr e ↦
          rw (e, avail, next_idle)
            (record {
              tickets_are = let are = a.tickets_are in ground arith;
              few_tickets = a.few_tickets;
              few_idle = let few = a.few_idle in omega arith;
              places = λ c. let q = a.places c in ground arith;
            })
    ]
