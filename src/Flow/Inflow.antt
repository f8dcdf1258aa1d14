-- ===== src/Flow/Inflow.antt =====
-- internal/transport/h2c/flow.go, `inflow`: what the peer may still send. Both counters are uint32.
use go_http.Base.{
  ℕ, ◌+◌, ◌-◌, ◌*◌, ◌^◌, ◌≤◌, ◌<◌, Bool, true, false, ◌≡◌, ◌≢◌, arith, ltb, leb, if◌then◌else◌,
  add32, sub32, IsWord, Option, none, some,
}

pub record Inflow : Type 0 where
  pub remaining : ℕ
  pub queued : ℕ

-- `2<<30 - 1`: the shift binds tighter.
abbrev pub max_flow_control_window : ℕ
max_flow_control_window = 2 * 2 ^ 30 - 1

abbrev pub inflow_min_refresh : ℕ
inflow_min_refresh = 4 * 2 ^ 10

unfoldable pub reset_initial_balance : Inflow → ℕ → Inflow × Bool
reset_initial_balance fm sz = (record fm { remaining = sz }, true)

unfoldable pub check_and_pay : Inflow → ℕ → Inflow × Bool
check_and_pay fm sz =
    if ltb fm.remaining sz
    then (fm, false)
    else (record fm { remaining = sub32 fm.remaining sz }, true)

-- `none` is the panic.
unfoldable pub refund : Inflow → ℕ → Option (Inflow × ℕ)
refund fm sz =
    let queued = add32 fm.queued sz in
    if leb inflow_min_refresh queued
    then (if ltb max_flow_control_window queued
        then none
        else some (record { remaining = add32 fm.remaining queued; queued = 0 }, queued))
    else some (record fm { queued = queued }, 0)

-- A window with its history: `held` is what was received and not yet given back, `paid` the sum of the
-- frames that were accepted, `over` of those that were not, `told` of the increments that the peer
-- learned of, and `lost` of those that it did not.
pub record Ledger : Type 0 where
  pub fm : Inflow
  pub held : ℕ
  pub paid : ℕ
  pub over : ℕ
  pub told : ℕ
  pub lost : ℕ

-- One operation on the window, as the handler of DATA makes them. A frame that is not accepted is given back
-- all the same, and an increment that `Refund` returns is announced or dropped.
pub data Step : Ledger → Ledger → Type 0 where
  accept :
      (l : Ledger) (sz : ℕ)
      → IsWord sz
      → (check_and_pay l.fm sz).1 ≡ true
      → Step l (record l { fm = (check_and_pay l.fm sz).0; held = l.held + sz; paid = l.paid + sz })
  reject :
      (l : Ledger) (sz : ℕ)
      → IsWord sz
      → (check_and_pay l.fm sz).1 ≡ false
      → Step l (record l { fm = (check_and_pay l.fm sz).0; held = l.held + sz; over = l.over + sz })
  announce :
      (l : Ledger) (sz : ℕ) (fm : Inflow) (update : ℕ)
      → sz ≤ l.held
      → refund l.fm sz ≡ some (fm, update)
      → Step l (record l { fm = fm; held = l.held - sz; told = l.told + update })
  keep_quiet :
      (l : Ledger) (sz : ℕ) (fm : Inflow) (update : ℕ)
      → sz ≤ l.held
      → refund l.fm sz ≡ some (fm, update)
      → Step l (record l { fm = fm; held = l.held - sz; lost = l.lost + update })

pub data Reach (s : Ledger) : Ledger → Type 0 where
  here : Reach s s
  next : {t u : Ledger} → Reach s t → Step t u → Reach s u

-- The window of a connection that has just been set up with `initial`.
unfoldable pub opened : ℕ → Ledger
opened initial = record {
  fm = (reset_initial_balance (record { remaining = 0; queued = 0 }) initial).0;
  held = 0;
  paid = 0;
  over = 0;
  told = 0;
  lost = 0;
}

-- Nothing is lost: what is open, what waits to be announced and what is held make up the initial
-- window and the frames beyond it. Less than 4096 bytes wait. The window is what the peer has left by its
-- own count, `initial + told - paid`, and what it was not told of.
pub record Balanced (initial : ℕ) (l : Ledger) : Type 0 where
  pub total : l.fm.remaining + l.fm.queued + l.held ≡ initial + l.over
  pub few_queued : l.fm.queued < inflow_min_refresh
  pub agreed : l.fm.remaining + l.paid ≡ initial + l.told + l.lost

opened-Balanced : (initial : ℕ) → Balanced initial (opened initial)
unfolding opened reset_initial_balance
opened-Balanced initial = ground arith

Step-over : {l m : Ledger} → Step l m → l.over ≤ m.over
Step-over (accept l sz w ok) = omega arith
Step-over (reject l sz w no_room) = omega arith
Step-over (announce l sz fm update h e) = omega arith
Step-over (keep_quiet l sz fm update h e) = omega arith

Step-Balanced :
    {initial : ℕ} {l m : Ledger}
    → initial + m.over ≤ max_flow_control_window
    → Step l m
    → Balanced initial l
    → Balanced initial m
unfolding check_and_pay refund
Step-Balanced bound (accept l sz w ok) b = ground (arith, b.total, b.few_queued, b.agreed)
Step-Balanced bound (reject l sz w no_room) b = ground (arith, b.total, b.few_queued, b.agreed)
Step-Balanced bound (announce l sz fm update h e) b =
    ground (arith, b.total, b.few_queued, b.agreed)
Step-Balanced bound (keep_quiet l sz fm update h e) b =
    ground (arith, b.total, b.few_queued, b.agreed)

pub Reach-Balanced :
    (initial : ℕ) {l : Ledger}
    → initial + l.over ≤ max_flow_control_window
    → Reach (opened initial) l
    → Balanced initial l
Reach-Balanced initial bound here = opened-Balanced initial
Reach-Balanced initial bound (next r s) =
    let more = Step-over s in
    Step-Balanced bound s (Reach-Balanced initial (omega (arith, bound, more)) r)

-- After such a history, giving back bytes that are held does not panic.
pub Reach-no_panic :
    (initial : ℕ) {l : Ledger} (sz : ℕ)
    → initial + l.over ≤ max_flow_control_window
    → Reach (opened initial) l
    → sz ≤ l.held
    → (refund l.fm sz ≢ none)
unfolding refund
Reach-no_panic initial {l} sz bound r held =
    let b = Reach-Balanced initial bound r in ground (arith, b.total, b.few_queued)

-- After such a history, a frame is accepted exactly when it fits what the peer may send by its own count
-- and by the increments that it was not told of.
pub check_and_pay_credit :
    (initial : ℕ) {l : Ledger} (sz : ℕ)
    → initial + l.over ≤ max_flow_control_window
    → Reach (opened initial) l
    → (check_and_pay l.fm sz).1 ≡ leb (sz + l.paid) (initial + l.told + l.lost)
unfolding check_and_pay
check_and_pay_credit initial {l} sz bound r =
    let b = Reach-Balanced initial bound r in ground (arith, b.agreed)
