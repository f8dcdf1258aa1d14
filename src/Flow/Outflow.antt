-- ===== src/Flow/Outflow.antt =====
-- internal/transport/h2c/flow.go, `outflow`: what may still be sent. `n` is an int32, kept as its
-- two's complement pattern.
use go_http.Base.{
  ℕ, Bool, true, false, ◌≡◌, ◌↔◌, ◌⊎◌, arith, ltb, same, if◌then◌else◌, add32, sub32, slt32, IsWord,
  ◌+ℤ◌, signed32, InInt32,
}

pub record Outflow : Type 0 where
  pub n : ℕ

-- `fm.n > 0`
unfoldable pub available : Outflow → Bool
available fm = slt32 0 fm.n

-- `uint32(fm.n)` and `int32(got)` keep the pattern.
unfoldable pub pay : Outflow → ℕ → Outflow × ℕ
pay fm sz = let got = if ltb fm.n sz then fm.n else sz in (record { n = sub32 fm.n got }, got)

unfoldable pub refund : Outflow → ℕ → Outflow × Bool
refund fm sz =
    let sum = add32 fm.n sz in
    if same (slt32 sz sum) (slt32 0 fm.n) then (record { n = sum }, true) else (fm, false)

-- `Refund` is exact: it accepts an increment, negative ones included, exactly when the sum of the
-- window and the increment fits an int32.
pub refund_accepts :
    (fm : Outflow) (sz : ℕ)
    → IsWord fm.n
    → IsWord sz
    → ((refund fm sz).1 ≡ true) ↔ InInt32 (signed32 fm.n +ℤ signed32 sz)
unfolding refund
refund_accepts fm sz hn hs = ground arith

-- What `Refund` leaves in the window: the exact sum when it accepts, and the old window otherwise.
pub refund_window :
    (fm : Outflow) (sz : ℕ)
    → IsWord fm.n
    → IsWord sz
    → (((refund fm sz).1 ≡ true) × (signed32 (refund fm sz).0.n ≡ signed32 fm.n +ℤ signed32 sz))
      ⊎ (((refund fm sz).1 ≡ false) × ((refund fm sz).0 ≡ fm))
unfolding refund
refund_window fm sz hn hs = ground arith
