-- ===== src/Streams/Messages.antt =====
-- internal/transport/h2c/conn.go: the handlers of HEADERS and DATA are good for every stream.
use go_http.Base.{
  ℕ, ◌+◌, ◌-◌, ◌≡◌, refl, arith, inl, inr, Bool, false, ◌==◌, Bool-cases, Option-cases,
  if◌then◌else◌, length, leb, take, Bytes,
}
use go_http.Flow.Inflow
use go_http.Controller.Frames.{write_frame}
use go_http.Streams.Lives.{Link, close_with_error, set_life, send}
use go_http.Streams.Dispatch.{
  returns, blocks, Reader, go_away, refund_inflow, give_back, close_pipe, end_stream, with_stream,
  deliver, pass_all, take_data, pay_data, on_data, on_header, charge, without_increment,
}
use go_http.Streams.Ends.{
  only_connection, Goes, Goes-trans, same-Goes, is_active-delete, Outcome, Outcome-bind,
  Outcome-after, choose_handled, choose-Outcome, with_stream-Goes,
}

end_stream-Goes : (j : ℕ) (l : Link) (id : ℕ) (ended : Bool) → Goes j l (end_stream ended l id)
unfolding end_stream close_pipe close_with_error set_life
end_stream-Goes j l id ended =
    let a = is_active-delete j id l.conn.active_streams in
    record {
      sound =
          λ s. record { active = ground (arith, s.active, a); used = ground (arith, s.used, a) };
      settled =
          λ s d. record { still_done = ground arith; reason = ground arith; bytes = ground arith };
      updates = λ q. ground arith;
    }

deliver-Goes :
    (j : ℕ) (l : Link) (id : ℕ) (bs : Bytes)
    → (l.lives id).done ≡ false
    → Goes j l (deliver l id bs)
unfolding deliver set_life
deliver-Goes j l id bs live = record {
  sound = λ s. record { active = ground (arith, s.active); used = ground (arith, s.used) };
  settled =
      λ s d. record { still_done = ground arith; reason = ground arith; bytes = ground arith };
  updates = λ q. ground arith;
}

give_back-Goes : (j : ℕ) (l : Link) (n : ℕ) → Outcome (Goes j l) (give_back l n)
unfolding give_back refund_inflow send only_connection write_frame
give_back-Goes j l n = elim (Option-cases (Inflow.refund l.inflow n)) [
  | inl e ↦ rw (e, give_back, refund_inflow) (record {})
  | inr e ↦
      rw (e.1, give_back, refund_inflow)
        (same-Goes (ground arith) (ground arith) (λ q. ground arith))
]

pass_all-Goes :
    (j : ℕ) (l : Link) (id : ℕ) (bs : Bytes) (ended : Bool)
    → (l.lives id).done ≡ false
    → Outcome (Goes j l) (pass_all id bs ended l).0
unfolding pass_all
pass_all-Goes j l id bs ended live = elim (Bool-cases (length bs == 0)) [
  | inl z ↦
      rw (z, pass_all)
        (Goes-trans (deliver-Goes j l id bs live) (end_stream-Goes j (deliver l id bs) id ended))
  | inr z ↦
      rw (z, pass_all)
        (Outcome-bind (Goes j l) (give_back (deliver l id bs) (length bs)) _
          (give_back-Goes j (deliver l id bs) (length bs))
          (λ l' h.
            Goes-trans (Goes-trans (deliver-Goes j l id bs live) h)
              (end_stream-Goes j l' id ended)))
]

take_data-Goes :
    (j : ℕ) (l : Link) (id : ℕ) (bs : Bytes) (ended : Bool) (reader : Reader)
    → (l.lives id).done ≡ false
    → Outcome (Goes j l) (take_data id bs ended reader l).0
unfolding take_data
take_data-Goes j l id bs ended Reader.reads_on live = pass_all-Goes j l id bs ended live
take_data-Goes j l id bs ended Reader.stops live =
    choose-Outcome (Goes j l) (length bs == 0) _ _ (pass_all-Goes j l id bs ended live) (record {})
take_data-Goes j l id bs ended (Reader.closes n) live =
    choose-Outcome (Goes j l) (leb (length bs) n) _ _ (pass_all-Goes j l id bs ended live) (
      Outcome-after (give_back (deliver l id (take n bs)) (length bs - n))
        (deliver-Goes j l id (take n bs) live)
        (give_back-Goes j (deliver l id (take n bs)) (length bs - n)))

charge-Goes : (j : ℕ) (l : Link) (size : ℕ) → Goes j l (charge l size)
unfolding charge go_away only_connection write_frame
charge-Goes j l size = same-Goes (ground arith) (ground arith) (λ q. ground arith)

without_increment-Goes :
    (j : ℕ) (l : Link) (n : ℕ) → Outcome (Goes j l) (without_increment (refund_inflow l n))
unfolding refund_inflow
without_increment-Goes j l n = elim (Option-cases (Inflow.refund l.inflow n)) [
  | inl e ↦ rw (e, refund_inflow) (record {})
  | inr e ↦ rw (e.1, refund_inflow) (same-Goes (ground arith) (ground arith) (λ q. ground arith))
]

pay_data-Goes : (j : ℕ) (l : Link) (size padding : ℕ) → Outcome (Goes j l) (pay_data l size padding)
unfolding pay_data
pay_data-Goes j l size padding = Outcome-after (pay_data l size padding) (charge-Goes j l size) (
    choose_handled (Goes j (charge l size)) (padding == 0) _ _ (same-Goes refl refl (λ q. q))
      (without_increment-Goes j (charge l size) padding))

pub on_data-Goes :
    (j : ℕ) (l : Link) (id : ℕ) (bs : Bytes) (ended : Bool) (padding : ℕ) (reader : Reader)
    → Outcome (Goes j l) (on_data l id bs ended padding reader)
unfolding on_data
on_data-Goes j l id bs ended padding reader =
    Outcome-bind (Goes j l) (pay_data l (length bs + padding) padding) _
      (pay_data-Goes j l (length bs + padding) padding)
      (λ l' h. Outcome-after (with_stream l' id (take_data id bs ended reader)) h (
        with_stream-Goes j l' id (take_data id bs ended reader)
          (take_data-Goes j l' id bs ended reader)))

pub on_header-Goes :
    (j : ℕ) (l : Link) (id : ℕ) (ended taken : Bool)
    → Outcome (Goes j l) (on_header l id ended taken)
unfolding on_header
on_header-Goes j l id ended taken =
    with_stream-Goes j l id
      (λ l'. (if taken then returns (end_stream ended l' id) else blocks, false))
      (λ live.
        choose_handled (Goes j l) taken (returns (end_stream ended l id)) blocks
          (end_stream-Goes j l id ended) (record {}))
