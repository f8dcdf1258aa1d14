-- ===== src/Streams/Dispatch.antt =====
-- internal/transport/h2c/conn.go: what the handlers of `NewConnection` share, and those of HEADERS and
-- DATA.
use go_http.Base.{
  ℕ, ◌+◌, ◌-◌, Bool, true, false, ◌==◌, leb, Option, none, some, [], ◌++◌, Bytes, length, take,
  if◌then◌else◌,
}
use go_http.Flow.Inflow
use go_http.Controller.Frames.{Sent}
use go_http.Controller.Closing.{go_away_debug}
use go_http.Streams.Lives.{Link, closed, set_life, send, close_with_error, reset, is_valid}

abbrev pub flow_control_error : ℕ
flow_control_error = 3

abbrev pub internal_error : ℕ
internal_error = 2

abbrev pub stream_closed : ℕ
stream_closed = 5

-- What a handler does: it returns, panics, or never returns.
pub data Handled : Type 0 where
  returns : Link → Handled
  panics blocks : Handled

infixl 5 ◌>>=◌
abbrev pub ◌>>=◌ : Handled → (Link → Handled) → Handled
returns l >>= f = f l
panics >>= f = panics
blocks >>= f = blocks

-- How the caller reads the response's body while a frame is handled: it takes all, closes its end
-- behind some bytes, or has stopped reading.
pub data Reader : Type 0 where
  reads_on stops : Reader
  closes : (taken : ℕ) → Reader

-- `GoAway` and `GoAwayDebug` of the connection
unfoldable pub go_away : Link → ℕ → Bytes → Link
unfolding go_away_debug
go_away l code debug = record l {
  controller = (go_away_debug l.controller l.conn.last_stream_id code debug).0;
}

-- `conn.inflow.Refund`: with the link, the increment.
unfoldable pub refund_inflow : Link → ℕ → Option (Link × ℕ)
refund_inflow l n = elim (Inflow.refund l.inflow n) [
  | none ↦ none
  | some r ↦ some (record l { inflow = r.0 }, r.1)
]

-- `if inc := conn.inflow.Refund(n); inc != 0 { ctrl.WriteWindowUpdate(0, inc) }`
unfoldable pub give_back : Link → ℕ → Handled
unfolding refund_inflow
give_back l n = elim (refund_inflow l n) [
  | none ↦ panics
  | some r ↦ returns (if r.1 == 0 then r.0 else send r.0 (Sent.window_update 0 r.1))
]

-- The writer of the pipe closes it.
unfoldable pub close_pipe : Link → ℕ → Link
unfolding set_life
close_pipe l id = set_life l id (record (l.lives id) { pipe = closed })

-- `respWriter.Close()` and `Close()`, for a frame that ends the stream.
unfoldable pub end_stream : Bool → Link → ℕ → Link
unfolding close_pipe close_with_error
end_stream false l id = l
end_stream true l id = close_with_error (close_pipe l id) id none

-- `withStream`, where the function's error is a Boolean beside what it does.
unfoldable pub with_stream : Link → ℕ → (Link → Handled × Bool) → Handled
unfolding is_valid reset
with_stream l id f =
    if is_valid l id
    then (let r = f l in
        if r.1 then (r.0 >>= λ l'. returns (reset l' id internal_error false)) else r.0)
    else returns (send l (Sent.rst_stream id stream_closed))

unfoldable pub deliver : Link → ℕ → Bytes → Link
unfolding set_life
deliver l id bs = set_life l id (record (l.lives id) { delivered = (l.lives id).delivered ++ bs })

-- All bytes of the frame go through the pipe; the loop is not entered without any.
unfoldable pub pass_all : ℕ → Bytes → Bool → Link → Handled × Bool
unfolding deliver give_back end_stream
pass_all id bs ended l =
    let given = deliver l id bs in
    let paid : Handled = if length bs == 0 then returns given else give_back given (length bs) in
    (paid >>= (λ l'. returns (end_stream ended l' id)), false)

-- The function of `OnData` on a valid stream.
unfoldable pub take_data : ℕ → Bytes → Bool → Reader → Link → Handled × Bool
unfolding pass_all deliver give_back
take_data id bs ended reads_on l = pass_all id bs ended l
take_data id bs ended stops l = if length bs == 0 then pass_all id bs ended l else (blocks, false)
take_data id bs ended (closes taken) l =
    if leb (length bs) taken
    then pass_all id bs ended l
    else (give_back (deliver l id (take taken bs)) (length bs - taken), true)

-- `CheckAndPay`, and `GoAway` if it fails.
unfoldable pub charge : Link → ℕ → Link
unfolding go_away
charge l size =
    let paid = Inflow.check_and_pay l.inflow size in
    let l' = record l { inflow = paid.0 } in if paid.1 then l' else go_away l' flow_control_error []

abbrev pub without_increment : Option (Link × ℕ) → Handled
without_increment none = panics
without_increment (some r) = returns r.0

-- The handler of DATA up to `withStream`, for a frame of `size` bytes with its padding.
unfoldable pub pay_data : Link → ℕ → ℕ → Handled
unfolding charge refund_inflow
pay_data l size padding =
    let l' = charge l size in
    if padding == 0 then returns l' else without_increment (refund_inflow l' padding)

-- The handler of DATA
unfoldable pub on_data : Link → ℕ → Bytes → Bool → ℕ → Reader → Handled
unfolding pay_data with_stream take_data
on_data l id bs ended padding reader = pay_data l (length bs + padding) padding >>= λ l'.
    with_stream l' id (take_data id bs ended reader)

-- The handler of HEADERS; `taken` says that `ReadHeaders` receives the block.
unfoldable pub on_header : Link → ℕ → Bool → Bool → Handled
unfolding with_stream end_stream
on_header l id ended taken =
    with_stream l id (λ l'. (if taken then returns (end_stream ended l' id) else blocks, false))
