-- ===== src/Controller/Frames.antt =====
-- The frames that internal/transport/h2c hands to and gets from the framer of golang.org/x/net
-- (controller/framer.go, whose methods call the framer under a lock). A call writes its frame or fails.
use go_http.Base.{ℕ, Bool, Option, none, List, [], ◌∷◌, Bytes}
use go_http.Streams.Settings.{Setting}

-- A frame that is sent, or the client's preface. Stream identifiers and codes are uint32.
pub data Sent : Type 0 where
  preface settings_ack : Sent
  settings : List Setting → Sent
  go_away : (last_stream_id : ℕ) → (code : ℕ) → (debug : Bytes) → Sent
  rst_stream : (stream_id : ℕ) → (code : ℕ) → Sent
  window_update : (stream_id : ℕ) → (increment : ℕ) → Sent
  ping : (ack : Bool) → (payload : ℕ) → Sent
  headers : (stream_id : ℕ) → Sent
  body : (stream_id : ℕ) → (end_stream : Bool) → Bytes → Sent

-- A frame that is read. `body` has the payload and the length of the padding with its length byte;
-- `headers` is a block that the framer has put together; `other` has no handler.
pub data Received : Type 0 where
  settings : (ack : Bool) → List Setting → Received
  go_away : (last_stream_id : ℕ) → (code : ℕ) → (debug : Bytes) → Received
  rst_stream : (stream_id : ℕ) → (code : ℕ) → Received
  window_update : (stream_id : ℕ) → (increment : ℕ) → Received
  ping : (ack : Bool) → (stream_id : ℕ) → (payload : ℕ) → Received
  headers : (stream_id : ℕ) → (ended : Bool) → Received
  body : (stream_id : ℕ) → (ended : Bool) → Bytes → (padding : ℕ) → Received
  other : Received

-- An error of the network.
abbrev pub NetError : Type 0
NetError = ℕ

-- The framer: what was sent, the newest first, and the errors of the coming calls (none behind the
-- list).
pub record Framer : Type 0 where
  pub sent : List Sent
  pub plan : List (Option NetError)

abbrev next_error : List (Option NetError) → Option NetError
next_error [] = none
next_error (e ∷ es) = e

abbrev later : List (Option NetError) → List (Option NetError)
later [] = []
later (e ∷ es) = es

-- A call that fails may have sent a part of its frame; it counts as sent.
unfoldable pub write_frame : Framer → Sent → Framer × Option NetError
write_frame f s = (record { sent = s ∷ f.sent; plan = later f.plan }, next_error f.plan)
