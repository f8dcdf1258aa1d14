-- ===== src/Transport/Errors.antt =====
-- internal/transport/h2c/errors/errors.go: `StreamError`, in Go's `error` interface.
use go_http.Base.{ℕ, Bool, false, ◌||◌, ◌≡◌, arith, [], ◌++◌, Bytes, codes, equal}
use go_http.Strconv.{format_int}

-- A value of the type `error`: nil, a `StreamError` with its error, an `h2Code`, or an error from
-- elsewhere, which wraps none of these.
pub data GoError : Type 0 where
  nil : GoError
  stream_error : (msg : Bytes) → (stream_id : ℕ) → GoError → GoError
  h2_code : (code : ℕ) → GoError
  foreign : (which : ℕ) → GoError

abbrev pub stream_cancelled : GoError
stream_cancelled = stream_error (codes "stream cancelled by context") 0 nil

abbrev pub stream_reset : GoError
stream_reset = stream_error (codes "stream already been reset") 0 nil

abbrev pub req_body_too_long : GoError
req_body_too_long =
    stream_error (codes "internal: request body larger than specified content length") 0 nil

abbrev pub req_body_read : GoError
req_body_read = stream_error (codes "internal: request body read error") 0 nil

abbrev pub framer_write : GoError
framer_write = stream_error (codes "internal: framer write error") 0 nil

unfoldable pub stream_reset_remote : ℕ → ℕ → GoError
stream_reset_remote stream_id code =
    stream_error (codes "remote stream reset") stream_id (h2_code code)

unfoldable pub stream_reset_local : ℕ → ℕ → GoError
stream_reset_local stream_id code =
    stream_error (codes "local stream reset") stream_id (h2_code code)

-- `Stream`, the identity on other errors.
unfoldable pub at_stream : GoError → ℕ → GoError
at_stream (stream_error msg old inner) stream_id = stream_error msg stream_id inner
at_stream e stream_id = e

-- `Wrap`
unfoldable pub wrap : GoError → GoError → GoError
wrap e nil = e
wrap (stream_error msg stream_id inner) err = stream_error msg stream_id err
wrap e err = e

-- `Unwrap`
unfoldable pub unwrap : GoError → GoError
unwrap (stream_error msg stream_id inner) = inner
unwrap e = nil

-- `Is`
unfoldable pub matches : GoError → GoError → Bool
matches (stream_error msg stream_id inner) (stream_error msg' stream_id' inner') = equal msg msg'
matches e target = false

-- `errors.Is` for a `StreamError` as the target: the error or one that it wraps matches.
unfoldable pub errors_is : GoError → GoError → Bool
unfolding matches
errors_is nil target = false
errors_is (stream_error msg stream_id inner) target =
    matches (stream_error msg stream_id inner) target || errors_is inner target
errors_is (h2_code code) target = false
errors_is (foreign which) target = false

-- The parameters: `ErrCode.String` of golang.org/x/net/http2, and the texts of the other errors.
module _ (code_text foreign_text : ℕ → Bytes) where
  -- `Error`; nil has no text.
  unfoldable pub error_text : GoError → Bytes
  error_text nil = []
  error_text (stream_error msg stream_id nil) = msg ++ codes " at stream " ++ format_int stream_id
  error_text (stream_error msg stream_id inner) =
      msg ++ codes " at stream " ++ format_int stream_id ++ codes ", error: " ++ error_text inner
  error_text (h2_code code) = code_text code
  error_text (foreign which) = foreign_text which

-- An error that is made of one of the package's, for a stream and around another error, is recognised
-- as that one and as whatever the other error is.
pub errors_is-wrap :
    (msg msg' : Bytes) (stream_id stream_id' : ℕ) (inner inner' : GoError)
    → errors_is
        (wrap (at_stream (stream_error msg 0 nil) stream_id) inner)
        (stream_error msg' stream_id' inner')
      ≡ (equal msg msg' || errors_is inner (stream_error msg' stream_id' inner'))
unfolding errors_is wrap at_stream
errors_is-wrap msg msg' stream_id stream_id' nil inner' = ground arith
errors_is-wrap msg msg' stream_id stream_id' (stream_error m i n) inner' = ground arith
errors_is-wrap msg msg' stream_id stream_id' (h2_code code) inner' = ground arith
errors_is-wrap msg msg' stream_id stream_id' (foreign which) inner' = ground arith
