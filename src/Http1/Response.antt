-- ===== src/Http1/Response.antt =====
-- internal/http/model.go, `Response`, and the errors of reading a response in
-- internal/transport/http1/http1.go.
use go_http.Base.{ℕ, Option, some, Bytes, []}
use go_http.Textproto.{Headers, TextError}

pub data HeaderError : Type 0 where
  text : TextError → HeaderError
  headers_eof : HeaderError
  malformed_response malformed_status_code malformed_version : HeaderError
  empty_content_length multiple_content_length invalid_content_length : HeaderError
  unsupported_transfer_encoding : HeaderError

-- `content_length` is `none` for -1. The body is the session (Http1.Session).
pub record Response : Type 0 where
  pub proto : Bytes
  pub status : Bytes
  pub status_code : ℕ
  pub header : Headers
  pub content_length : Option ℕ
  pub transfer_encoding : Bytes

-- `new(http.Response)`; its `ContentLength` is 0.
abbrev pub new_response : Response
new_response = record {
  proto = [];
  status = [];
  status_code = 0;
  header = [];
  content_length = some 0;
  transfer_encoding = [];
}
