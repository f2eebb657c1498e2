-- ===== src/Logger/Middleware.antt =====
-- data-plane/internal/logger/middleware.go: the HTTP middleware.
pub mod Correlation
pub mod Status
use sentinel_zero_trust.Common.{
  ℕ, ◌+◌, ◌-◌, ◌/◌, ◌%◌, Bool, true, false, Option, none, some, List, [], ◌∷◌, ◌++◌, Text, codes,
  text_eq, leb, ltb, String, if◌then◌else◌,
}
use sentinel_zero_trust.Logger.Context.{
  Key, ctx_key, Context, with_value, with_trace_id, Level, info, warn, error,
}

-- `hex.EncodeToString`
unfoldable pub hex_digit : ℕ → ℕ
hex_digit d = if ltb d 10 then b'0' + d else b'a' + (d - 10)

unfoldable pub hex_encode : Text → Text
unfolding hex_digit
hex_encode [] = []
hex_encode (b ∷ bs) = hex_digit (b / 16) ∷ hex_digit (b % 16) ∷ hex_encode bs

-- The sixteen random bytes are an argument.
unfoldable pub generate_trace_id : Text → Text
unfolding hex_encode
generate_trace_id random = hex_encode random

-- The parts of a request that the middleware reads.
pub record HttpRequest : Type 0 where
  pub header : Text → Text  -- `r.Header.Get`
  pub method : Text
  pub request_uri : Text
  pub remote_addr : Text
  pub context : Context

-- The id in the header, or a generated one.
unfoldable pub id_or_generated : Text → Text → Text
unfolding generate_trace_id
id_or_generated value random = if text_eq value (codes "") then generate_trace_id random else value

unfoldable pub middleware_context : HttpRequest → Text → Text → Context
unfolding with_value with_trace_id
middleware_context r trace_id request_id =
    with_value
      (with_value
        (with_value
          (with_value (with_trace_id r.context trace_id) (ctx_key (codes "request_id")) request_id)
          (ctx_key (codes "http_method")) r.method)
        (ctx_key (codes "http_uri")) r.request_uri)
      (ctx_key (codes "http_remote_addr")) r.remote_addr

-- A handler's calls on its ResponseWriter.
pub data Call : Type 0 where
  write_header : ℕ → Call
  write_body : Text → Call

-- `statusResponseWriter`: `statusCode` after the calls, from what it was.
unfoldable pub status_code : ℕ → List Call → ℕ
status_code code [] = code
status_code code (write_header c ∷ calls) = status_code c calls
status_code code (write_body b ∷ calls) = status_code code calls

unfoldable pub level_of_status : ℕ → Level
level_of_status code = if leb 500 code then error else if leb 400 code then warn else info

-- What the middleware does for one request.
pub record Served : Type 0 where
  pub response_trace_id : Text  -- the header X-Trace-ID of the response
  pub response_request_id : Text  -- the header X-Request-ID
  pub context : Context  -- the context that the next handler gets, and the log line
  pub calls : List Call  -- passed on to the ResponseWriter
  pub level : Level
  pub logged_status : ℕ

unfoldable pub middleware : (Context → List Call) → HttpRequest → Text → Text → Served
unfolding id_or_generated middleware_context status_code level_of_status
middleware next r random random' =
    let trace_id = id_or_generated (r.header (codes "X-Trace-ID")) random in
    let request_id = id_or_generated (r.header (codes "X-Request-ID")) random' in
    let ctx = middleware_context r trace_id request_id in
    record {
      response_trace_id = trace_id;
      response_request_id = request_id;
      context = ctx;
      calls = next ctx;
      level = level_of_status (status_code 200 (next ctx));
      logged_status = status_code 200 (next ctx);
    }
