-- ===== src/Logger/Middleware/Correlation.antt =====
-- Trace and request ids through the middleware and into the log.
use sentinel_zero_trust.Common.{
  ℕ, ◌*◌, ◌/◌, ◌%◌, ◌<◌, ◌≤◌, ◌≡◌, refl, Bool-cases, ltb, ◌⊎◌, inl, inr, some, List, [], ◌∷◌, ◌++◌,
  Text, codes, text_eq, text_eq_refl, text_eq-nil, arith, All, length, if◌then◌else◌,
}
use sentinel_zero_trust.Logger.Context.{string_key, Context, value, attr_of, handle, Attr}
use sentinel_zero_trust.Logger.Middleware.{
  hex_digit, hex_encode, generate_trace_id, HttpRequest, id_or_generated, middleware_context, Call,
  middleware,
}

value-middleware_context :
    (r : HttpRequest) (t q name : Text)
    → value (middleware_context r t q) (string_key name)
      ≡ (if text_eq (codes "trace_id") name then some t else value r.context (string_key name))
unfolding value middleware_context
value-middleware_context r t q name = refl

-- To a record with the context of a request, ContextHandler.Handle adds the trace id that the
-- response carries. The request id, the method, the URI and the address, which the middleware puts
-- into the context as well, add nothing: each of these attributes is there only if the context that
-- came in had it.
pub handle-middleware :
    (next : Context → List Call) (r : HttpRequest) (random random' : Text) (attrs : List Attr)
    → let s = middleware next r random random' in
      handle s.context attrs
      ≡ attrs
        ++ ((codes "trace_id", s.response_trace_id)
            ∷ (attr_of r.context (codes "request_id")
                ++ (attr_of r.context (codes "http_method")
                    ++ (attr_of r.context (codes "http_uri")
                        ++ attr_of r.context (codes "http_remote_addr")))))
unfolding handle middleware text_eq
handle-middleware next r random random' attrs = refl

-- The response repeats each id that the request brought, and has a generated one where the
-- request brought none.
pub response_ids :
    (next : Context → List Call) (r : HttpRequest) (random random' : Text)
    → let s = middleware next r random random' in
      (s.response_trace_id ≡ (elim (r.header (codes "X-Trace-ID")) [
        | [] ↦ generate_trace_id random
        | c ∷ cs ↦ c ∷ cs
      ]))
      × (s.response_request_id ≡ (elim (r.header (codes "X-Request-ID")) [
        | [] ↦ generate_trace_id random'
        | c ∷ cs ↦ c ∷ cs
      ]))
unfolding middleware
response_ids next r random random' =
    (kept (r.header (codes "X-Trace-ID")) random, kept (r.header (codes "X-Request-ID")) random')
  where
    kept :
        (v b : Text) → id_or_generated v b ≡ (elim v [ [] ↦ generate_trace_id b | c ∷ cs ↦ c ∷ cs ])
    kept [] b = rw (text_eq_refl [])
    kept (c ∷ cs) b = rw (text_eq-nil (c ∷ cs))

-- A generated id has two lower-case hexadecimal digits for each random byte.
abbrev pub IsHexDigit : ℕ → Type 0
IsHexDigit c = ((b'0' ≤ c) × (c ≤ b'9')) ⊎ ((b'a' ≤ c) × (c ≤ b'f'))

hex_digit-IsHexDigit : (d : ℕ) → d < 16 → IsHexDigit (hex_digit d)
unfolding hex_digit
hex_digit-IsHexDigit d h = elim (Bool-cases (ltb d 10)) [
  | inl e ↦ rw e (inl (ground arith, ground arith))
  | inr e ↦ rw e (inr (ground arith, ground arith))
]

pub generate_trace_id_lem :
    (random : Text)
    → All (λ b. b < 256) random
    → (length (generate_trace_id random) ≡ 2 * length random)
      × All IsHexDigit (generate_trace_id random)
unfolding generate_trace_id hex_encode
generate_trace_id_lem [] h = (omega arith, tt)
generate_trace_id_lem (b ∷ bs) (hb, h) =
    let rest = generate_trace_id_lem bs h in
    (
      omega (arith, rest.0),
      (
        hex_digit-IsHexDigit (b / 16) (omega arith),
        (hex_digit-IsHexDigit (b % 16) (omega arith), rest.1),
      ),
    )
