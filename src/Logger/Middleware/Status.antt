-- ===== src/Logger/Middleware/Status.antt =====
-- The status that the middleware logs against the one that the client gets.
use sentinel_zero_trust.Common.{
  ℕ, ◌≡◌, refl, ◌≤◌, ◌<◌, inl, inr, Bool-cases, List, [], ◌∷◌, Text, arith, leb,
}
use sentinel_zero_trust.Logger.Context.{Context, Level, info, warn, error}
use sentinel_zero_trust.Logger.Middleware.{
  Call, write_header, write_body, status_code, level_of_status, HttpRequest, middleware,
}

-- What net/http sends: the first status that is written, and 200 where a body, or nothing, comes
-- before any. (The statuses below 200, which may precede it, are left out.)
abbrev pub sent_status : List Call → ℕ
sent_status [] = 200
sent_status (write_header c ∷ calls) = c
sent_status (write_body b ∷ calls) = 200

-- The handler writes a status at most once, and before any body.
abbrev pub WritesNoHeader : List Call → Type 0
WritesNoHeader [] = Unit
WritesNoHeader (write_header c ∷ calls) = ⊥
WritesNoHeader (write_body b ∷ calls) = WritesNoHeader calls

abbrev pub WritesHeaderFirst : List Call → Type 0
WritesHeaderFirst [] = Unit
WritesHeaderFirst (write_header c ∷ calls) = WritesNoHeader calls
WritesHeaderFirst (write_body b ∷ calls) = WritesNoHeader calls

status_code-WritesNoHeader :
    (code : ℕ) (calls : List Call) → WritesNoHeader calls → status_code code calls ≡ code
unfolding status_code
status_code-WritesNoHeader code [] h = refl
status_code-WritesNoHeader code (write_header c ∷ calls) h = absurd h
status_code-WritesNoHeader code (write_body b ∷ calls) h = status_code-WritesNoHeader code calls h

status_code-sent :
    (calls : List Call) → WritesHeaderFirst calls → status_code 200 calls ≡ sent_status calls
unfolding status_code
status_code-sent [] h = refl
status_code-sent (write_header c ∷ calls) h = status_code-WritesNoHeader c calls h
status_code-sent (write_body b ∷ calls) h = status_code-WritesNoHeader 200 calls h

abbrev pub LevelFits : ℕ → Level → Type 0
LevelFits status error = 500 ≤ status
LevelFits status warn = (400 ≤ status) × (status < 500)
LevelFits status info = status < 400
LevelFits status Level.debug = ⊥

level_of_status-LevelFits : (status : ℕ) → LevelFits status (level_of_status status)
unfolding level_of_status
level_of_status-LevelFits status = elim (Bool-cases (leb 500 status)) [
  | inl e ↦ rw e (ground arith)
  | inr e ↦ elim (Bool-cases (leb 400 status)) [
    | inl f ↦ rw (e, f) (ground arith, ground arith)
    | inr f ↦ rw (e, f) (ground arith)
  ]
]

-- For a handler that writes its status at most once, and first, the log line shows the status that
-- the client gets, at the level Error from 500 on, Warn from 400 on and Info below.
pub middleware_status :
    (next : Context → List Call) (r : HttpRequest) (random random' : Text)
    → WritesHeaderFirst (next (middleware next r random random').context)
    → let s = middleware next r random random' in
      (s.calls ≡ next s.context)
      × (s.logged_status ≡ sent_status s.calls)
      × LevelFits (sent_status s.calls) s.level
unfolding middleware
middleware_status next r random random' h = (
  refl,
  status_code-sent (next (middleware next r random random').context) h,
  rw (← status_code-sent (next (middleware next r random random').context) h) (
      level_of_status-LevelFits
        (status_code 200 (next (middleware next r random random').context))),
)
