-- ===== src/Logger/Context.antt =====
-- data-plane/internal/logger/logger.go: context values, and the attributes that ContextHandler takes from
-- them. A context key is an interface value: two keys are equal if their dynamic types and their
-- strings are, so a `string` key never equals a `ctxKey` key.
pub mod Lines
use sentinel_zero_trust.Common.{
  ℕ, Bool, false, Option, none, some, List, [], ◌∷◌, ◌++◌, Text, codes, text_eq, if◌then◌else◌,
}
use sentinel_zero_trust.Config.{LoggerConfig}

pub data Key : Type 0 where
  string_key : Text → Key
  ctx_key : Text → Key  -- of the type `ctxKey` of middleware.go

unfoldable pub key_eq : Key → Key → Bool
key_eq (string_key a) (string_key b) = text_eq a b
key_eq (ctx_key a) (ctx_key b) = text_eq a b
key_eq _ _ = false

-- The values that were put into a context, the last first; all that the program puts are strings.
abbrev pub Context : Type 0
Context = List (Key × Text)

unfoldable pub with_value : Context → Key → Text → Context
with_value ctx k v = (k, v) ∷ ctx

-- `ctx.Value(key).(string)`
unfoldable pub value : Context → Key → Option Text
unfolding key_eq
value [] k = none
value ((j, v) ∷ ctx) k = if key_eq j k then some v else value ctx k

unfoldable pub trace_id_key : Key
trace_id_key = string_key (codes "trace_id")

unfoldable pub with_trace_id : Context → Text → Context
unfolding with_value trace_id_key
with_trace_id ctx trace_id = with_value ctx trace_id_key trace_id

abbrev pub Attr : Type 0
Attr = Text × Text

-- One `if val, ok := ctx.Value(Key).(string); ok { r.AddAttrs(…) }`
unfoldable pub attr_of : Context → Text → List Attr
attr_of ctx name = elim (value ctx (string_key name)) [ none ↦ [] | some v ↦ (name, v) ∷ [] ]

-- What `ContextHandler.Handle` adds to a record before it hands it on.
unfoldable pub context_attrs : Context → List Attr
context_attrs ctx =
    attr_of ctx (codes "trace_id")
    ++ (attr_of ctx (codes "request_id")
        ++ (attr_of ctx (codes "http_method")
            ++ (attr_of ctx (codes "http_uri") ++ attr_of ctx (codes "http_remote_addr"))))

unfoldable pub handle : Context → List Attr → List Attr
unfolding context_attrs attr_of value
handle ctx attrs = attrs ++ context_attrs ctx

-- A `slog.Handler`: the text or JSON handler, with the attributes that it puts on every record, or a
-- `ContextHandler` around another.
pub data Handler : Type 0 where
  base_handler : Bool → List Attr → Handler
  context_handler : Handler → Handler

-- `WithAttrs`. `ContextHandler` declares none, so that the method of the handler inside is promoted,
-- which answers that handler.
unfoldable pub with_attrs : Handler → List Attr → Handler
with_attrs (base_handler is_json attrs) more = base_handler is_json (attrs ++ more)
with_attrs (context_handler inner) more = with_attrs inner more

-- `Handle`: the attributes of the line that is written.
unfoldable pub handle_by : Handler → Context → List Attr → List Attr
unfolding handle
handle_by (base_handler is_json attrs) ctx record_attrs = attrs ++ record_attrs
handle_by (context_handler inner) ctx record_attrs = handle_by inner ctx (handle ctx record_attrs)

-- `slog.Level` values, and `InitLogger`'s choice: Info where the text is no level.
pub data Level : Type 0 where
  debug info warn error : Level

unfoldable pub level_of : (Text → Option Level) → LoggerConfig → Level
level_of unmarshal_text cfg = elim (unmarshal_text cfg.level) [ none ↦ info | some l ↦ l ]

-- The logger that `InitLogger` makes.
pub record Logger : Type 0 where
  pub level : Level
  pub add_source : Bool
  pub handler : Handler
  pub queue_size : ℕ

abbrev pub program_attrs : LoggerConfig → List Attr
program_attrs cfg =
    (codes "version", cfg.app_version)
    ∷ (codes "env", cfg.env)
    ∷ (codes "APP_NAME", cfg.service_name)
    ∷ []

-- `slog.New(&ContextHandler{baseHandler}).With(…)`
unfoldable pub init_logger : (Text → Option Level) → LoggerConfig → ℕ → Logger
unfolding level_of with_attrs
init_logger unmarshal_text cfg queue_size = record {
  level = level_of unmarshal_text cfg;
  add_source = cfg.add_source;
  handler = with_attrs (context_handler (base_handler cfg.is_json [])) (program_attrs cfg);
  queue_size = queue_size;
}
