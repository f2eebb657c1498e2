-- ===== src/Logger/Context/Lines.antt =====
-- What reaches a log line of the program's logger.
use sentinel_zero_trust.Common.{◌≡◌, refl, ℕ, Option, List, [], ◌++◌, Text}
use sentinel_zero_trust.Config.{LoggerConfig}
use sentinel_zero_trust.Logger.Context.{
  Context, Attr, Level, handle_by, handle, with_attrs, context_handler, base_handler, program_attrs,
  init_logger,
}

-- A line of the logger that InitLogger makes has the program's attributes and the record's own, and
-- none of the context's: `With` has replaced the ContextHandler by the handler inside it, so that no
-- trace id is ever written. With the same attributes put on the inner handler first, the wrapped
-- handler would have added what the context holds.
pub init_logger_line :
    (unmarshal_text : Text → Option Level) (cfg : LoggerConfig) (queue_size : ℕ) (ctx : Context)
    (attrs : List Attr)
    → (handle_by (init_logger unmarshal_text cfg queue_size).handler ctx attrs
        ≡ program_attrs cfg ++ attrs)
      × (handle_by
            (context_handler (with_attrs (base_handler cfg.is_json []) (program_attrs cfg)))
            ctx
            attrs
          ≡ program_attrs cfg ++ handle ctx attrs)
unfolding init_logger handle_by with_attrs
init_logger_line unmarshal_text cfg queue_size ctx attrs = (refl, refl)
