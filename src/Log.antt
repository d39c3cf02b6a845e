-- ===== src/Log.antt =====
-- internal/log/logger.go. The sink keeps what was handed to zap, and the attributes set on the span
-- of a context. zap's own levels, encoding and output are third-party code.
use go_api_demo.Prelude.{String, Option, none, some, List, [], ◌∷◌, ◌++◌, if◌then◌else◌}
use go_api_demo.Error.{Error, Outcome, panicked}
use go_api_demo.Context.{Context, Span}

pub data Level : Type 0 where
  info error panic : Level

pub record Line : Type 0 where
  pub level : Level
  pub msg : String
  pub fields : List (String × String)

pub record Sink : Type 0 where
  pub lines : List Line
  pub attributes : List (String × String)

unfoldable pub emit : Level → String → List (String × String) → Sink → Sink
emit level msg fields s = record s {
  lines = s.lines ++ record { level = level; msg = msg; fields = fields } ∷ [];
}

unfoldable pub span_fields : Option Span → List (String × String)
span_fields none = []
span_fields (some span) =
    if span.recording then ("trace_id", span.trace_id) ∷ ("span_id", span.span_id) ∷ [] else []

unfoldable pub log_to_span : Option Span → String → String → Sink → Sink
log_to_span none level msg s = s
log_to_span (some span) level msg s =
    if span.recording
    then record s { attributes = s.attributes ++ ("event", msg) ∷ ("level", level) ∷ [] }
    else s

-- The methods take the text that `fmt.Sprintf(msg, args...)` gives.
unfoldable pub errorf_context : Context → String → Sink → Sink
unfolding emit span_fields log_to_span
errorf_context ctx m s = emit error m (span_fields ctx.span) (log_to_span ctx.span "error" m s)

unfoldable pub infof_context : Context → String → Sink → Sink
unfolding emit span_fields log_to_span
infof_context ctx m s = emit info m (span_fields ctx.span) (log_to_span ctx.span "info" m s)

unfoldable pub errorf : String → Sink → Sink
unfolding emit
errorf m s = emit error m [] s

unfoldable pub infof : String → Sink → Sink
unfolding emit
infof m s = emit info m [] s

-- zap's `Panic` writes the line, then panics with it.
unfoldable pub panicf : String → Sink → Outcome (Unit {0}) × Sink
unfolding emit
panicf m s = (panicked m, emit panic m [] s)

-- `render` is `fmt.Sprintf("%+v", err)`, whose text is up to the package that made the error.
module _ (render : Error → String) where
  unfoldable pub error_context : Context → Error → Sink → Sink
  unfolding emit span_fields log_to_span
  error_context ctx err s =
      let msg = render err in
      emit error msg (span_fields ctx.span) (log_to_span ctx.span "error" msg s)

  unfoldable pub log_error : Error → Sink → Sink
  unfolding errorf
  log_error err s = errorf (render err) s

  unfoldable pub log_panic : Error → Sink → Outcome (Unit {0}) × Sink
  unfolding panicf
  log_panic err s = panicf (render err) s
