-- ===== src/Context.antt =====
-- What the code reads of a `context.Context`: its error, once it is done, and the span in it.
use go_api_demo.Prelude.{String, Bool, Option}
use go_api_demo.Error.{Error}

-- `recording` is `span.IsRecording()`; the ids are those of its span context.
pub record Span : Type 0 where
  pub recording : Bool
  pub trace_id : String
  pub span_id : String

pub record Context : Type 0 where
  pub err : Option Error
  pub span : Option Span
