-- ===== src/Time/JsonText.antt =====
-- A time as a JSON value. The texts themselves are a parameter.
use go_api_demo.Prelude.{String, Option, none, some, ◌⊎◌}
use go_api_demo.Error.{Error, made}
use go_api_demo.Json.{Json, null, str}
use go_api_demo.Time.{Time}

-- time.Time's MarshalJSON, and its UnmarshalJSON of a text.
pub record TimeText : Type 0 where
  pub to_text : Time → String ⊎ Error
  pub of_text : String → Time × Option Error

-- UnmarshalJSON of a value
unfoldable pub decode_time : TimeText → Json → Time → Time × Option Error
decode_time times null t = (t, none)
decode_time times (str s) t = times.of_text s
decode_time times _ t = (t, some (made "Time.UnmarshalJSON: input is not a JSON string"))
