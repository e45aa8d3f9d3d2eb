-- ===== src/Forward/Streaming/Tests.antt =====
-- A translated stream.
use mur_model_gateway.Common.{
  ℕ, ◌==◌, ◌≡◌, List, [], ◌∷◌, Option, none, some, String, if◌then◌else◌,
}
use mur_model_gateway.Common.Text.{push_str, str_eq}
use mur_model_gateway.Json.{Value, object, str}
use mur_model_gateway.Translate.Frames.{split_sse_frames}
use mur_model_gateway.Translate.Frames.Chunks.{concat}
use mur_model_gateway.Translate.Stream.{translate}
use mur_model_gateway.Forward.Streaming.{Pull, chunk, fault, rendered, streamed}
use mur_model_gateway.Forward.Streaming.Whole.{streamed-translate}

abbrev from_str : String → Option Value
from_str s = if str_eq s "D" then some (object (("delta", str "hi") ∷ [])) else none

abbrev to_string : Value → String
to_string v = "V"

abbrev pulls : List Pull
pulls = chunk (0 ∷ []) ∷ chunk (1 ∷ []) ∷ chunk (2 ∷ []) ∷ fault ∷ []

-- A decoder of these chunks.
abbrev lossy : List ℕ → String
lossy [] = ""
lossy (n ∷ bytes) =
    if n == 0
    then "event: response.output_text.delta\nda"
    else if n == 1
    then "ta: D\n"
    else "\r\nevent: x"

streamed-translate_example :
    concat (streamed lossy from_str to_string "m" pulls)
    ≡ push_str
        (rendered to_string (
          translate "m"
            (split_sse_frames from_str
              "event: response.output_text.delta\ndata: D\n\r\nevent: x").0))
        "data: [DONE]\n\n"
unfolding push_str
streamed-translate_example = streamed-translate lossy from_str to_string "m" pulls
