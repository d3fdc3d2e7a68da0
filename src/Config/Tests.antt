-- ===== src/Config/Tests.antt =====
-- Options at concrete arguments.
use ai_inference_gateway.Prelude.{◌≡◌, refl, [], ◌∷◌, codes}
use ai_inference_gateway.Prelude.Int.{pos}
use ai_inference_gateway.Http.CString.{atol, parse_signed, parse_digits, is_digit, is_space, span}
use ai_inference_gateway.Config.{new_config, parse_arg}
use ai_inference_gateway.Config.Options.{chosen, parse_arg_lem}

parse_arg_lem_example :
    parse_arg ((b'b', codes "20") ∷ (b'E', codes "onnx") ∷ (b'b', codes "5") ∷ []) new_config
    ≡ chosen ((b'b', codes "20") ∷ (b'E', codes "onnx") ∷ (b'b', codes "5") ∷ []) new_config
parse_arg_lem_example =
    parse_arg_lem ((b'b', codes "20") ∷ (b'E', codes "onnx") ∷ (b'b', codes "5") ∷ []) new_config

-- The last window counts.
window_chosen :
    (chosen
      ((b'b', codes "20") ∷ (b'E', codes "onnx") ∷ (b'b', codes "5") ∷ [])
      new_config).batch_window_ms
    ≡ pos 5
unfolding atol parse_signed parse_digits is_digit is_space span
window_chosen = refl
