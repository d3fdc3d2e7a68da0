-- ===== src/Engine/Mock/Tests.antt =====
-- The mock engine with numbers for floats.
use ai_inference_gateway.Prelude.{ℕ, ◌*◌, [], ◌∷◌}
use ai_inference_gateway.Common.{InferenceInput}

abbrev twice : ℕ → ℕ
twice x = x * 2

abbrev one_input : InferenceInput ℕ
one_input = record { model_name = []; values = 4 ∷ 5 ∷ []; shape = [] }
