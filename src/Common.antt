-- ===== src/Common.antt =====
-- common/types.h and engine/engine_interface.h: the data that pass between the layers, and the
-- interface of an inference engine. A float is a value of a type that the model takes as a
-- parameter, since the gateway moves floats and hands their arithmetic to the engine.
use ai_inference_gateway.Prelude.{ℕ, ◌≡◌, Bool, List, length, Bytes}
use ai_inference_gateway.Prelude.Int.{ℤ}

-- `data` is the source's name of the field `values`.
pub record InferenceInput (F : Type 0) : Type 0 where
  pub model_name : Bytes
  pub values : List F
  pub shape : List ℤ

pub record InferenceResult (F : Type 0) : Type 0 where
  pub values : List F
  pub shape : List ℤ
  pub success : Bool
  pub error_msg : Bytes

pub record ModelInfo : Type 0 where
  pub name : Bytes
  pub input_shape : List ℤ
  pub output_shape : List ℤ
  pub input_size : ℕ
  pub output_size : ℕ

-- What the scheduler calls of an engine that has been initialised.
pub record InferenceEngine (F : Type 0) : Type 0 where
  pub infer_batch : List (InferenceInput F) → List (InferenceResult F)
  pub get_model_info : ModelInfo

-- What `infer_batch` promises of its results' number; what they hold is each engine's own.
pub record IsEngine {F : Type 0} (e : InferenceEngine F) : Type 0 where
  pub one_each : (batch : List (InferenceInput F)) → length (e.infer_batch batch) ≡ length batch
