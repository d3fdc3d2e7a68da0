-- ===== src/Engine/Onnx.antt =====
-- engine/onnx_engine.h and onnx_engine.cpp, in a build with ONNX Runtime: `infer_batch` and what it
-- packs and unpacks. The session is a parameter: what `Run` does with the floats and the shape of its
-- input. A result is `none` where the code reads past the output's end. What a session
-- that ONNX Runtime loads says of its model is an argument of `init`.
pub mod Batching
pub mod Metadata
mod Tests
use ai_inference_gateway.Prelude.{
  ℕ, zero, suc, ◌+◌, ◌-◌, ◌*◌, ◌%◌, ◌^◌, ltb, ◌==◌, ◌||◌, Bool, true, false, List, [], ◌∷◌, ◌++◌,
  map, Option, none, some, codes, Bytes, if◌then◌else◌, leb, length, take, drop, replicate, set,
}
use ai_inference_gateway.Prelude.Int.{ℤ, pos, negsuc}
use ai_inference_gateway.Common.{InferenceInput, InferenceResult, ModelInfo}

pub record OnnxEngine : Type 0 where
  pub model_info : ModelInfo
  pub has_batch_dim : Bool
  pub initialized : Bool

-- What `session_->Run` comes to: an exception's text, or its first output, if it is a tensor.
pub data Answer (F : Type 0) : Type 0 where
  raises : Bytes → Answer F
  outputs : Option (List F) → Answer F

unfoldable pub shutdown : OnnxEngine → OnnxEngine
shutdown e = record e { initialized = false; has_batch_dim = false }

-- The constructor.
unfoldable pub new_onnx_engine : OnnxEngine
new_onnx_engine = record {
  model_info = record {
    name = codes "onnx";
    input_shape = [];
    output_shape = [];
    input_size = 0;
    output_size = 0;
  };
  has_batch_dim = false;
  initialized = false;
}

-- What a loaded session says of its model's first input and output.
pub record Session : Type 0 where
  pub input_count : ℕ
  pub output_count : ℕ
  pub input_name : Option Bytes
  pub output_name : Option Bytes
  pub input_shape : List ℤ
  pub output_shape : List ℤ

-- A shape whose first dimension is 1 if the model leaves it open, and whether it does.
unfoldable pub fix_first : List ℤ → List ℤ
fix_first [] = []
fix_first (pos n ∷ dims) = pos n ∷ dims
fix_first (negsuc n ∷ dims) = pos 1 ∷ dims

unfoldable pub is_open_first : List ℤ → Bool
is_open_first [] = false
is_open_first (pos n ∷ dims) = false
is_open_first (negsuc n ∷ dims) = true

-- `input_shape.size() > 1 && input_shape[0] == 1`
unfoldable pub is_single : List ℤ → Bool
is_single [] = false
is_single (d ∷ []) = false
is_single (negsuc n ∷ d ∷ dims) = false
is_single (pos n ∷ d ∷ dims) = n == 1

-- The loops that multiply the positive dimensions, as `size_t`.
unfoldable pub size_of : ℕ → List ℤ → ℕ
size_of size [] = size
size_of size (negsuc n ∷ dims) = size_of size dims
size_of size (pos zero ∷ dims) = size_of size dims
size_of size (pos (suc n) ∷ dims) = size_of (size * suc n % 2 ^ 64) dims

-- The parts of `extract_model_metadata` about the input and the output.
unfoldable pub with_input : List ℤ → OnnxEngine → OnnxEngine
unfolding fix_first is_open_first is_single size_of
with_input shape e =
    let fixed = fix_first shape in
    record e {
      model_info = record e.model_info { input_shape = fixed; input_size = size_of 1 fixed };
      has_batch_dim = e.has_batch_dim || is_open_first shape || is_single fixed;
    }

unfoldable pub with_output : List ℤ → OnnxEngine → OnnxEngine
unfolding fix_first size_of
with_output shape e =
    let fixed = fix_first shape in
    record e {
      model_info = record e.model_info { output_shape = fixed; output_size = size_of 1 fixed };
    }

unfoldable pub extract_model_metadata : Session → OnnxEngine → Bool × OnnxEngine
unfolding with_input with_output
extract_model_metadata m e =
    if ltb m.input_count 1
    then (false, e)
    else if ltb m.output_count 1
    then (false, e)
    else elim m.input_name [
      | none ↦ (false, e)
      | some name ↦ elim m.output_name [
        | none ↦ (false, with_input m.input_shape e)
        | some name' ↦ (true, with_output m.output_shape (with_input m.input_shape e))
      ]
    ]

-- `init`; `none` is an exception of ONNX Runtime.
unfoldable pub init : Option Session → Bytes → OnnxEngine → Bool × OnnxEngine
unfolding extract_model_metadata shutdown
init none model_path e =
    (false, shutdown (record e { model_info = record e.model_info { name = codes "onnx_error" } }))
init (some m) model_path e =
    let (done, e') = extract_model_metadata m e in
    if done
    then (
      true,
      record e' { model_info = record e'.model_info { name = model_path }; initialized = true },
    )
    else (false, shutdown e')

-- The shape of the packed input.
unfoldable pub input_shape_of : OnnxEngine → ℕ → List ℤ
input_shape_of e batch_size =
    if e.has_batch_dim
    then set e.model_info.input_shape 0 (pos batch_size)
    else pos batch_size ∷ e.model_info.input_shape

module _ {F : Type 0} where
  -- The loops that answer a whole batch with an error.
  unfoldable pub errors : Bytes → List (InferenceInput F) → List (InferenceResult F)
  errors msg batch =
      map (λ i. record { values = []; shape = []; success = false; error_msg = msg }) batch

  unfoldable pub unpack_batch_output : OnnxEngine → ℕ → List F → Option (List (InferenceResult F))
  unpack_batch_output e zero batch_output = some []
  unpack_batch_output e (suc left) batch_output =
      let per_output = e.model_info.output_size in
      let r : InferenceResult F = record {
        values = take per_output batch_output;
        shape = e.model_info.output_shape;
        success = true;
        error_msg = [];
      } in
      let rest = unpack_batch_output e left (drop per_output batch_output) in
      if leb per_output (length batch_output)
      then elim rest [ none ↦ none | some results ↦ some (r ∷ results) ]
      else none

  -- From the result of `Run` on.
  unfoldable pub read_answer :
      OnnxEngine → List (InferenceInput F) → Answer F → Option (List (InferenceResult F))
  unfolding errors unpack_batch_output
  read_answer e batch (raises what) = some (errors (codes "onnxruntime error: " ++ what) batch)
  read_answer e batch (outputs none) = some (errors (codes "empty or invalid output tensor") batch)
  read_answer e batch (outputs (some output_data)) =
      unpack_batch_output e (length batch) output_data

module _ {F : Type 0} (zero_float : F) where
  -- One input, cut or filled up with zeros.
  unfoldable pub pack_input : ℕ → List F → List F
  pack_input per_input values =
      if leb per_input (length values)
      then take per_input values
      else values ++ replicate (per_input - length values) zero_float

  unfoldable pub pack_batch_input : ℕ → List (InferenceInput F) → List F
  unfolding pack_input
  pack_batch_input per_input [] = []
  pack_batch_input per_input (i ∷ batch) =
      pack_input per_input i.values ++ pack_batch_input per_input batch

  unfoldable pub infer_batch :
      (List F → List ℤ → Answer F)
      → OnnxEngine
      → List (InferenceInput F)
      → Option (List (InferenceResult F))
  unfolding errors read_answer pack_batch_input input_shape_of
  infer_batch session e [] =
      some (if e.initialized then [] else errors (codes "engine not initialized") [])
  infer_batch session e (i ∷ batch) =
      if e.initialized
      then read_answer e (i ∷ batch) (
          session (pack_batch_input e.model_info.input_size (i ∷ batch))
            (input_shape_of e (length batch + 1)))
      else some (errors (codes "engine not initialized") (i ∷ batch))
