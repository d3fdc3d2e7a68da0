-- ===== src/Engine/Onnx/Tests.antt =====
-- A session that adds one to each number, for a model with one number in and one out.
use ai_inference_gateway.Prelude.{
  codes, ◌*◌, ℕ, suc, ◌≡◌, refl, ap, true, false, List, [], ◌∷◌, map, some, get_or, arith,
}
use ai_inference_gateway.Prelude.Int.{ℤ, pos, negsuc}
use ai_inference_gateway.Common.{InferenceInput}
use ai_inference_gateway.Engine.Onnx.{
  new_onnx_engine, Session, fix_first, init, input_shape_of, OnnxEngine, Answer, outputs,
  infer_batch,
}
use ai_inference_gateway.Engine.Onnx.Metadata.{volume, init_lem}
use ai_inference_gateway.Engine.Onnx.Batching.{
  join, AllLength, IsRowwise, one_by_one, infer_batch-one_by_one,
}

abbrev adder : OnnxEngine
adder = record {
  model_info = record {
    name = [];
    input_shape = pos 1 ∷ [];
    output_shape = pos 1 ∷ [];
    input_size = 1;
    output_size = 1;
  };
  has_batch_dim = false;
  initialized = true;
}

abbrev add_one : List ℕ → List ℕ
add_one row = suc (get_or row 0 0) ∷ []

abbrev session : List ℕ → List ℤ → Answer ℕ
session values shape = outputs (some (map suc values))

session-join :
    (rows : List (List ℕ)) → AllLength 1 rows → map suc (join rows) ≡ join (map add_one rows)
session-join [] v = refl
session-join ([] ∷ rows) v = absurd (omega arith)
session-join ((x ∷ []) ∷ rows) v = ap (λ l. suc x ∷ l) (session-join rows v.1)
session-join ((x ∷ y ∷ row) ∷ rows) v = absurd (omega arith)

session-IsRowwise : IsRowwise session adder add_one
session-IsRowwise = record {
  row_by_row = λ rows v. ap (λ l. outputs (some l)) (session-join rows v);
  output_length = λ row. refl;
}

abbrev inputs : List (InferenceInput ℕ)
inputs =
    record { model_name = []; values = 4 ∷ 5 ∷ []; shape = [] }
    ∷ record { model_name = []; values = []; shape = [] }
    ∷ []

infer_batch-one_by_one_example :
    infer_batch 0 session adder inputs ≡ some (one_by_one 0 adder add_one inputs)
infer_batch-one_by_one_example =
    infer_batch-one_by_one 0 session adder add_one inputs refl session-IsRowwise

-- A session for images of a batch that is left open, three colours and 224 points each way.
abbrev images : Session
images = record {
  input_count = 1;
  output_count = 1;
  input_name = some (codes "data");
  output_name = some (codes "prob");
  input_shape = negsuc 0 ∷ pos 3 ∷ pos 224 ∷ pos 224 ∷ [];
  output_shape = negsuc 0 ∷ pos 1000 ∷ [];
}

init_lem_example :
    let (done, e') = init (some images) (codes "m.onnx") new_onnx_engine in
    (done ≡ true)
    × (e'.initialized ≡ true)
    × (volume (input_shape_of e' 8) ≡ 8 * e'.model_info.input_size)
unfolding fix_first new_onnx_engine
init_lem_example =
    init_lem 8 images (codes "m.onnx") (codes "data") (codes "prob") new_onnx_engine (omega arith)
      (omega arith) refl refl tt (omega arith) refl

init-sizes :
    let info = ((init (some images) (codes "m.onnx") new_onnx_engine).1).model_info in
    (info.input_size ≡ 150528) × (info.output_size ≡ 1000)
unfolding init new_onnx_engine
init-sizes = (refl, refl)
