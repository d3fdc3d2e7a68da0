-- ===== src/Engine/Onnx/Batching.antt =====
-- Batches of engine/onnx_engine.cpp against single inputs.
use ai_inference_gateway.Prelude.{
  ℕ, zero, suc, ◌+◌, ◌-◌, ◌≡◌, refl, sym, ap, ap₂, ◌∙◌, true, List, [], ◌∷◌, ◌++◌, map, some, leb,
  length, length-append, length-take, length-replicate, length-map, take, drop, replicate, arith,
}
use ai_inference_gateway.Prelude.Int.{ℤ}
use ai_inference_gateway.Common.{InferenceInput, InferenceResult}
use ai_inference_gateway.Engine.Onnx.{
  OnnxEngine, Answer, outputs, input_shape_of, unpack_batch_output, read_answer, pack_input,
  pack_batch_input, infer_batch,
}

abbrev pub join : {F : Type 0} → List (List F) → List F
join [] = []
join (row ∷ rows) = row ++ join rows

abbrev pub AllLength : {F : Type 0} → ℕ → List (List F) → Type 0
AllLength n [] = Unit {0}
AllLength n (row ∷ rows) = (length row ≡ n) × AllLength n rows

-- A session that works row by row: rows of the input's size, in the shape for as many of them, go to
-- the rows that `model` gives for each alone.
pub record IsRowwise {F : Type 0} (session : List F → List ℤ → Answer F) (e : OnnxEngine)
    (model : List F → List F) : Type 0 where
  pub row_by_row :
      (rows : List (List F))
      → AllLength e.model_info.input_size rows
      → session (join rows) (input_shape_of e (length rows))
        ≡ outputs (some (join (map model rows)))
  pub output_length : (row : List F) → length (model row) ≡ e.model_info.output_size

-- The row of an input, float by float: its data, then zeros to the model's size.
abbrev pub row_of : {F : Type 0} → F → ℕ → List F → List F
row_of z zero values = []
row_of z (suc n) [] = z ∷ row_of z n []
row_of z (suc n) (x ∷ values) = x ∷ row_of z n values

replicate_lem :
    {F : Type 0} (zero_float : F) (n : ℕ) → replicate n zero_float ≡ row_of zero_float n []
replicate_lem z zero = refl
replicate_lem z (suc n) = ap (λ l. z ∷ l) (replicate_lem z n)

pack_input_lem :
    {F : Type 0} (zero_float : F) (n : ℕ) (values : List F)
    → pack_input zero_float n values ≡ row_of zero_float n values
unfolding pack_input
pack_input_lem z n [] = ground (arith, replicate_lem z n)
pack_input_lem z zero (x ∷ values) = ground arith
pack_input_lem z (suc n) (x ∷ values) = ground (arith, pack_input_lem z n values)

length-pack_input :
    {F : Type 0} (zero_float : F) (per_input : ℕ) (values : List F)
    → length (pack_input zero_float per_input values) ≡ per_input
unfolding pack_input
length-pack_input z per_input values = ground (
  arith,
  length-take per_input values,
  length-append values (replicate (per_input - length values) z),
  length-replicate (per_input - length values) z,
)

-- The rows of a batch.
abbrev pub rows_of : {F : Type 0} → F → ℕ → List (InferenceInput F) → List (List F)
rows_of z per_input batch = map (λ i. pack_input z per_input i.values) batch

rows_of-AllLength :
    {F : Type 0} (zero_float : F) (per_input : ℕ) (batch : List (InferenceInput F))
    → AllLength per_input (rows_of zero_float per_input batch)
rows_of-AllLength z per_input [] = tt
rows_of-AllLength z per_input (i ∷ batch) =
    (length-pack_input z per_input i.values, rows_of-AllLength z per_input batch)

join-rows_of :
    {F : Type 0} (zero_float : F) (per_input : ℕ) (batch : List (InferenceInput F))
    → pack_batch_input zero_float per_input batch ≡ join (rows_of zero_float per_input batch)
unfolding pack_batch_input
join-rows_of z per_input [] = refl
join-rows_of z per_input (i ∷ batch) =
    ap (λ l. pack_input z per_input i.values ++ l) (join-rows_of z per_input batch)

-- The result that a row gives.
abbrev pub result_of : {F : Type 0} → OnnxEngine → List F → InferenceResult F
result_of e row = record {
  values = row;
  shape = e.model_info.output_shape;
  success = true;
  error_msg = [];
}

take-first : {F : Type 0} (xs ys : List F) → take (length xs) (xs ++ ys) ≡ xs
take-first [] ys = refl
take-first (x ∷ xs) ys = ap (λ l. x ∷ l) (take-first xs ys)

drop-first : {F : Type 0} (xs ys : List F) → drop (length xs) (xs ++ ys) ≡ ys
drop-first [] ys = refl
drop-first (x ∷ xs) ys = drop-first xs ys

unpack-join :
    {F : Type 0} (e : OnnxEngine) (rows : List (List F))
    → AllLength e.model_info.output_size rows
    → unpack_batch_output e (length rows) (join rows) ≡ some (map (result_of e) rows)
unfolding unpack_batch_output
unpack-join e [] v = refl
unpack-join e (row ∷ rows) v =
    let text = row ++ join rows in
    let enough : leb e.model_info.output_size (length text) ≡ true =
      ground (arith, v.0, length-append row (join rows)) in
    let first : take e.model_info.output_size text ≡ row =
      ap (λ n. take n text) (sym v.0) ∙ take-first row (join rows) in
    let others : drop e.model_info.output_size text ≡ join rows =
      ap (λ n. drop n text) (sym v.0) ∙ drop-first row (join rows) in
    rw (enough, others, unpack-join e rows v.1, first) refl

model-AllLength :
    {F : Type 0} (n : ℕ) (model : List F → List F) (rows : List (List F))
    → ((row : List F) → length (model row) ≡ n)
    → AllLength n (map model rows)
model-AllLength n model [] h = tt
model-AllLength n model (row ∷ rows) h = (h row, model-AllLength n model rows h)

-- What the engine should do for a batch: the model on each input's row alone.
abbrev pub one_by_one :
    {F : Type 0}
    → F
    → OnnxEngine
    → (List F → List F)
    → List (InferenceInput F)
    → List (InferenceResult F)
one_by_one z e model batch =
    map (λ i. result_of e (model (row_of z e.model_info.input_size i.values))) batch

map-rows_of :
    {F : Type 0} (zero_float : F) (e : OnnxEngine) (model : List F → List F)
    (batch : List (InferenceInput F))
    → map (result_of e) (map model (rows_of zero_float e.model_info.input_size batch))
      ≡ one_by_one zero_float e model batch
map-rows_of z e model [] = refl
map-rows_of z e model (i ∷ batch) =
    ap₂ (λ row l. result_of e (model row) ∷ l) (pack_input_lem z e.model_info.input_size i.values)
      (map-rows_of z e model batch)

read_rows :
    {F : Type 0} (zero_float : F) (session : List F → List ℤ → Answer F) (e : OnnxEngine)
    (model : List F → List F) (batch : List (InferenceInput F))
    → IsRowwise session e model
    → read_answer e batch (
        session
          (pack_batch_input zero_float e.model_info.input_size batch)
          (input_shape_of e (length batch)))
      ≡ some (one_by_one zero_float e model batch)
unfolding read_answer
read_rows z session e model batch v =
    let rows = rows_of z e.model_info.input_size batch in
    let counted : length rows ≡ length batch =
      length-map (λ i. pack_input z e.model_info.input_size i.values) batch in
    let counted_out : length (map model rows) ≡ length batch = length-map model rows ∙ counted in
    let ran : session (pack_batch_input z e.model_info.input_size batch)
          (input_shape_of e (length batch))
        ≡ outputs (some (join (map model rows))) =
      ap₂ (λ l n. session l (input_shape_of e n)) (join-rows_of z e.model_info.input_size batch)
        (sym counted)
      ∙ v.row_by_row rows (rows_of-AllLength z e.model_info.input_size batch) in
    ap (read_answer e batch) ran
    ∙ ap (λ n. unpack_batch_output e n (join (map model rows))) (sym counted_out)
    ∙ unpack-join e (map model rows)
        (model-AllLength e.model_info.output_size model rows v.output_length)
    ∙ ap some (map-rows_of z e model batch)

-- Batching does not show: for an engine that is initialised and a session that works row by row,
-- `infer_batch` gives for each input, in order, what the model gives for that input alone: for its
-- floats in their order, cut after the model's size or followed by zeros up to it. No read passes the
-- output's end.
pub infer_batch-one_by_one :
    {F : Type 0} (zero_float : F) (session : List F → List ℤ → Answer F) (e : OnnxEngine)
    (model : List F → List F) (batch : List (InferenceInput F))
    → e.initialized ≡ true
    → IsRowwise session e model
    → infer_batch zero_float session e batch ≡ some (one_by_one zero_float e model batch)
unfolding infer_batch
infer_batch-one_by_one z session e model [] ready v = rw ready refl
infer_batch-one_by_one z session e model (i ∷ batch) ready v =
    let n : length batch + 1 ≡ length (i ∷ batch) = omega arith in
    rw (ready, n) (read_rows z session e model (i ∷ batch) v)
