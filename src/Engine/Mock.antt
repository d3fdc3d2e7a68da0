-- ===== src/Engine/Mock.antt =====
-- engine/mock_engine.h and mock_engine.cpp. The float 0.0f and the product by 2.0f are parameters;
-- the sleep of `infer_batch` is left out. A size is an `int64_t` of a shape as it is.
mod Tests
use ai_inference_gateway.Prelude.{
  ℕ, zero, suc, ◌+◌, ◌≤◌, ◌<◌, ◌≡◌, refl, sym, ap, ◌∙◌, Bool, true, false, List, [], ◌∷◌, map,
  Option, none, some, codes, Bytes, if◌then◌else◌, ltb, get_or, get_elem?, length, length-map,
  arith,
}
use ai_inference_gateway.Prelude.Int.{ℤ, pos}
use ai_inference_gateway.Common.{
  InferenceInput, InferenceResult, ModelInfo, InferenceEngine, IsEngine,
}

pub record MockEngine : Type 0 where
  pub simulated_latency_ms : ℤ
  pub model_info : ModelInfo
  pub initialized : Bool

unfoldable pub new_mock_engine : MockEngine
new_mock_engine = record {
  simulated_latency_ms = pos 50;
  model_info = record {
    name = codes "mock";
    input_shape = pos 1 ∷ pos 10 ∷ [];
    output_shape = pos 1 ∷ pos 5 ∷ [];
    input_size = 10;
    output_size = 5;
  };
  initialized = false;
}

unfoldable pub set_latency_ms : ℤ → MockEngine → MockEngine
set_latency_ms ms e = record e { simulated_latency_ms = ms }

unfoldable pub set_io_size : ℕ → ℕ → MockEngine → MockEngine
set_io_size input_size output_size e = record e {
  model_info = record (e.model_info) {
    input_size = input_size;
    output_size = output_size;
    input_shape = pos 1 ∷ pos input_size ∷ [];
    output_shape = pos 1 ∷ pos output_size ∷ [];
  };
}

unfoldable pub init : Bytes → MockEngine → Bool × MockEngine
init model_path e = (true, record e { initialized = true })

unfoldable pub shutdown : MockEngine → MockEngine
shutdown e = record e { initialized = false }

module _ {F : Type 0} (zero_float : F) (twice : F → F) where
  -- The inner loop, from the index `j` on.
  unfoldable pub doubled_from : ℕ → ℕ → List F → List F
  doubled_from zero j values = []
  doubled_from (suc left) j values =
      twice (if ltb j (length values) then get_or values j zero_float else zero_float)
      ∷ doubled_from left (j + 1) values

  unfoldable pub infer_one : MockEngine → InferenceInput F → InferenceResult F
  unfolding doubled_from
  infer_one e input = record {
    values = doubled_from e.model_info.output_size 0 input.values;
    shape = e.model_info.output_shape;
    success = true;
    error_msg = [];
  }

  unfoldable pub infer_batch : MockEngine → List (InferenceInput F) → List (InferenceResult F)
  unfolding infer_one
  infer_batch e batch = map (infer_one e) batch

  -- `IInferenceEngine`, as the scheduler sees a `MockEngine`.
  unfoldable pub to_engine : MockEngine → InferenceEngine F
  unfolding infer_batch
  to_engine e = record { infer_batch = infer_batch e; get_model_info = e.model_info }

  -- The mock engine keeps the interface's promise: one result for each input.
  pub to_engine-IsEngine : (e : MockEngine) → IsEngine (to_engine e)
  unfolding to_engine infer_batch
  to_engine-IsEngine e = record { one_each = λ batch. length-map (infer_one e) batch }

-- What is past the end of a list is the default.
get_or-past : {A : Type 0} (xs : List A) (i : ℕ) (d : A) → length xs ≤ i → get_or xs i d ≡ d
get_or-past [] i d h = refl
get_or-past (x ∷ xs) zero d h = absurd (omega arith)
get_or-past (x ∷ xs) (suc i) d h = get_or-past xs i d (omega arith)

doubled_at :
    {F : Type 0} (zero_float : F) (twice : F → F) (left j k : ℕ) (values : List F)
    → k < left
    → get_or (doubled_from zero_float twice left j values) k zero_float
      ≡ twice (get_or values (j + k) zero_float)
unfolding doubled_from
doubled_at z f zero j k values h = absurd (omega arith)
doubled_at z f (suc left) j zero values h = ground (arith, get_or-past values j z)
doubled_at z f (suc left) j (suc k) values h =
    doubled_at z f left (j + 1) k values (omega arith)
    ∙ ap (λ i. f (get_or values i z)) (omega arith)

length-doubled :
    {F : Type 0} (zero_float : F) (twice : F → F) (left j : ℕ) (values : List F)
    → length (doubled_from zero_float twice left j values) ≡ left
unfolding doubled_from
length-doubled z f zero j values = refl
length-doubled z f (suc left) j values = ap suc (length-doubled z f left (j + 1) values)

get_elem?-map :
    {A B : Type 0} (f : A → B) (xs : List A) (i : ℕ) (x : A)
    → get_elem? xs i ≡ some x
    → get_elem? (map f xs) i ≡ some (f x)
get_elem?-map f [] i x e = cc
get_elem?-map f (y ∷ xs) zero x e = cc
get_elem?-map f (y ∷ xs) (suc i) x e = get_elem?-map f xs i x e

-- The result at a place of the batch is for the input at that place: it succeeds, has the announced
-- number of values, and each of them is twice the input's value, or twice 0 past the input's end.
pub infer_batch_lem :
    {F : Type 0} (zero_float : F) (twice : F → F) (e : MockEngine) (batch : List (InferenceInput F))
    (i : ℕ) (input : InferenceInput F)
    → get_elem? batch i ≡ some input
    → (r : InferenceResult F) × (get_elem? (infer_batch zero_float twice e batch) i ≡ some r)
      × (r.success ≡ true)
      × (length r.values ≡ e.model_info.output_size)
      × ((k : ℕ)
          → k < e.model_info.output_size
          → get_or r.values k zero_float ≡ twice (get_or input.values k zero_float))
unfolding infer_batch infer_one
infer_batch_lem z f e batch i input h = (
  infer_one z f e input,
  get_elem?-map (infer_one z f e) batch i input h,
  refl,
  length-doubled z f e.model_info.output_size 0 input.values,
  λ k below.
      doubled_at z f e.model_info.output_size 0 k input.values below
      ∙ ap (λ i. f (get_or input.values i z)) (omega arith),
)

-- The shapes say what the sizes do.
pub record IsShaped (e : MockEngine) : Type 0 where
  pub input : e.model_info.input_shape ≡ pos 1 ∷ pos e.model_info.input_size ∷ []
  pub output : e.model_info.output_shape ≡ pos 1 ∷ pos e.model_info.output_size ∷ []

pub data Call : Type 0 where
  sets_latency : ℤ → Call
  sets_io_size : ℕ → ℕ → Call
  inits : Bytes → Call
  shuts_down : Call

unfoldable pub call : Call → MockEngine → MockEngine
unfolding set_latency_ms set_io_size init shutdown
call (sets_latency ms) e = set_latency_ms ms e
call (sets_io_size i o) e = set_io_size i o e
call (inits path) e = (init path e).1
call shuts_down e = shutdown e

unfoldable pub calls : List Call → MockEngine → MockEngine
unfolding call
calls [] e = e
calls (c ∷ cs) e = calls cs (call c e)

call-IsShaped : (c : Call) (e : MockEngine) → IsShaped e → IsShaped (call c e)
unfolding call
call-IsShaped (sets_latency ms) e v = record { input = v.input; output = v.output }
call-IsShaped (sets_io_size i o) e v = record { input = refl; output = refl }
call-IsShaped (inits path) e v = record { input = v.input; output = v.output }
call-IsShaped shuts_down e v = record { input = v.input; output = v.output }

calls-IsShaped : (cs : List Call) (e : MockEngine) → IsShaped e → IsShaped (calls cs e)
unfolding calls
calls-IsShaped [] e v = v
calls-IsShaped (c ∷ cs) e v = calls-IsShaped cs (call c e) (call-IsShaped c e v)

-- After any calls on a new mock engine, the shape that a result announces is one row of as many
-- columns as the result has values.
pub infer_one-shape :
    {F : Type 0} (zero_float : F) (twice : F → F) (cs : List Call) (input : InferenceInput F)
    → let r = infer_one zero_float twice (calls cs new_mock_engine) input in
      r.shape ≡ pos 1 ∷ pos (length r.values) ∷ []
unfolding infer_one new_mock_engine
infer_one-shape z f cs input =
    let e = calls cs new_mock_engine in
    (calls-IsShaped cs new_mock_engine (record { input = refl; output = refl })).output
    ∙ ap (λ n. pos 1 ∷ pos n ∷ [])
        (sym (length-doubled z f e.model_info.output_size 0 input.values))
