-- ===== src/Engine/Onnx/Metadata.antt =====
-- The sizes and shapes that onnx_engine.cpp takes from a model, against the batches that it packs.
use ai_inference_gateway.Prelude.{
  ℕ, zero, suc, ◌*◌, ◌^◌, ◌≤◌, ◌<◌, ◌≡◌, refl, sym, ap, ◌∙◌, subst, Bool, true, false, List, [],
  ◌∷◌, some, if◌then◌else◌, ◌==◌, ◌||◌, ltb, Bytes, set, arith, Bool-cases, inl, inr,
}
use ai_inference_gateway.Prelude.Int.{ℤ, pos, negsuc}
use native.Mathlib.Nat.{mul_assoc, mul-one, mul-le-mul, mul-le-mul_left, mod-eq_of_lt}
use ai_inference_gateway.Engine.Onnx.{
  OnnxEngine, Session, fix_first, is_open_first, is_single, size_of, with_input, with_output,
  extract_model_metadata, init, input_shape_of,
}

-- The number of floats of a tensor whose dimensions are all positive.
abbrev pub volume : List ℤ → ℕ
volume [] = 1
volume (pos n ∷ dims) = n * volume dims
volume (negsuc n ∷ dims) = 0

abbrev pub ArePositive : List ℤ → Type 0
ArePositive [] = Unit {0}
ArePositive (pos zero ∷ dims) = ⊥
ArePositive (pos (suc n) ∷ dims) = ArePositive dims
ArePositive (negsuc n ∷ dims) = ⊥

-- The first dimension may be left open.
abbrev pub IsShape : List ℤ → Type 0
IsShape [] = Unit {0}
IsShape (pos zero ∷ dims) = ⊥
IsShape (pos (suc n) ∷ dims) = ArePositive dims
IsShape (negsuc n ∷ dims) = ArePositive dims

volume-pos : (dims : List ℤ) → ArePositive dims → 0 < volume dims
volume-pos [] p = omega arith
volume-pos (pos zero ∷ dims) p = absurd p
volume-pos (pos (suc n) ∷ dims) p =
    mul-le-mul {n₁ = 1} {m₁ = 1} {n₂ = suc n} {m₂ = volume dims} (omega arith) (volume-pos dims p)
volume-pos (negsuc n ∷ dims) p = absurd p

size_of_lem :
    (size : ℕ) (dims : List ℤ)
    → ArePositive dims
    → size * volume dims < 2 ^ 64
    → size_of size dims ≡ size * volume dims
unfolding size_of
size_of_lem size [] p h = sym (mul-one size)
size_of_lem size (pos zero ∷ dims) p h = absurd p
size_of_lem size (pos (suc n) ∷ dims) p h =
    let assoc = mul_assoc size (suc n) (volume dims) in
    let bound : size * suc n * volume dims < 2 ^ 64 = subst (λ k. k < 2 ^ 64) (sym assoc) h in
    let below : size * suc n * 1 ≤ size * suc n * volume dims =
      mul-le-mul_left (size * suc n) (volume-pos dims p) in
    let small : size * suc n < 2 ^ 64 = omega (arith, below, bound, mul-one (size * suc n)) in
    ap (λ k. size_of k dims) (mod-eq_of_lt small) ∙ size_of_lem (size * suc n) dims p bound ∙ assoc
size_of_lem size (negsuc n ∷ dims) p h = absurd p

fix_first-positive : (shape : List ℤ) → IsShape shape → ArePositive (fix_first shape)
unfolding fix_first
fix_first-positive [] s = tt
fix_first-positive (pos zero ∷ dims) s = absurd s
fix_first-positive (pos (suc n) ∷ dims) s = s
fix_first-positive (negsuc n ∷ dims) s = s

size_of-volume :
    (shape : List ℤ)
    → IsShape shape
    → volume (fix_first shape) < 2 ^ 64
    → size_of 1 (fix_first shape) ≡ volume (fix_first shape)
size_of-volume shape s h =
    let once = one_times (volume (fix_first shape)) in
    size_of_lem 1 (fix_first shape) (fix_first-positive shape s)
      (subst (λ k. k < 2 ^ 64) (sym once) h)
    ∙ once
  where
    one_times : (k : ℕ) → 1 * k ≡ k
    one_times k = omega arith

-- The shape of a batch, where the model's is `fixed`.
batch_shape : Bool → List ℤ → ℕ → List ℤ
batch_shape with_dim fixed n = if with_dim then set fixed 0 (pos n) else pos n ∷ fixed

has_dim : List ℤ → Bool
has_dim shape = is_open_first shape || is_single (fix_first shape)

volume-batch :
    (n : ℕ) (shape : List ℤ)
    → IsShape shape
    → volume (batch_shape (has_dim shape) (fix_first shape) n) ≡ n * volume (fix_first shape)
unfolding batch_shape has_dim fix_first is_open_first is_single
volume-batch n [] s = refl
volume-batch n (negsuc k ∷ dims) s = ap (λ v. n * v) (sym (one_times (volume dims)))
  where
    one_times : (k : ℕ) → 1 * k ≡ k
    one_times k = omega arith
volume-batch n (pos zero ∷ dims) s = absurd s
volume-batch n (pos (suc k) ∷ []) s = refl
volume-batch n (pos (suc k) ∷ d ∷ dims) s = elim (Bool-cases (suc k == 1)) [
  | inl one ↦ rw one (ap (λ v. n * v) (single k (volume (d ∷ dims)) one))
  | inr many ↦ rw many refl
]
  where
    single : (k v : ℕ) → (suc k == 1) ≡ true → v ≡ suc k * v
    single k v e =
        let zero_k : k ≡ 0 = ground (arith, e) in
        subst (λ j. v ≡ suc j * v) (sym zero_k) (omega arith)

input_shape_of_eq :
    (n : ℕ) (shape : List ℤ) (e : OnnxEngine)
    → e.has_batch_dim ≡ false
    → input_shape_of (with_input shape e) n ≡ batch_shape (has_dim shape) (fix_first shape) n
unfolding input_shape_of with_input batch_shape has_dim
input_shape_of_eq n shape e h =
    ap
      (λ b.
        batch_shape ((b || is_open_first shape) || is_single (fix_first shape)) (fix_first shape) n)
      h

-- An engine that has no batch dimension yet, as a new one or one shut down, and whose session has inputs
-- and outputs with names and an input shape with positive dimensions, but for the first, and fewer than
-- 2 ^ 64 floats, is initialised by `init`; and whatever the batch's size, the shape that `infer_batch`
-- passes to the session has room for exactly the floats that are packed, `input_size` for each input.
pub init_lem :
    (n : ℕ) (m : Session) (model_path input output : Bytes) (e : OnnxEngine)
    → 0 < m.input_count
    → 0 < m.output_count
    → m.input_name ≡ some input
    → m.output_name ≡ some output
    → IsShape m.input_shape
    → volume (fix_first m.input_shape) < 2 ^ 64
    → e.has_batch_dim ≡ false
    → let (done, e') = init (some m) model_path e in
      (done ≡ true)
      × (e'.initialized ≡ true)
      × (volume (input_shape_of e' n) ≡ n * e'.model_info.input_size)
unfolding init extract_model_metadata input_shape_of with_input with_output
init_lem n m model_path input output e p q i o s h b =
    let some_input : ltb m.input_count 1 ≡ false = ground (arith, p) in
    let some_output : ltb m.output_count 1 ≡ false = ground (arith, q) in
    rw (some_input, some_output, i, o)
      (
        refl,
        refl,
        ap volume (input_shape_of_eq n m.input_shape e b)
            ∙ volume-batch n m.input_shape s
            ∙ ap (λ v. n * v) (sym (size_of-volume m.input_shape s h)),
      )
