-- ===== src/BlockQueue/Fifo.antt =====
-- log/block_queue.h as a bounded queue: what it holds, and what `push` and `pop` do to that as long
-- as no push is made on a full queue.
use ai_inference_gateway.Prelude.{
  ℕ, zero, suc, ◌+◌, ◌-◌, ◌%◌, ◌≤◌, ◌<◌, ◌≡◌, ◌≢◌, refl, sym, ◌↔◌, ap, ap₂, ◌∙◌, true, List, [],
  ◌∷◌, ◌++◌, Option, none, some, get_elem?, set, length, length-set, arith, dec_lt,
}
use native.Mathlib.Nat.{mod-add-mod, mod-eq_of_lt, mod-eq-sub-mod, mod-lt, add-zero}
use ai_inference_gateway.BlockQueue.{BlockQueue, succ_index, push, pop, take_front}

module _ {ℓ} {T : Type ℓ} where
  -- The `n` slots from the one at `i` on, going round at `max`.
  abbrev pub slots : List T → ℕ → ℕ → ℕ → List (Option T)
  slots array max i zero = []
  slots array max i (suc n) = get_elem? array (i % max) ∷ slots array max (i + 1) n

  -- What the queue holds, oldest first; `none` would be a slot outside the array.
  abbrev pub contents : BlockQueue T → List (Option T)
  contents q = slots q.m_array q.m_max_size (succ_index q.m_front) q.m_size

-- The array has `m_max_size` slots, at most as many are used, and the next slot to be written lies
-- `m_size` after the next to be read.
pub record IsValid {ℓ} {T : Type ℓ} (q : BlockQueue T) : Type 0 where
  pub room : 0 < q.m_max_size
  pub storage : length q.m_array ≡ q.m_max_size
  pub within : q.m_size ≤ q.m_max_size
  pub aligned :
      succ_index q.m_back % q.m_max_size ≡ (succ_index q.m_front + q.m_size) % q.m_max_size

module _ {ℓ} {T : Type ℓ} where
  get_elem?-set_ne :
      (xs : List T) (i j : ℕ) (v : T) → i ≢ j → get_elem? (set xs i v) j ≡ get_elem? xs j
  get_elem?-set_ne [] i j v h = refl
  get_elem?-set_ne (x ∷ xs) zero zero v h = absurd (h refl)
  get_elem?-set_ne (x ∷ xs) zero (suc j) v h = refl
  get_elem?-set_ne (x ∷ xs) (suc i) zero v h = refl
  get_elem?-set_ne (x ∷ xs) (suc i) (suc j) v h = get_elem?-set_ne xs i j v (λ e. h (ap suc e))

  pub get_elem?-set_self :
      (xs : List T) (i : ℕ) (v : T) → i < length xs → get_elem? (set xs i v) i ≡ some v
  get_elem?-set_self [] i v h = absurd (omega arith)
  get_elem?-set_self (x ∷ xs) zero v h = refl
  get_elem?-set_self (x ∷ xs) (suc i) v h = get_elem?-set_self xs i v (omega arith)

-- Two positions less than a round apart are different slots.
apart : (max i k : ℕ) → 0 < k → k < max → (i + k) % max ≢ i % max
apart max i k h l = elim (dec_lt (i % max + k) max) [
  | yes inside ↦ λ e.
      absurd (omega (arith, mod-add-mod i max k, mod-eq_of_lt {n = i % max + k} {m = max} inside))
  | no round ↦ λ e. absurd (
      omega (
        arith,
        mod-add-mod i max k,
        mod-lt i {m = max} (omega arith),
        mod-eq-sub-mod {n = i % max + k} {m = max} (omega arith),
        mod-eq_of_lt {n = i % max + k - max} {m = max}
            (omega (arith, mod-lt i {m = max} (omega arith))),
      ))
]

module _ {ℓ} {T : Type ℓ} (max : ℕ) where
  -- A write behind the window does not show in it.
  slots-set :
      (array : List T) (i j n m : ℕ) (x : T)
      → n ≤ m
      → m < max
      → j ≡ (i + m) % max
      → slots (set array j x) max i n ≡ slots array max i n
  slots-set array i j zero m x h l e = refl
  slots-set array i j (suc n) m x h l e =
      ap₂ ◌∷◌
        (get_elem?-set_ne array j (i % max) x
          (λ same. apart max i m (omega arith) l (sym e ∙ same)))
        (slots-set array (i + 1) j n (m - 1) x (omega arith) (omega arith)
          (e ∙ ap (λ k. k % max) shift))
    where
      shift : i + m ≡ i + 1 + (m - 1)
      shift = omega arith

  slots-snoc :
      (array : List T) (i n : ℕ)
      → slots array max i (suc n) ≡ slots array max i n ++ get_elem? array ((i + n) % max) ∷ []
  slots-snoc array i zero = ap (λ k. get_elem? array (k % max) ∷ []) (sym (add-zero i))
  slots-snoc array i (suc n) = ap (◌∷◌ (get_elem? array (i % max))) (
      slots-snoc array (i + 1) n
      ∙ ap (λ k. slots array max (i + 1) n ++ get_elem? array (k % max) ∷ []) shift)
    where
      shift : i + 1 + n ≡ i + suc n
      shift = omega arith

  -- Positions that are equal round the array begin the same window.
  slots-round :
      (array : List T) (i j n : ℕ) → i % max ≡ j % max → slots array max i n ≡ slots array max j n
  slots-round array i j zero e = refl
  slots-round array i j (suc n) e =
      ap₂ ◌∷◌ (ap (get_elem? array) e) (slots-round array (i + 1) (j + 1) n next)
    where
      next : (i + 1) % max ≡ (j + 1) % max
      next = sym (mod-add-mod i max 1) ∙ ap (λ k. (k + 1) % max) e ∙ mod-add-mod j max 1

  -- A write just behind the window makes it longer by what is written.
  slots-push :
      (array : List T) (i j n : ℕ) (x : T)
      → length array ≡ max
      → n < max
      → j ≡ (i + n) % max
      → slots (set array j x) max i (n + 1) ≡ slots array max i n ++ some x ∷ []
  slots-push array i j n x size room e =
      ap (slots (set array j x) max i) one_more
      ∙ slots-snoc (set array j x) i n
      ∙ ap₂ (λ w s. w ++ s ∷ []) (slots-set array i j n n x (omega arith) room e)
          (ap (get_elem? (set array j x)) (sym e)
            ∙ get_elem?-set_self array j x (omega (arith, mod-lt (i + n) {m = max} (omega arith))))
    where
      one_more : n + 1 ≡ suc n
      one_more = omega arith

module _ {ℓ} {T : Type ℓ} where
  -- On a valid queue that is not full `push` succeeds, the new element is the last, and the queue stays
  -- valid.
  pub push_lem :
      (q : BlockQueue T) (item : T)
      → IsValid q
      → q.m_size < q.m_max_size
      → let (done, q') = push item q in
        (done ≡ true) × (contents q' ≡ contents q ++ some item ∷ []) × IsValid q'
  unfolding push
  push_lem q item v room =
      let j = succ_index q.m_back % q.m_max_size in
      ground (
        arith,
        slots-push q.m_max_size q.m_array (succ_index q.m_front) j q.m_size item v.storage room
            v.aligned,
        length-set q.m_array j item,
        mod-add-mod (succ_index q.m_front + q.m_size) q.m_max_size 1,
      )

  -- `pop` blocks exactly on an empty queue.
  pub pop_blocks : (q : BlockQueue T) → (pop q ≡ none) ↔ (q.m_size ≡ 0)
  unfolding pop
  pop_blocks q = ground arith

  window_of_pos :
      (array : List T) (max i n : ℕ)
      → 0 < n
      → slots array max i n ≡ get_elem? array (i % max) ∷ slots array max (i + 1) (n - 1)
  window_of_pos array max i zero h = absurd (omega arith)
  window_of_pos array max i (suc n) h =
      ap (λ k. get_elem? array (i % max) ∷ slots array max (i + 1) k) less
    where
      less : n ≡ suc n - 1
      less = omega arith

  -- `pop` on a valid queue that is not empty gives the oldest element, leaves the others in order, and the
  -- queue stays valid.
  pub pop_lem :
      (q : BlockQueue T)
      → IsValid q
      → 0 < q.m_size
      → let (item, q') = take_front q in
        (pop q ≡ some (item, q')) × (contents q ≡ item ∷ contents q') × IsValid q'
  unfolding pop
  pop_lem q v left =
      let f = succ_index q.m_front in
      let max = q.m_max_size in
      ground (
        arith,
        window_of_pos q.m_array max f q.m_size left,
        slots-round max q.m_array (f % max + 1) (f + 1) (q.m_size - 1) (mod-add-mod f max 1),
        mod-add-mod f max q.m_size,
      )
