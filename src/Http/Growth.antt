-- ===== src/Http/Growth.antt =====
-- The two loops of http_conn.cpp that double a buffer's size, in `set_response_body` and in
-- `add_response`: they end, and what they reach.
use ai_inference_gateway.Prelude.{
  ℕ, zero, suc, ◌+◌, ◌*◌, ◌≤◌, ◌<◌, ◌≡◌, true, false, arith, ltb, Bool-cases, inl, inr, ◌⊎◌,
}

-- `while (new_size < needed) new_size *= 2;` with fuel. The `int` of the result is taken not to
-- overflow: a response is shorter than 1 GB.
unfoldable pub double_until : ℕ → ℕ → ℕ → ℕ
double_until zero needed new_size = new_size
double_until (suc fuel) needed new_size = elim (ltb new_size needed) [
  | true ↦ double_until fuel needed (new_size * 2)
  | false ↦ new_size
]

-- Fuel of `needed` is enough from any size but 0: the result is large enough, and doubling stopped
-- as soon as it was.
pub double_until_lem :
    (fuel needed new_size : ℕ)
    → 0 < new_size
    → needed ≤ new_size + fuel
    → (needed ≤ double_until fuel needed new_size)
      × (new_size ≤ double_until fuel needed new_size)
      × ((double_until fuel needed new_size ≡ new_size)
          ⊎ (double_until fuel needed new_size < 2 * needed))
unfolding double_until
double_until_lem zero needed new_size pos enough = ground arith
double_until_lem (suc fuel) needed new_size pos enough = elim (Bool-cases (ltb new_size needed)) [
  | inl more ↦ rw (more, double_until) (ground (arith, double_until_lem fuel needed (new_size * 2)))
  | inr done ↦ rw (done, double_until) (ground arith)
]
