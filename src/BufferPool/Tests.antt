-- ===== src/BufferPool/Tests.antt =====
-- The buffer pool with numbers for floats: two buffers of three floats.
use ai_inference_gateway.Prelude.{ℕ, ◌≡◌, refl, [], ◌∷◌, none, some, arith}
use ai_inference_gateway.BufferPool.{new_buffer_pool, acquire, release, preallocate, push_buffer}
use ai_inference_gateway.BufferPool.Ownership.{
  World, acquires, releases, run, step, without, IsOwned, run-IsOwned,
}

abbrev start : World ℕ
start = record {
  pool = record { buffer_size = 3; pool_size = 2; free_queue = 7 ∷ 8 ∷ [] };
  memory = λ p. p ∷ [];
  held = 9 ∷ [];
  freed = [];
}

start_is_new : new_buffer_pool 3 (some 7 ∷ some 8 ∷ []) ≡ start.pool
unfolding new_buffer_pool preallocate push_buffer
start_is_new = refl

start-IsOwned : IsOwned start
start-IsOwned = record { once = λ p. ground arith; bounded = omega arith }

-- The pool runs dry and is filled again; the last buffer that comes back is freed.
run-IsOwned_example : IsOwned (
    run 0 start (
      acquires none
      ∷ acquires none
      ∷ acquires (some 5)
      ∷ releases 9
      ∷ releases 7
      ∷ releases 5
      ∷ []))
unfolding run step acquire release without
run-IsOwned_example =
    run-IsOwned 0 start
      (acquires none
        ∷ acquires none
        ∷ acquires (some 5)
        ∷ releases 9
        ∷ releases 7
        ∷ releases 5
        ∷ [])
      start-IsOwned (omega arith)
