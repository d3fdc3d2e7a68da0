-- ===== src/BufferPool.antt =====
-- memory/buffer_pool.h and buffer_pool.cpp. A buffer is its address, and the floats that it holds
-- stand in a store. What `calloc` answers is an argument of the function that calls it, and what it
-- relies on of `calloc` a hypothesis: a buffer that it answers is zeroed by it.
pub mod Ownership
mod Tests
use ai_inference_gateway.Prelude.{
  ℕ, zero, suc, ◌+◌, ◌-◌, Bool, true, false, List, [], ◌∷◌, ◌++◌, Option, none, some, if◌then◌else◌,
  leb, ltb, update, length, replicate,
}

pub record BufferPool : Type 0 where
  pub buffer_size : ℕ
  pub pool_size : ℕ
  pub free_queue : List ℕ

-- `if (buf) { free_queue_.push(buf); }`
unfoldable pub push_buffer : Option ℕ → BufferPool → BufferPool
push_buffer none pool = pool
push_buffer (some buf) pool = record pool { free_queue = pool.free_queue ++ buf ∷ [] }

-- The loop of the constructor, over what `calloc` answers.
unfoldable pub preallocate : List (Option ℕ) → BufferPool → BufferPool
unfolding push_buffer
preallocate [] pool = pool
preallocate (answer ∷ answers) pool = preallocate answers (push_buffer answer pool)

-- The constructor calls `calloc` `pool_size` times.
unfoldable pub new_buffer_pool : ℕ → List (Option ℕ) → BufferPool
unfolding preallocate
new_buffer_pool buffer_size answers =
    preallocate answers
      (record { buffer_size = buffer_size; pool_size = length answers; free_queue = [] })

unfoldable pub free_count : BufferPool → ℕ
free_count pool = length pool.free_queue

-- The result tells which buffer `free` gets.
unfoldable pub release : Option ℕ → BufferPool → Option ℕ × BufferPool
release none pool = (none, pool)
release (some buf) pool =
    if leb pool.pool_size (length pool.free_queue)
    then (some buf, pool)
    else (none, record pool { free_queue = pool.free_queue ++ buf ∷ [] })

module _ {F : Type 0} (zero_float : F) where
  -- `calloc`, with its answer.
  abbrev pub calloc : Option ℕ → ℕ → (ℕ → List F) → ℕ → List F
  calloc none size memory = memory
  calloc (some buf) size memory = update memory buf (replicate size zero_float)

  unfoldable pub acquire :
      Option ℕ → BufferPool → (ℕ → List F) → Option ℕ × BufferPool × (ℕ → List F)
  acquire answer pool memory = elim (pool.free_queue) [
    | [] ↦ (answer, pool, calloc answer pool.buffer_size memory)
    | buf ∷ rest ↦ (
      some buf,
      record pool { free_queue = rest },
      update memory buf (replicate pool.buffer_size zero_float),
    )
  ]
