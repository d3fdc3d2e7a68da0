-- ===== src/BufferPool/Ownership.antt =====
-- The buffers of memory/buffer_pool.cpp have one owner: the pool, or one caller of `acquire`.
use ai_inference_gateway.Prelude.{
  List-cases, ℕ, ◌+◌, ◌≤◌, ◌<◌, ◌≡◌, ◌≢◌, ◌⊎◌, inl, inr, refl, ap, List, [], ◌∷◌, Option, none,
  some, length, length-append, count, count-append, arith, update, ◌==◌, if◌then◌else◌, replicate,
}
use ai_inference_gateway.BufferPool.{BufferPool, acquire, release}

-- The pool, what its buffers hold, who holds which buffer, and which have been freed.
pub record World (F : Type 0) : Type 0 where
  pub pool : BufferPool
  pub memory : ℕ → List F
  pub held : List ℕ
  pub freed : List ℕ

-- How often a buffer is known to the pool or to a caller.
abbrev pub owners : {F : Type 0} → ℕ → World F → ℕ
owners p w = count p w.pool.free_queue + count p w.held

-- `without p l` drops the first `p` of the list.
unfoldable pub without : ℕ → List ℕ → List ℕ
without p [] = []
without p (q ∷ l) = if p == q then l else q ∷ without p l

count-without :
    (p q : ℕ) (l : List ℕ)
    → 0 < count p l
    → count q (without p l) + (if q == p then 1 else 0) ≡ count q l
unfolding without
count-without p q [] h = ground arith
count-without p q (x ∷ l) h = ground (arith, count-without p q l)

pub data Event : Type 0 where
  acquires : Option ℕ → Event
  releases : ℕ → Event

abbrev hold : Option ℕ → List ℕ → List ℕ
hold none held = held
hold (some p) held = p ∷ held

-- A caller releases a buffer that it holds; `calloc` answers a buffer that nobody owns.
module _ {F : Type 0} (zero_float : F) where
  unfoldable pub step : World F → Event → World F
  unfolding acquire release
  step w (acquires answer) =
      let (got, pool, memory) = acquire zero_float answer w.pool w.memory in
      record w { pool = pool; memory = memory; held = hold got w.held }
  step w (releases p) =
      let (to_free, pool) = release (some p) w.pool in
      record w { pool = pool; held = without p w.held; freed = hold to_free w.freed }

  abbrev pub IsAllowed : World F → Event → Type 0
  IsAllowed w (acquires none) = Unit {0}
  IsAllowed w (acquires (some p)) = owners p w ≡ 0
  IsAllowed w (releases p) = 0 < count p w.held

  unfoldable pub run : World F → List Event → World F
  run w [] = w
  run w (e ∷ es) = run (step w e) es

  abbrev pub AllAllowed : World F → List Event → Type 0
  AllAllowed w [] = Unit {0}
  AllAllowed w (e ∷ es) = IsAllowed w e × AllAllowed (step w e) es

-- A buffer has at most one owner, and the pool keeps no more buffers than its size.
pub record IsOwned {F : Type 0} (w : World F) : Type 0 where
  pub once : (p : ℕ) → owners p w ≤ 1
  pub bounded : length w.pool.free_queue ≤ w.pool.pool_size

-- A result of `acquire`: none, from an empty pool and a `calloc` that answers none; or a buffer of
-- zeros that nobody holds and the pool has no more, with the other buffers as they were.
abbrev pub Acquired :
    {F : Type 0} → F → Option ℕ → World F → Option ℕ × BufferPool × (ℕ → List F) → Type 0
Acquired zero_float answer w (got, pool', memory') =
    ((got ≡ none) × (w.pool.free_queue ≡ []) × (answer ≡ none) × (memory' ≡ w.memory))
    ⊎ ((p : ℕ) × (got ≡ some p)
        × (count p w.held ≡ 0)
        × (count p pool'.free_queue ≡ 0)
        × (memory' p ≡ replicate w.pool.buffer_size zero_float)
        × ((q : ℕ) → q ≢ p → memory' q ≡ w.memory q))

acquire_free :
    {F : Type 0} (zero_float : F) (answer : Option ℕ) (w : World F) (p : ℕ) (rest : List ℕ)
    → IsOwned w
    → w.pool.free_queue ≡ p ∷ rest
    → Acquired zero_float answer w (acquire zero_float answer w.pool w.memory)
unfolding acquire
acquire_free z answer w p rest v q =
    let c = ap (count p) q in
    rw (q, acquire)
      (inr (
        p,
        refl,
        ground (arith, c, v.once p),
        ground (arith, c, v.once p),
        ground arith,
        λ r ne. ground (arith, ne),
      ))

-- Where each buffer has at most one owner and `calloc` answers a buffer that nobody owns, or none,
-- what `acquire` gives to a caller is a buffer of zeros, as long as the pool's buffers are, that no
-- caller held and that the pool has no more; the other buffers keep what they hold. It gives none
-- only where the pool is empty and `calloc` answers none.
pub acquire_lem :
    {F : Type 0} (zero_float : F) (answer : Option ℕ) (w : World F)
    → IsOwned w
    → IsAllowed zero_float w (acquires answer)
    → Acquired zero_float answer w (acquire zero_float answer w.pool w.memory)
unfolding acquire
acquire_lem z none w v h = elim (List-cases w.pool.free_queue) [
  | inl empty ↦ rw (empty, acquire) (inl (refl, refl, refl, refl))
  | inr (p, rest, q) ↦ acquire_free z none w p rest v q
]
acquire_lem z (some p) w v h = elim (List-cases w.pool.free_queue) [
  | inl empty ↦
      rw (empty, acquire)
        (inr (p, refl, omega arith, omega arith, ground arith, λ r ne. ground (arith, ne)))
  | inr (p', rest, q) ↦ acquire_free z (some p) w p' rest v q
]

-- The first buffer of the pool passes to a caller.
take_free :
    {F : Type 0} (zero_float : F) (w : World F) (p : ℕ) (rest : List ℕ)
    → IsOwned w
    → w.pool.free_queue ≡ p ∷ rest
    → IsOwned (record w {
      pool = record (w.pool) { free_queue = rest };
      memory = update w.memory p (replicate w.pool.buffer_size zero_float);
      held = p ∷ w.held;
    })
take_free z w p rest v q = record {
  once = λ r. ground (arith, v.once r, ap (count r) q);
  bounded = omega (arith, v.bounded, ap length q);
}

step-IsOwned :
    {F : Type 0} (zero_float : F) (w : World F) (e : Event)
    → IsOwned w
    → IsAllowed zero_float w e
    → IsOwned (step zero_float w e)
unfolding step
step-IsOwned z w (acquires none) v h = elim (List-cases w.pool.free_queue) [
  | inl empty ↦ rw (empty, acquire) (record { once = v.once; bounded = v.bounded })
  | inr (p, rest, q) ↦ rw (q, acquire) (take_free z w p rest v q)
]
step-IsOwned z w (acquires (some a)) v h = elim (List-cases w.pool.free_queue) [
  | inl empty ↦
      rw (empty, acquire) (record { once = λ q. ground (arith, h, v.once q); bounded = v.bounded })
  | inr (p, rest, q) ↦ rw (q, acquire) (take_free z w p rest v q)
]
step-IsOwned z w (releases p) v h = record {
  once = λ q.
      ground
        (arith, count-without p q w.held h, v.once q, count-append q w.pool.free_queue (p ∷ []));
  bounded = ground (arith, v.bounded, length-append w.pool.free_queue (p ∷ []));
}

-- From a state in which each buffer has at most one owner, where callers release only what they hold
-- and `calloc` answers only what nobody owns, no order of acquiring and releasing makes two callers share a buffer, or a caller and the pool, and
-- the pool never grows past its size.
pub run-IsOwned :
    {F : Type 0} (zero_float : F) (w : World F) (es : List Event)
    → IsOwned w
    → AllAllowed zero_float w es
    → IsOwned (run zero_float w es)
unfolding run
run-IsOwned z w [] v h = v
run-IsOwned z w (e ∷ es) v h = run-IsOwned z (step z w e) es (step-IsOwned z w e v h.0) h.1
