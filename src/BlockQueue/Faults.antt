-- ===== src/BlockQueue/Faults.antt =====
-- Where log/block_queue.h does not do what its comments say: `push` on a full queue, `front`, and
-- the deadline of the timed `pop`.
use ai_inference_gateway.Prelude.{
  ℕ, zero, suc, ◌+◌, ◌%◌, ◌≤◌, ◌<◌, ◌≡◌, true, [], none, some, length-replicate, arith,
}
use native.Mathlib.Nat.{add-mod_right, mod-lt}
use ai_inference_gateway.Lock.{Timespec, nanoseconds}
use ai_inference_gateway.BlockQueue.{
  BlockQueue, succ_index, create, push, take_front, front, pop_deadline,
}
use ai_inference_gateway.BlockQueue.Fifo.{IsValid, contents, get_elem?-set_self}

module _ {ℓ} {T : Type ℓ} where
  -- What the constructor and `clear` leave is valid and empty.
  pub create-IsValid :
      (blank : T) (max_size : ℕ) {q : BlockQueue T}
      → create blank max_size ≡ some q
      → IsValid q × (contents q ≡ [])
  unfolding create
  create-IsValid blank zero e = absurd (ground arith)
  create-IsValid blank (suc n) e = ground (arith, length-replicate (suc n) blank)

  -- `push` on a valid queue that is full says that it succeeded and counts one element more than there are slots;
  -- the new element has taken the slot of the oldest, so that the next `pop` gives the newest.
  pub push_full :
      (q : BlockQueue T) (item : T)
      → IsValid q
      → q.m_size ≡ q.m_max_size
      → let (done, q') = push item q in
        (done ≡ true) × (q'.m_size ≡ q.m_max_size + 1) × ((take_front q').0 ≡ some item)
  unfolding push take_front
  push_full q item v is_full =
      let j = succ_index q.m_back % q.m_max_size in
      ground (
        arith,
        add-mod_right (succ_index q.m_front) q.m_max_size,
        get_elem?-set_self q.m_array j item,
        mod-lt (succ_index q.m_back) {m = q.m_max_size} v.room,
      )

  -- After a `pop` from a queue of two or more elements, `front` gives what that `pop` took away, not the oldest element of the queue.
  pub front_stale :
      (q : BlockQueue T) → 1 < q.m_size → let (item, q') = take_front q in front q' ≡ (true, item)
  unfolding front take_front
  front_stale q h = ground arith

  -- Before the first `pop`, `front` reads the array at -1.
  pub front_outside :
      (blank item : T) (max_size : ℕ) {q : BlockQueue T}
      → create blank max_size ≡ some q
      → front (push item q).1 ≡ (true, none)
  unfolding create push front
  front_outside blank item zero e = absurd (ground arith)
  front_outside blank item (suc n) e = ground arith

-- The timed `pop` counts its milliseconds as microseconds, from the last full second: a limit of less
-- than a second has passed already unless the second is less than a thousandth old.
pub pop_deadline_past :
    (now : Timespec) (ms_timeout : ℕ)
    → ms_timeout < 1000
    → 1000000 ≤ now.tv_nsec
    → nanoseconds (pop_deadline now.tv_sec ms_timeout) < nanoseconds now
unfolding pop_deadline
pop_deadline_past now ms_timeout short late = omega arith
