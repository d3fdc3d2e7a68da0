-- ===== src/BlockQueue.antt =====
-- log/block_queue.h: the circular array of the asynchronous log. The mutex makes each method one
-- step. `m_front` and `m_back` are -1 at first and never another negative number. An access out of
-- the array is `none` where it reads; `pop` is `none` where it blocks.
pub mod Fifo
pub mod Faults
mod Tests
use ai_inference_gateway.Prelude.{
  ℕ, suc, ◌+◌, ◌-◌, ◌*◌, ◌/◌, ◌%◌, Bool, true, false, List, Option, none, some, if◌then◌else◌, ltb,
  leb, ◌==◌, get_elem?, set, replicate,
}
use ai_inference_gateway.Prelude.Int.{ℤ, pos, negsuc}
use ai_inference_gateway.Lock.{Timespec}

pub record BlockQueue {ℓ} (T : Type ℓ) : Type ℓ where
  pub m_array : List T
  pub m_size : ℕ
  pub m_max_size : ℕ
  pub m_front : ℤ
  pub m_back : ℤ

-- An index after the next: `m_back + 1`, where -1 gives 0.
abbrev pub succ_index : ℤ → ℕ
succ_index (pos n) = n + 1
succ_index (negsuc n) = 0

-- `m_array[i]`
abbrev pub read {ℓ} : {T : Type ℓ} → List T → ℤ → Option T
read array (pos n) = get_elem? array n
read array (negsuc n) = none

module _ {ℓ} {T : Type ℓ} where
  -- The constructor; `none` is `exit(-1)`. `blank` is what `new T[max_size]` fills the array with.
  unfoldable pub create : T → ℕ → Option (BlockQueue T)
  create blank max_size =
      if max_size == 0
      then none
      else some (record {
        m_array = replicate max_size blank;
        m_size = 0;
        m_max_size = max_size;
        m_front = negsuc 0;
        m_back = negsuc 0;
      })

  unfoldable pub clear : BlockQueue T → BlockQueue T
  clear q = record q { m_size = 0; m_front = negsuc 0; m_back = negsuc 0 }

  unfoldable pub full : BlockQueue T → Bool
  full q = if leb q.m_max_size q.m_size then true else false

  unfoldable pub empty : BlockQueue T → Bool
  empty q = if q.m_size == 0 then true else false

  -- Whether the call returns true, and what it writes into `value`.
  unfoldable pub front : BlockQueue T → Bool × Option T
  front q = if q.m_size == 0 then (false, none) else (true, read q.m_array q.m_front)

  unfoldable pub back : BlockQueue T → Bool × Option T
  back q = if q.m_size == 0 then (false, none) else (true, read q.m_array q.m_back)

  unfoldable pub push : T → BlockQueue T → Bool × BlockQueue T
  push item q =
      if ltb q.m_max_size q.m_size
      then (false, q)
      else (let i = succ_index q.m_back % q.m_max_size in
          (
            true,
            record q { m_back = pos i; m_array = set q.m_array i item; m_size = q.m_size + 1 },
          ))

  -- The part of both `pop`s that takes the first element.
  unfoldable pub take_front : BlockQueue T → Option T × BlockQueue T
  take_front q =
      let i = succ_index q.m_front % q.m_max_size in
      (get_elem? q.m_array i, record q { m_front = pos i; m_size = q.m_size - 1 })

  unfoldable pub pop : BlockQueue T → Option (Option T × BlockQueue T)
  unfolding take_front
  pop q = if q.m_size == 0 then none else some (take_front q)

  -- `pop` with a time limit. While it waits other threads run: `woken` is what `timewait` returns,
  -- and `later` the queue when it does.
  unfoldable pub pop_timed : BlockQueue T → Bool → BlockQueue T → Bool × Option T × BlockQueue T
  unfolding take_front
  pop_timed q woken later =
      if q.m_size == 0
      then (if woken
          then (if later.m_size == 0
              then (false, none, later)
              else (let (item, q') = take_front later in (true, item, q')))
          else (false, none, later))
      else (let (item, q') = take_front q in (true, item, q'))

-- The time at which the timed `pop` gives up, from the seconds of `gettimeofday`.
unfoldable pub pop_deadline : ℕ → ℕ → Timespec
pop_deadline now_sec ms_timeout = record {
  tv_sec = now_sec + ms_timeout / 1000;
  tv_nsec = ms_timeout % 1000 * 1000;
}
