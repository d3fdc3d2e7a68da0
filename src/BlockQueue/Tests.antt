-- ===== src/BlockQueue/Tests.antt =====
-- The log's queue at concrete inputs: three slots, in use round the end of the array.
use ai_inference_gateway.Prelude.{ℕ, ◌≡◌, refl, true, [], ◌∷◌, some, arith}
use ai_inference_gateway.Prelude.Int.{pos}
use ai_inference_gateway.BlockQueue.{BlockQueue, push, pop, take_front}
use ai_inference_gateway.BlockQueue.Fifo.{IsValid, contents, push_lem, pop_lem}
use ai_inference_gateway.BlockQueue.Faults.{push_full}

abbrev wrapped : BlockQueue ℕ
wrapped = record {
  m_array = 9 ∷ 7 ∷ 8 ∷ [];
  m_size = 2;
  m_max_size = 3;
  m_front = pos 1;
  m_back = pos 0;
}

abbrev crowded : BlockQueue ℕ
crowded = record wrapped { m_size = 3; m_back = pos 1 }

wrapped-IsValid : IsValid wrapped
wrapped-IsValid = omega arith

push_lem_example :
    let (done, q') = push 4 wrapped in
    (done ≡ true) × (contents q' ≡ some 8 ∷ some 9 ∷ some 4 ∷ []) × IsValid q'
push_lem_example = push_lem wrapped 4 wrapped-IsValid (omega arith)

pop_lem_example :
    let (item, q') = take_front wrapped in
    (pop wrapped ≡ some (item, q')) × (some 8 ∷ some 9 ∷ [] ≡ item ∷ contents q') × IsValid q'
pop_lem_example = pop_lem wrapped wrapped-IsValid (omega arith)

push_full_example :
    let (done, q') = push 4 crowded in
    (done ≡ true) × (q'.m_size ≡ 4) × ((take_front q').0 ≡ some 4)
push_full_example = push_full crowded 4 (omega arith) refl
