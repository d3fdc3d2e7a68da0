-- ===== src/Engine/Manager/Tests.antt =====
-- The table of models at concrete names.
use ai_inference_gateway.Prelude.{◌≡◌, refl, [], ◌∷◌, none, some, Bytes, codes}
use ai_inference_gateway.Engine.Manager.{find}
use ai_inference_gateway.Engine.Manager.Table.{
  IsOrdered, registers, unregisters, calls, table, calls_lem,
}

calls_lem_example :
    let cs =
      registers (codes "b") (some 1) ∷ registers (codes "a") none ∷ unregisters (codes "b") ∷ [] in
    IsOrdered (calls cs []) × ((name : Bytes) → find name (calls cs []) ≡ table cs (λ n. none) name)
unfolding find
calls_lem_example =
    calls_lem
      (registers (codes "b") (some 1) ∷ registers (codes "a") none ∷ unregisters (codes "b") ∷ [])
      [] (λ n. none) tt (λ name. refl)
