-- ===== src/Engine/Manager.antt =====
-- engine/model_manager.h. An engine is its address, which may be null, and the map of names is kept
-- as the library's ordered map does: by increasing name, each name once. Each method holds the lock
-- from its first access of the map to its last, so a call is one step.
pub mod Table
mod Tests
use ai_inference_gateway.Prelude.{
  same, ℕ, zero, suc, Bool, true, false, ◌&&◌, ◌||◌, List, [], ◌∷◌, map, Option, none, some, Bytes,
  length, if◌then◌else◌, ltb, ◌==◌, update,
}

-- The order of names.
abbrev pub less : Bytes → Bytes → Bool
less s [] = false
less [] (y ∷ t) = true
less (x ∷ s) (y ∷ t) = if ltb x y then true else (x == y) && less s t

-- `models_`
abbrev pub Models : Type 0
Models = List (Bytes × Option ℕ)

-- `models_[name] = engine`
unfoldable pub register_model : Bytes → Option ℕ → Models → Models
register_model name engine [] = (name, engine) ∷ []
register_model name engine ((n, e) ∷ models) =
    let rest = register_model name engine models in
    if same name n
    then (name, engine) ∷ models
    else if less name n
    then (name, engine) ∷ (n, e) ∷ models
    else (n, e) ∷ rest

-- `models_.erase(name)`
unfoldable pub unregister_model : Bytes → Models → Models
unregister_model name [] = []
unregister_model name ((n, e) ∷ models) =
    let rest = unregister_model name models in if same name n then models else (n, e) ∷ rest

-- `models_.find(name)`
unfoldable pub find : Bytes → Models → Option (Option ℕ)
find name [] = none
find name ((n, e) ∷ models) = let rest = find name models in if same name n then some e else rest

unfoldable pub get_engine : Bytes → Models → Option ℕ
unfolding find
get_engine name models = elim (find name models) [ none ↦ none | some e ↦ e ]

unfoldable pub has_model : Bytes → Models → Bool
unfolding find
has_model name models = elim (find name models) [ none ↦ false | some e ↦ true ]

unfoldable pub list_models : Models → List Bytes
list_models models = map (λ m. m.0) models

unfoldable pub model_count : Models → ℕ
model_count models = length models

-- Calls `shutdown` of every engine that is not null; `up` tells which engines have not been shut down.
unfoldable pub shutdown_all : Models → (ℕ → Bool) → ℕ → Bool
shutdown_all [] up = up
shutdown_all ((n, none) ∷ models) up = shutdown_all models up
shutdown_all ((n, some e) ∷ models) up = shutdown_all models (update up e false)
