-- ===== src/Engine/Manager/Table.antt =====
-- engine/model_manager.h as a table from names to engines.
use ai_inference_gateway.Prelude.{
  same, ℕ, ◌≡◌, inl, inr, refl, ap, ap₂, ◌∙◌, Bool, true, false, List, [], ◌∷◌, Option, none, some,
  Bytes, if◌then◌else◌, arith, Bool-cases,
}
use ai_inference_gateway.Engine.Manager.{
  less, Models, register_model, unregister_model, find, get_engine, shutdown_all,
}

same_refl : (s : Bytes) → same s s ≡ true
same_refl [] = refl
same_refl (x ∷ s) = ground (arith, same_refl s)

same→≡ : (s t : Bytes) → same s t ≡ true → s ≡ t
same→≡ [] [] h = refl
same→≡ [] (y ∷ t) h = cc
same→≡ (x ∷ s) [] h = cc
same→≡ (x ∷ s) (y ∷ t) h = ap₂ (λ a l. a ∷ l) (ground arith) (same→≡ s t (ground arith))

less_trans : (s t u : Bytes) → less s t ≡ true → less t u ≡ true → less s u ≡ true
less_trans s t [] h k = cc
less_trans s [] (z ∷ u) h k = cc
less_trans [] (y ∷ t) (z ∷ u) h k = refl
less_trans (x ∷ s) (y ∷ t) (z ∷ u) h k = ground (arith, less_trans s t u)

less_or : (s t : Bytes) → same s t ≡ false → less s t ≡ false → less t s ≡ true
less_or [] [] h k = cc
less_or [] (y ∷ t) h k = cc
less_or (x ∷ s) [] h k = refl
less_or (x ∷ s) (y ∷ t) h k = ground (arith, less_or s t)

-- Every name is above the bound.
abbrev pub Above : Bytes → Models → Type 0
Above b [] = Unit {0}
Above b ((n, e) ∷ models) = less b n ≡ true

-- The names strictly increase, so none stands twice.
abbrev pub IsOrdered : Models → Type 0
IsOrdered [] = Unit {0}
IsOrdered ((n, e) ∷ models) = Above n models × IsOrdered models

register-Above :
    (b name : Bytes) (engine : Option ℕ) (models : Models)
    → less b name ≡ true
    → Above b models
    → Above b (register_model name engine models)
unfolding register_model
register-Above b name engine [] h k = h
register-Above b name engine ((n, e) ∷ models) h k = ground arith

pub register-IsOrdered :
    (name : Bytes) (engine : Option ℕ) (models : Models)
    → IsOrdered models
    → IsOrdered (register_model name engine models)
unfolding register_model
register-IsOrdered name engine [] v = (tt, tt)
register-IsOrdered name engine ((n, e) ∷ models) v = elim (Bool-cases (same name n)) [
  | inl is_same ↦ rw (is_same, same→≡ name n is_same) v
  | inr other ↦ elim (Bool-cases (less name n)) [
    | inl before ↦ rw (other, before) (before, v)
    | inr after ↦
        rw (other, after)
          (
            register-Above n name engine models (less_or name n other after) v.0,
            register-IsOrdered name engine models v.1,
          )
  ]
]

same_apart : (name other n : Bytes) → same other name ≡ true → same other n ≡ same name n
same_apart name other n h = ap (λ s. same s n) (same→≡ other name h)

find_registered :
    (name other : Bytes) (engine : Option ℕ) (models : Models)
    → find other (register_model name engine models)
      ≡ (if same other name then some engine else find other models)
unfolding register_model find
find_registered name other engine [] = refl
find_registered name other engine ((n, e) ∷ models) = elim (Bool-cases (same name n)) [
  | inl is_same ↦ rw (is_same, same→≡ name n is_same) (ground arith)
  | inr different ↦ elim (Bool-cases (less name n)) [
    | inl before ↦ rw (different, before) refl
    | inr after ↦
        rw (different, after)
          (ground
            (arith, find_registered name other engine models, same_apart name other n, different))
  ]
]

less_irreflexive : (s : Bytes) → less s s ≡ false
less_irreflexive [] = refl
less_irreflexive (x ∷ s) = ground (arith, less_irreflexive s)

Above-trans : (a b : Bytes) (models : Models) → less a b ≡ true → Above b models → Above a models
Above-trans a b [] h k = tt
Above-trans a b ((n, e) ∷ models) h k = less_trans a b n h k

-- A name below all of the table's is not in it.
find-Above :
    (b : Bytes) (models : Models) → IsOrdered models → Above b models → find b models ≡ none
unfolding find
find-Above b [] v k = refl
find-Above b ((n, e) ∷ models) v k = elim (Bool-cases (same b n)) [
  | inl is_same ↦ absurd (ground (arith, k, ap (less b) (same→≡ b n is_same), less_irreflexive b))
  | inr different ↦ rw different (find-Above b models v.1 (Above-trans b n models k v.0))
]

unregister-Above :
    (b name : Bytes) (models : Models)
    → IsOrdered models
    → Above b models
    → Above b (unregister_model name models)
unfolding unregister_model
unregister-Above b name [] v k = tt
unregister-Above b name ((n, e) ∷ models) v k = elim (Bool-cases (same name n)) [
  | inl is_same ↦ rw is_same (Above-trans b n models k v.0)
  | inr different ↦ rw different k
]

unregister-IsOrdered :
    (name : Bytes) (models : Models) → IsOrdered models → IsOrdered (unregister_model name models)
unfolding unregister_model
unregister-IsOrdered name [] v = tt
unregister-IsOrdered name ((n, e) ∷ models) v = elim (Bool-cases (same name n)) [
  | inl is_same ↦ rw is_same v.1
  | inr different ↦
      rw different (unregister-Above n name models v.1 v.0, unregister-IsOrdered name models v.1)
]

found_below :
    (n other : Bytes) (e : Option ℕ) (models : Models)
    → IsOrdered ((n, e) ∷ models)
    → same other n ≡ true
    → find other models ≡ none
found_below n other e models v h = rw (same→≡ other n h) (find-Above n models v.1 v.0)

find_unregistered :
    (name other : Bytes) (models : Models)
    → IsOrdered models
    → find other (unregister_model name models)
      ≡ (if same other name then none else find other models)
unfolding unregister_model find
find_unregistered name other [] v = ground arith
find_unregistered name other ((n, e) ∷ models) v = elim (Bool-cases (same name n)) [
  | inl is_same ↦
      rw (is_same, same→≡ name n is_same) (ground (arith, found_below n other e models v))
  | inr different ↦
      rw different (
        ground (arith, find_unregistered name other models v.1, same_apart name other n, different))
]

pub data Call : Type 0 where
  registers : Bytes → Option ℕ → Call
  unregisters : Bytes → Call

unfoldable pub call : Call → Models → Models
unfolding register_model unregister_model
call (registers name engine) models = register_model name engine models
call (unregisters name) models = unregister_model name models

unfoldable pub calls : List Call → Models → Models
unfolding call
calls [] models = models
calls (c ∷ cs) models = calls cs (call c models)

-- The table as a function of names, without an order.
abbrev pub table : List Call → (Bytes → Option (Option ℕ)) → Bytes → Option (Option ℕ)
table [] t = t
table (registers name engine ∷ cs) t =
    table cs (λ other. if same other name then some engine else t other)
table (unregisters name ∷ cs) t = table cs (λ other. if same other name then none else t other)

-- After any calls on an ordered table its names are still ordered, each once, and every look-up
-- gives what the table as a function of names gives: the engine that was registered last under that
-- name, unless it has been unregistered since.
pub calls_lem :
    (cs : List Call) (models : Models) (t : Bytes → Option (Option ℕ))
    → IsOrdered models
    → ((name : Bytes) → find name models ≡ t name)
    → IsOrdered (calls cs models) × ((name : Bytes) → find name (calls cs models) ≡ table cs t name)
unfolding calls call
calls_lem [] models t v h = (v, h)
calls_lem (registers name engine ∷ cs) models t v h =
    calls_lem cs _ _ (register-IsOrdered name engine models v) (λ other.
      find_registered name other engine models
      ∙ ap (λ o. if same other name then some engine else o) (h other))
calls_lem (unregisters name ∷ cs) models t v h =
    calls_lem cs _ _ (unregister-IsOrdered name models v) (λ other.
      find_unregistered name other models v
      ∙ ap (λ o. if same other name then none else o) (h other))

-- An engine that is down stays down.
shutdown_down :
    (models : Models) (up : ℕ → Bool) (p : ℕ) → up p ≡ false → shutdown_all models up p ≡ false
unfolding shutdown_all
shutdown_down [] up p h = h
shutdown_down ((n, none) ∷ models) up p h = shutdown_down models up p h
shutdown_down ((n, some e) ∷ models) up p h = shutdown_down models _ p (ground (arith, h))

shutdown_found :
    (models : Models) (up : ℕ → Bool) (name : Bytes) (p : ℕ)
    → find name models ≡ some (some p)
    → shutdown_all models up p ≡ false
unfolding shutdown_all find
shutdown_found [] up name p h = cc
shutdown_found ((n, none) ∷ models) up name p h =
    shutdown_found models up name p (ground (arith, h))
shutdown_found ((n, some e) ∷ models) up name p h = elim (Bool-cases (same name n)) [
  | inl is_same ↦ shutdown_down models _ p (ground (arith, h, is_same))
  | inr different ↦ shutdown_found models _ name p (ground (arith, h, different))
]

-- `shutdown_all` shuts down each engine that a look-up gives.
pub shutdown_all_lem :
    (models : Models) (up : ℕ → Bool) (name : Bytes) (p : ℕ)
    → get_engine name models ≡ some p
    → shutdown_all models up p ≡ false
unfolding get_engine
shutdown_all_lem models up name p h = shutdown_found models up name p (ground (arith, h))
