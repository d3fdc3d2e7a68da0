-- ===== src/WebServer/Shuffle.antt =====
-- What lst_timer.cpp makes of a list of timers holds the same timers, in another order.
use ai_inference_gateway.Prelude.{
  ℕ, ◌≡◌, refl, true, false, List, [], ◌∷◌, ◌++◌, ltb, leb, Bool-cases, inl, inr, arith,
}
use ai_inference_gateway.Timer.Chain.{Timer}
use ai_inference_gateway.Timer.Place.{insert, insert-before, insert-after}
use ai_inference_gateway.Timer.Adjust.{adjusted, insert_behind}
use ai_inference_gateway.Timer.Order.{select, is_due, is_later}
use mathlib.Core.List.{Permᴰ}
use mathlib.Core.List.Permᴰ as Perm

pub insert-Perm : (t : Timer) (ts : List Timer) → Permᴰ (t ∷ ts) (insert t ts)
insert-Perm t [] = Perm.refl (t ∷ [])
insert-Perm t (y ∷ ys) = elim (Bool-cases (ltb t.expire y.expire)) [
  | inl e ↦ rw (insert-before t y ys e) (Perm.refl (t ∷ y ∷ ys))
  | inr e ↦
      rw (insert-after t y ys e)
        (Permᴰ.trans (Permᴰ.swap refl refl) (Permᴰ.cons refl (insert-Perm t ys)))
]

pub middle-Perm :
    (xs : List Timer) (t : Timer) (ys : List Timer) → Permᴰ (xs ++ t ∷ ys) (t ∷ xs ++ ys)
middle-Perm xs t ys = Perm.middle t xs ys

behind-Perm : (t : Timer) (ts : List Timer) → Permᴰ (t ∷ ts) (insert_behind t ts)
behind-Perm t [] = Perm.refl (t ∷ [])
behind-Perm t (x ∷ xs) = Permᴰ.trans (Permᴰ.swap refl refl) (Permᴰ.cons refl (insert-Perm t xs))

pub adjusted-Perm :
    (xs : List Timer) (t : Timer) (ys : List Timer) → Permᴰ (xs ++ t ∷ ys) (adjusted xs t ys)
adjusted-Perm xs t [] = Perm.refl (xs ++ t ∷ [])
adjusted-Perm xs t (y ∷ ys) = elim (Bool-cases (ltb t.expire y.expire)) [
  | inl e ↦ rw e (Perm.refl (xs ++ t ∷ y ∷ ys))
  | inr e ↦ rw e (Permᴰ.trans (middle-Perm xs t (y ∷ ys)) (behind-Perm t (xs ++ y ∷ ys)))
]

pub select-Perm :
    (cur : ℕ) (ts : List Timer) → Permᴰ ts (select (is_due cur) ts ++ select (is_later cur) ts)
select-Perm cur [] = Permᴰ.nil
select-Perm cur (t ∷ ts) = elim (Bool-cases (ltb cur t.expire)) [
  | inl e ↦
      let not_due : leb t.expire cur ≡ false = ground (arith, e) in
      rw (e, not_due)
        (Permᴰ.trans (Permᴰ.cons refl (select-Perm cur ts))
          (Perm.symm (middle-Perm (select (is_due cur) ts) t (select (is_later cur) ts))))
  | inr e ↦
      let now : leb t.expire cur ≡ true = ground (arith, e) in
      rw (e, now) (Permᴰ.cons refl (select-Perm cur ts))
]
