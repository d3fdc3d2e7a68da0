-- ===== src/Timer/Order.antt =====
-- The order of the timers of lst_timer.cpp: by their times, which is what `tick` relies on.
use ai_inference_gateway.Prelude.{
  subst, ℕ, ◌≤◌, ◌<◌, ◌≡◌, refl, sym, ap, ◌∙◌, Bool, true, false, List, [], ◌∷◌, ◌++◌, map, length,
  none, if◌then◌else◌, ltb, leb, arith, Bool-cases, inl, inr,
}
use ai_inference_gateway.Timer.{TimerList, add_timer, adjust_timer, tick}
use ai_inference_gateway.Timer.Chain.{Timer, has, SameOutside, IsList, Returns, Returns-map}
use ai_inference_gateway.Timer.Place.{insert, insert-after, insert-before}
use ai_inference_gateway.Timer.Add.{Becomes, IsFresh, add_timer_lem}
use ai_inference_gateway.Timer.Adjust.{adjusted, insert_behind, adjust_timer_lem}
use ai_inference_gateway.Timer.Tick.{due, left, Ticked, tick_lem}

-- All of the timers end at `e` or later, and all of them at `e` or earlier.
abbrev pub AllFrom : ℕ → List Timer → Type 0
AllFrom e [] = Unit {0}
AllFrom e (t ∷ ts) = (e ≤ t.expire) × AllFrom e ts

abbrev pub AllUpTo : ℕ → List Timer → Type 0
AllUpTo e [] = Unit {0}
AllUpTo e (t ∷ ts) = (t.expire ≤ e) × AllUpTo e ts

abbrev pub IsSorted : List Timer → Type 0
IsSorted [] = Unit {0}
IsSorted (t ∷ ts) = AllFrom t.expire ts × IsSorted ts

AllFrom-le : (e f : ℕ) (ts : List Timer) → f ≤ e → AllFrom e ts → AllFrom f ts
AllFrom-le e f [] le a = tt
AllFrom-le e f (t ∷ ts) le a = (omega (arith, a.0), AllFrom-le e f ts le a.1)

AllFrom-insert :
    (e : ℕ) (t : Timer) (ts : List Timer) → e ≤ t.expire → AllFrom e ts → AllFrom e (insert t ts)
AllFrom-insert e t [] le a = (le, tt)
AllFrom-insert e t (y ∷ ys) le a = elim (Bool-cases (ltb t.expire y.expire)) [
  | inl f ↦ rw (insert-before t y ys f) (le, a)
  | inr f ↦ rw (insert-after t y ys f) (a.0, AllFrom-insert e t ys le a.1)
]

insert-IsSorted : (t : Timer) (ts : List Timer) → IsSorted ts → IsSorted (insert t ts)
insert-IsSorted t [] s = (tt, tt)
insert-IsSorted t (y ∷ ys) s = elim (Bool-cases (ltb t.expire y.expire)) [
  | inl f ↦
      let le : t.expire ≤ y.expire = ground (arith, f) in
      rw (insert-before t y ys f) ((le, AllFrom-le y.expire t.expire ys le s.0), s)
  | inr f ↦
      let le : y.expire ≤ t.expire = ground (arith, f) in
      rw (insert-after t y ys f) (AllFrom-insert y.expire t ys le s.0, insert-IsSorted t ys s.1)
]

AllFrom-split : (e : ℕ) (xs ys : List Timer) → AllFrom e (xs ++ ys) → AllFrom e xs × AllFrom e ys
AllFrom-split e [] ys a = (tt, a)
AllFrom-split e (x ∷ xs) ys a = let (f, g) = AllFrom-split e xs ys a.1 in ((a.0, f), g)

AllFrom-join : (e : ℕ) (xs ys : List Timer) → AllFrom e xs → AllFrom e ys → AllFrom e (xs ++ ys)
AllFrom-join e [] ys a b = b
AllFrom-join e (x ∷ xs) ys a b = (a.0, AllFrom-join e xs ys a.1 b)

between-IsSorted :
    (xs : List Timer) (t : Timer) (ys : List Timer)
    → IsSorted (xs ++ ys)
    → AllUpTo t.expire xs
    → AllFrom t.expire ys
    → IsSorted (xs ++ t ∷ ys)
between-IsSorted [] t ys s a b = (b, s)
between-IsSorted (x ∷ xs) t ys s a b =
    let (f, g) = AllFrom-split x.expire xs ys s.0 in
    (
      AllFrom-join x.expire xs (t ∷ ys) f (a.0, AllFrom-le t.expire x.expire ys a.0 b),
      between-IsSorted xs t ys s.1 a.1 b,
    )

behind-IsSorted :
    (t x : Timer) (xs : List Timer)
    → IsSorted (x ∷ xs)
    → x.expire ≤ t.expire
    → IsSorted (insert_behind t (x ∷ xs))
behind-IsSorted t x xs s le = (AllFrom-insert x.expire t xs le s.0, insert-IsSorted t xs s.1)

IsSorted-back : (xs ys : List Timer) → IsSorted (xs ++ ys) → IsSorted ys
IsSorted-back [] ys s = s
IsSorted-back (x ∷ xs) ys s = IsSorted-back xs ys s.1

adjusted-IsSorted :
    (xs : List Timer) (t : Timer) (ys : List Timer)
    → IsSorted (xs ++ ys)
    → AllUpTo t.expire xs
    → IsSorted (adjusted xs t ys)
adjusted-IsSorted xs t [] s a = between-IsSorted xs t [] s a tt
adjusted-IsSorted xs t (y ∷ ys) s a = elim (Bool-cases (ltb t.expire y.expire)) [
  | inl e ↦
      let le : t.expire ≤ y.expire = ground (arith, e) in
      rw e (
        between-IsSorted xs t (y ∷ ys) s a
          (le, AllFrom-le y.expire t.expire ys le (IsSorted-back xs (y ∷ ys) s).0))
  | inr e ↦ rw e (behind xs t y ys s a (ground (arith, e)))
]
  where
    behind :
        (xs : List Timer) (t y : Timer) (ys : List Timer)
        → IsSorted (xs ++ y ∷ ys)
        → AllUpTo t.expire xs
        → y.expire ≤ t.expire
        → IsSorted (insert_behind t (xs ++ y ∷ ys))
    behind [] t y ys s a le = behind-IsSorted t y ys s le
    behind (x ∷ xs) t y ys s a le = behind-IsSorted t x (xs ++ y ∷ ys) s a.0

-- The timers of a list that a test holds of.
abbrev pub select : (Timer → Bool) → List Timer → List Timer
select f [] = []
select f (t ∷ ts) = let rest = select f ts in if f t then t ∷ rest else rest

abbrev pub is_due : ℕ → Timer → Bool
is_due cur t = leb t.expire cur

abbrev pub is_later : ℕ → Timer → Bool
is_later cur t = ltb cur t.expire

select-later :
    (cur e : ℕ) (ts : List Timer)
    → cur < e
    → AllFrom e ts
    → (select (is_due cur) ts ≡ []) × (select (is_later cur) ts ≡ ts)
select-later cur e [] lt a = (refl, refl)
select-later cur e (t ∷ ts) lt a =
    let (d, l) = select-later cur e ts lt a.1 in
    let not_due : leb t.expire cur ≡ false = ground (arith, a.0) in
    let later : ltb cur t.expire ≡ true = ground (arith, a.0) in
    (rw (not_due, d) refl, rw (later, l) refl)

due-sorted :
    (cur : ℕ) (ts : List Timer)
    → IsSorted ts
    → (due cur ts ≡ select (is_due cur) ts) × (left cur ts ≡ select (is_later cur) ts)
due-sorted cur [] s = (refl, refl)
due-sorted cur (t ∷ ts) s = elim (Bool-cases (ltb cur t.expire)) [
  | inl e ↦
      let not_due : leb t.expire cur ≡ false = ground (arith, e) in
      let (d, l) = select-later cur t.expire ts (ground (arith, e)) s.0 in
      (rw (e, not_due, d) refl, rw (e, l) refl)
  | inr e ↦
      let now : leb t.expire cur ≡ true = ground (arith, e) in
      let (d, l) = due-sorted cur ts s.1 in (rw (e, now, d) refl, rw (e, l) refl)
]

pub select-IsSorted : (f : Timer → Bool) (ts : List Timer) → IsSorted ts → IsSorted (select f ts)
select-IsSorted f [] s = tt
select-IsSorted f (t ∷ ts) s = elim (Bool-cases (f t)) [
  | inl e ↦ rw e (AllFrom-select f t.expire ts s.0, select-IsSorted f ts s.1)
  | inr e ↦ rw e (select-IsSorted f ts s.1)
]
  where
    AllFrom-select :
        (f : Timer → Bool) (e : ℕ) (ts : List Timer) → AllFrom e ts → AllFrom e (select f ts)
    AllFrom-select f e [] a = tt
    AllFrom-select f e (t ∷ ts) a = elim (Bool-cases (f t)) [
      | inl q ↦ rw q (a.0, AllFrom-select f e ts a.1)
      | inr q ↦ rw q (AllFrom-select f e ts a.1)
    ]

-- The list is `ts` now, in order, and no node outside `touched` is written.
pub record Ordered (l l' : TimerList) (touched ts : List Timer) : Type 0 where
  pub becomes : Becomes l l' touched ts
  pub sorted : IsSorted ts

-- On a list of timers in order, `add_timer` of a timer as `new` leaves it, whose address is not in the
-- list, succeeds in as many rounds as there are timers: the list is the one with the timer behind all
-- that do not end later than it, in order again, and no node outside is written.
pub add_timer-IsSorted :
    (rounds : ℕ) (t : Timer) (ts : List Timer) (l : TimerList)
    → IsList l ts
    → IsSorted ts
    → IsFresh l t ts
    → length ts ≤ rounds
    → Returns (add_timer rounds t.addr l) (λ _ l'. Ordered l l' (t ∷ ts) (insert t ts))
add_timer-IsSorted rounds t ts l i s f r =
    Returns-map (add_timer rounds t.addr l) (λ _ l'. Becomes l l' (t ∷ ts) (insert t ts))
      (λ _ l'. Ordered l l' (t ∷ ts) (insert t ts))
      (λ _ l' b. record { becomes = b; sorted = insert-IsSorted t ts s })
      (add_timer_lem rounds t ts l i f r)

-- On a list of timers whose others are in order, `adjust_timer` of one that does not end before those
-- in front of it succeeds in as many rounds as there are others: the list holds the timer where its
-- time belongs, in order, and no node outside is written.
pub adjust_timer-IsSorted :
    (rounds : ℕ) (xs : List Timer) (t : Timer) (ys : List Timer) (l : TimerList)
    → IsList l (xs ++ t ∷ ys)
    → IsSorted (xs ++ ys)
    → AllUpTo t.expire xs
    → length (xs ++ ys) ≤ rounds
    → Returns
        (adjust_timer rounds t.addr l)
        (λ _ l'. Ordered l l' (xs ++ t ∷ ys) (adjusted xs t ys))
adjust_timer-IsSorted rounds xs t ys l i s a r =
    Returns-map (adjust_timer rounds t.addr l)
      (λ _ l'. Becomes l l' (xs ++ t ∷ ys) (adjusted xs t ys))
      (λ _ l'. Ordered l l' (xs ++ t ∷ ys) (adjusted xs t ys))
      (λ _ l' b. record { becomes = b; sorted = adjusted-IsSorted xs t ys s a })
      (adjust_timer_lem rounds xs t ys l i r)

-- What `tick` does to a list in order: the timers that end at `cur` or before are called back, in
-- order, and their nodes are gone; the list holds the others.
pub record Expired (cur : ℕ) (l : TimerList) (ts : List Timer) (users : List ℕ) (l' : TimerList)
    : Type 0 where
  pub is_list : IsList l' (select (is_later cur) ts)
  pub sorted : IsSorted (select (is_later cur) ts)
  pub called : users ≡ map (λ t. t.user) (select (is_due cur) ts)
  pub freed : (a : ℕ) → has a (select (is_due cur) ts) ≡ true → l'.nodes a ≡ none
  pub same : SameOutside ts l.nodes l'.nodes

-- On a list of timers in order, `tick` succeeds in one round for each timer and one more: it calls back
-- the users of exactly the timers that end at `cur` or before, in order, frees those nodes, and leaves
-- the list of exactly the timers that end later, in order, with no node outside written.
pub tick-IsSorted :
    (rounds cur : ℕ) (ts : List Timer) (l : TimerList)
    → IsList l ts
    → IsSorted ts
    → length ts < rounds
    → Returns (tick rounds cur l) (λ users l'. Expired cur l ts users l')
tick-IsSorted rounds cur ts l i s r =
    let (d, k) = due-sorted cur ts s in
    Returns-map (tick rounds cur l) (λ users l'. Ticked cur l ts users l')
      (λ users l'. Expired cur l ts users l')
      (λ users l' v. record {
        is_list = subst (λ us. IsList l' us) k v.is_list;
        sorted = select-IsSorted (is_later cur) ts s;
        called = v.called ∙ ap (λ us. map (λ t. t.user) us) d;
        freed = λ a h. v.freed a (subst (λ us. has a us ≡ true) (sym d) h);
        same = v.same;
      })
      (tick_lem rounds cur ts l i r)
