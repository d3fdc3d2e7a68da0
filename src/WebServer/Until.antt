-- ===== src/WebServer/Until.antt =====
-- A timer of the list that is put off, and what a list in order is without one of its timers.
use ai_inference_gateway.Prelude.{
  ℕ, ◌≤◌, ◌≡◌, refl, sym, ap, ◌∙◌, subst, List, [], ◌∷◌, ◌++◌, some, ◌==◌, ◌||◌, update, arith,
}
use ai_inference_gateway.Timer.{Node, TimerList, set_expire, store}
use ai_inference_gateway.Timer.Chain.{
  Timer, node, first, last, has, IsDistinct, EndsAt, IsList, Returns, frame-update, Links-split,
  Links-append, Links-Holds, Holds, load-bind, update_same,
}
use ai_inference_gateway.Timer.Cut.{IsDistinct-without}
use ai_inference_gateway.Timer.Order.{IsSorted, AllUpTo, AllFrom}
use mathlib.Core.List.{Permᴰ}

pub AllUpTo-le : (e f : ℕ) (ts : List Timer) → e ≤ f → AllUpTo e ts → AllUpTo f ts
AllUpTo-le e f [] le a = tt
AllUpTo-le e f (t ∷ ts) le a = (omega (arith, a.0), AllUpTo-le e f ts le a.1)

pub AllUpTo-front : (e : ℕ) (xs ys : List Timer) → AllUpTo e (xs ++ ys) → AllUpTo e xs
AllUpTo-front e [] ys a = tt
AllUpTo-front e (x ∷ xs) ys a = (a.0, AllUpTo-front e xs ys a.1)

pub AllUpTo-Perm : {ts us : List Timer} (e : ℕ) → Permᴰ ts us → AllUpTo e ts → AllUpTo e us
AllUpTo-Perm e Permᴰ.nil a = tt
AllUpTo-Perm e (Permᴰ.cons q p) a = (subst (λ t. t.expire ≤ e) q a.0, AllUpTo-Perm e p a.1)
AllUpTo-Perm e (Permᴰ.swap q r) a =
    (subst (λ t. t.expire ≤ e) r a.1.0, (subst (λ t. t.expire ≤ e) q a.0, a.1.1))
AllUpTo-Perm e (Permᴰ.trans p q) a = AllUpTo-Perm e q (AllUpTo-Perm e p a)

AllFrom-without :
    (e : ℕ) (xs : List Timer) (t : Timer) (ys : List Timer)
    → AllFrom e (xs ++ t ∷ ys)
    → AllFrom e (xs ++ ys)
AllFrom-without e [] t ys a = a.1
AllFrom-without e (x ∷ xs) t ys a = (a.0, AllFrom-without e xs t ys a.1)

pub IsSorted-without :
    (xs : List Timer) (t : Timer) (ys : List Timer) → IsSorted (xs ++ t ∷ ys) → IsSorted (xs ++ ys)
IsSorted-without [] t ys s = s.1
IsSorted-without (x ∷ xs) t ys s =
    (AllFrom-without x.expire xs t ys s.0, IsSorted-without xs t ys s.1)

-- A timer with another time.
abbrev pub until : Timer → ℕ → Timer
until t e = record t { expire = e }

has-until :
    (a e : ℕ) (xs : List Timer) (t : Timer) (ys : List Timer)
    → has a (xs ++ until t e ∷ ys) ≡ has a (xs ++ t ∷ ys)
has-until a e [] t ys = refl
has-until a e (x ∷ xs) t ys = ap (λ b. (x.addr == a) || b) (has-until a e xs t ys)

IsDistinct-until :
    (e : ℕ) (xs : List Timer) (t : Timer) (ys : List Timer)
    → IsDistinct (xs ++ t ∷ ys)
    → IsDistinct (xs ++ until t e ∷ ys)
IsDistinct-until e [] t ys d = d
IsDistinct-until e (x ∷ xs) t ys d =
    (has-until x.addr e xs t ys ∙ d.0, IsDistinct-until e xs t ys d.1)

EndsAt-until :
    (p e : ℕ) (xs : List Timer) (t : Timer) (ys : List Timer)
    → EndsAt p (xs ++ t ∷ ys)
    → EndsAt p (xs ++ until t e ∷ ys)
EndsAt-until p e [] t ys q = q
EndsAt-until p e (x ∷ xs) t ys q = q ∙ sym (last-until x.addr e xs t ys)
  where
    last-until :
        (b e : ℕ) (xs : List Timer) (t : Timer) (ys : List Timer)
        → last b (xs ++ until t e ∷ ys) ≡ last b (xs ++ t ∷ ys)
    last-until b e [] t ys = refl
    last-until b e (x ∷ xs) t ys = last-until x.addr e xs t ys

first-until :
    (e stop : ℕ) (xs : List Timer) (t : Timer) (ys : List Timer)
    → first (xs ++ t ∷ ys) stop ≡ first (xs ++ until t e ∷ ys) stop
first-until e stop [] t ys = refl
first-until e stop (x ∷ xs) t ys = refl

set_expire_eq :
    (p e : ℕ) (l : TimerList) (n : Node)
    → Holds l p n
    → set_expire p e l
      ≡ some (tt, record l { nodes = update l.nodes p (some (record n { expire = e })) })
unfolding set_expire store
set_expire_eq p e l n h = load-bind l p n _ h

-- A write of a timer's time.
pub set_expire_lem :
    (e : ℕ) (xs : List Timer) (t : Timer) (ys : List Timer) (l : TimerList)
    → IsList l (xs ++ t ∷ ys)
    → Returns (set_expire t.addr e l) (λ _ l'. IsList l' (xs ++ until t e ∷ ys))
set_expire_lem e xs t ys l i =
    let (front, back) = Links-split l.nodes 0 0 xs (t ∷ ys) i.linked in
    let h = Links-Holds l (last 0 xs) 0 t ys back in
    let (_, _, out, out_ys) = IsDistinct-without t xs ys i.distinct in
    let n = some (node (until t e) (last 0 xs) (first ys 0)) in
    rw (set_expire_eq t.addr e l (node t (last 0 xs) (first ys 0)) h) (record {
      starts = i.starts ∙ first-until e 0 xs t ys;
      ends = EndsAt-until l.tail e xs t ys i.ends;
      linked =
          Links-append (update l.nodes t.addr n) 0 0 xs (until t e ∷ ys)
            (frame-update l.nodes t.addr n 0 t.addr xs front out)
            (
              h.ne_null,
              update_same l.nodes t.addr n,
              frame-update l.nodes t.addr n t.addr 0 ys back.2 out_ys,
            );
      distinct = IsDistinct-until e xs t ys i.distinct;
    })
