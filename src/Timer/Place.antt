-- ===== src/Timer/Place.antt =====
-- The place of a timer in a list, and the links that lst_timer.cpp writes to put it there.
use ai_inference_gateway.Prelude.{
  ℕ, ◌≡◌, ◌≢◌, inl, inr, refl, ◌∙◌, true, false, List, [], ◌∷◌, Option, some, if◌then◌else◌, ltb,
  update, arith, Bool-cases,
}
use ai_inference_gateway.Timer.{Node, TimerList, link_last, link_between}
use ai_inference_gateway.Timer.Chain.{
  Timer, node, last, has, Links, IsDistinct, SameOutside, has-rest, Holds,
}

-- The place of a timer in a list.

abbrev pub insert : Timer → List Timer → List Timer
insert t [] = t ∷ []
insert t (x ∷ xs) = let rest = insert t xs in if ltb t.expire x.expire then t ∷ x ∷ xs else x ∷ rest

pub link_between_lem :
    (l : TimerList) (t p y : ℕ) (nt np ny : Node)
    → Holds l t nt
    → Holds l p np
    → Holds l y ny
    → t ≢ p
    → t ≢ y
    → p ≢ y
    → link_between t p y l
      ≡ some (
        tt,
        record l {
          nodes =
              update
                (update
                  (update
                    (update l.nodes p (some (record np { next = t })))
                    y
                    (some (record ny { prev = t })))
                  t
                  (some (record nt { next = y })))
                t
                (some (record nt { next = y; prev = p }));
        },
      )
unfolding link_between
link_between_lem l t p y nt np ny ht hp hy a b c = ground arith

pub link_last_lem :
    (l : TimerList) (t p : ℕ) (nt np : Node)
    → Holds l t nt
    → Holds l p np
    → t ≢ p
    → link_last t p l
      ≡ some (
        tt,
        record l {
          nodes =
              update
                (update
                  (update l.nodes p (some (record np { next = t })))
                  t
                  (some (record nt { next = 0 })))
                t
                (some (record nt { next = 0; prev = p }));
          tail = t;
        },
      )
unfolding link_last
link_last_lem l t p nt np ht hp a = ground arith

-- What the loop leaves: the timer in its place behind `p`.
pub record Inserted (b : ℕ) (t p : Timer) (ys : List Timer) (l l' : TimerList) : Type 0 where
  pub linked : Links l'.nodes b (p ∷ insert t ys) 0
  pub same : SameOutside (t ∷ p ∷ ys) l.nodes l'.nodes
  pub same_head : l'.head ≡ l.head
  pub tail : l'.tail ≡ last p.addr (insert t ys)

-- A timer that is in the store and not in the list.
pub record IsLoose (l : TimerList) (t : Timer) (ts : List Timer) : Type 0 where
  pub prev : ℕ
  pub next : ℕ
  pub stored : Holds l t.addr (node t prev next)
  pub out : has t.addr ts ≡ false

pub insert-before :
    (t y : Timer) (ys : List Timer) → ltb t.expire y.expire ≡ true → insert t (y ∷ ys) ≡ t ∷ y ∷ ys
insert-before t y ys e = rw e refl

pub insert-after :
    (t y : Timer) (ys : List Timer)
    → ltb t.expire y.expire ≡ false
    → insert t (y ∷ ys) ≡ y ∷ insert t ys
insert-after t y ys e = rw e refl

-- A fourfold change of three nodes changes no other.
pub update-apart :
    (h : ℕ → Option Node) (p y t a : ℕ) (n m r q : Option Node)
    → p ≢ a
    → y ≢ a
    → t ≢ a
    → update (update (update (update h p n) y m) t r) t q a ≡ h a
update-apart h p y t a n m r q e f g = ground arith

pub update-nodes :
    (h : ℕ → Option Node) (p y t : ℕ) (n m r q : Option Node)
    → t ≢ p
    → t ≢ y
    → p ≢ y
    → let g = update (update (update (update h p n) y m) t r) t q in
      (g p ≡ n) × (g y ≡ m) × (g t ≡ q)
update-nodes h p y t n m r q e f g = (ground arith, ground arith, ground arith)

pub has-insert : (a : ℕ) (t : Timer) (ts : List Timer) → has a (insert t ts) ≡ has a (t ∷ ts)
has-insert a t [] = refl
has-insert a t (y ∷ ys) = elim (Bool-cases (ltb t.expire y.expire)) [
  | inl before ↦ rw (insert-before t y ys before) refl
  | inr after ↦ rw (insert-after t y ys after) (ground (arith, has-insert a t ys))
]

pub insert-IsDistinct :
    (t : Timer) (ts : List Timer) → IsDistinct ts → has t.addr ts ≡ false → IsDistinct (insert t ts)
insert-IsDistinct t [] d o = (refl, tt)
insert-IsDistinct t (y ∷ ys) d o = elim (Bool-cases (ltb t.expire y.expire)) [
  | inl before ↦ rw (insert-before t y ys before) (o, d)
  | inr after ↦ rw (insert-after t y ys after) (
    has-insert y.addr t ys ∙ ground (arith, d.0, o),
    insert-IsDistinct t ys d.1 (has-rest t.addr y ys o),
  )
]
