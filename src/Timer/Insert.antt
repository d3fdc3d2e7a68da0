-- ===== src/Timer/Insert.antt =====
-- The loop of the private `add_timer` of lst_timer.cpp puts a timer in its place behind the first one.
use ai_inference_gateway.Prelude.{
  ℕ, zero, suc, ◌<◌, ◌≡◌, ◌≢◌, inl, inr, refl, sym, ◌∙◌, true, false, List, [], ◌∷◌, ltb, ◌==◌,
  arith, length, Bool-cases,
}
use ai_inference_gateway.Timer.{Node, TimerList, load, link_between, insert_loop, add_after}
use ai_inference_gateway.Timer.Chain.{
  Timer, node, first, last, has, Links, IsDistinct, IsList, Returns, Returns-map, frame, has-first,
  has-rest, has-apart, has-neither, Holds, not_null, load-bind, if-then, if-else, Links-Holds,
}
-- The place of a timer in a list.
use ai_inference_gateway.Timer.Place.{
  insert, link_between_lem, link_last_lem, Inserted, IsLoose, insert-before, insert-after,
  update-apart, update-nodes, has-insert, insert-IsDistinct,
}

insert_loop_before :
    (rounds t p y : ℕ) (l : TimerList) (nt ny : Node)
    → Holds l t nt
    → Holds l y ny
    → ltb nt.expire ny.expire ≡ true
    → insert_loop (suc rounds) t p y l ≡ link_between t p y l
unfolding insert_loop
insert_loop_before rounds t p y l nt ny ht hy e =
    if-else (y == 0) _ _ l (not_null l y ny hy)
    ∙ load-bind l t nt _ ht
    ∙ load-bind l y ny _ hy
    ∙ if-then (ltb nt.expire ny.expire) _ _ l e

insert_loop_after :
    (rounds t p y : ℕ) (l : TimerList) (nt ny : Node)
    → Holds l t nt
    → Holds l y ny
    → ltb nt.expire ny.expire ≡ false
    → insert_loop (suc rounds) t p y l ≡ insert_loop rounds t y ny.next l
unfolding insert_loop
insert_loop_after rounds t p y l nt ny ht hy e =
    if-else (y == 0) _ _ l (not_null l y ny hy)
    ∙ load-bind l t nt _ ht
    ∙ load-bind l y ny _ hy
    ∙ if-else (ltb nt.expire ny.expire) _ _ l e

insert_before :
    (b : ℕ) (t p y : Timer) (ys : List Timer) (l : TimerList)
    → Links l.nodes b (p ∷ y ∷ ys) 0
    → IsDistinct (p ∷ y ∷ ys)
    → IsLoose l t (p ∷ y ∷ ys)
    → l.tail ≡ last y.addr ys
    → ltb t.expire y.expire ≡ true
    → Returns (link_between t.addr p.addr y.addr l) (λ _ l'. Inserted b t p (y ∷ ys) l l')
insert_before b t p y ys l k d s e before =
    let apart_p : t.addr ≢ p.addr = λ e. has-first t.addr p (y ∷ ys) s.out (sym e) in
    let apart_y : t.addr ≢ y.addr =
      λ e. has-first t.addr y ys (has-rest t.addr p (y ∷ ys) s.out) (sym e) in
    let apart : p.addr ≢ y.addr = λ e. has-first p.addr y ys d.0 (sym e) in
    let out_p = has-rest p.addr y ys d.0 in
    let out_t = has-rest t.addr y ys (has-rest t.addr p (y ∷ ys) s.out) in
    let nodes = update-nodes l.nodes p.addr y.addr t.addr _ _ _ _ apart_p apart_y apart in
    rw
      (link_between_lem l t.addr p.addr y.addr _ _ _ s.stored (Links-Holds l b 0 p (y ∷ ys) k)
        (Links-Holds l p.addr 0 y ys k.2) apart_p apart_y apart)
      (record {
        linked = rw (insert-before t y ys before) (
          k.0,
          nodes.0,
          (
            s.stored.ne_null,
            nodes.2,
            (
              k.2.0,
              nodes.1,
              frame l.nodes _ y.addr 0 ys k.2.2 (λ a i.
                  update-apart l.nodes p.addr y.addr t.addr a _ _ _ _
                    (has-apart p.addr a ys out_p i) (has-apart y.addr a ys d.1.0 i)
                    (has-apart t.addr a ys out_t i)),
            ),
          ),
        );
        same = λ a o.
            update-apart l.nodes p.addr y.addr t.addr a _ _ _ _
              (has-first a p (y ∷ ys) (has-rest a t (p ∷ y ∷ ys) o))
              (has-first a y ys (has-rest a p (y ∷ ys) (has-rest a t (p ∷ y ∷ ys) o)))
              (has-first a t (p ∷ y ∷ ys) o);
        same_head = refl;
        tail = rw (insert-before t y ys before) e;
      })

step_over :
    (b : ℕ) (t p y : Timer) (ys : List Timer) (l l' : TimerList)
    → Links l.nodes b (p ∷ y ∷ ys) 0
    → IsDistinct (p ∷ y ∷ ys)
    → IsLoose l t (p ∷ y ∷ ys)
    → ltb t.expire y.expire ≡ false
    → Inserted p.addr t y ys l l'
    → Inserted b t p (y ∷ ys) l l'
step_over b t p y ys l l' k d s after v = record {
  linked =
      rw (insert-after t y ys after)
        (k.0, v.same p.addr (ground (arith, d.0, s.out)) ∙ k.1, v.linked);
  same = λ a o. v.same a (ground (arith, o));
  same_head = v.same_head;
  tail = rw (insert-after t y ys after) v.tail;
}

IsLoose-tail :
    (t p y : Timer) (ys : List Timer) (l : TimerList)
    → IsLoose l t (p ∷ y ∷ ys)
    → IsLoose l t (y ∷ ys)
IsLoose-tail t p y ys l s = record {
  prev = s.prev;
  next = s.next;
  stored = s.stored;
  out = ground (arith, s.out);
}

insert_loop_lem :
    (rounds b : ℕ) (t p : Timer) (ys : List Timer) (l : TimerList)
    → Links l.nodes b (p ∷ ys) 0
    → IsDistinct (p ∷ ys)
    → IsLoose l t (p ∷ ys)
    → l.tail ≡ last p.addr ys
    → length ys < rounds
    → Returns (insert_loop rounds t.addr p.addr (first ys 0) l) (λ _ l'. Inserted b t p ys l l')
unfolding insert_loop load
insert_loop_lem zero b t p ys l k d s e r = absurd (omega arith)
insert_loop_lem (suc rounds) b t p [] l k d s e r =
    let apart : t.addr ≢ p.addr = ground (arith, s.out) in
    rw
      (link_last_lem l t.addr p.addr (node t s.prev s.next) (node p b 0) s.stored
        (record { ne_null = k.0; holds = k.1 }) apart)
      (record {
        linked = (k.0, ground (arith, apart), (s.stored.ne_null, ground (arith, apart), tt));
        same = λ a o. ground (arith, o);
        same_head = refl;
        tail = refl;
      })
insert_loop_lem (suc rounds) b t p (y ∷ ys) l k d s e r =
    elim (Bool-cases (ltb t.expire y.expire)) [
      | inl before ↦
          rw
            (insert_loop_before rounds t.addr p.addr y.addr l _ _ s.stored
              (record { ne_null = k.2.0; holds = k.2.1 }) before)
            (insert_before b t p y ys l k d s e before)
      | inr after ↦
          rw
            (insert_loop_after rounds t.addr p.addr y.addr l _ _ s.stored
              (record { ne_null = k.2.0; holds = k.2.1 }) after)
            (Returns-map _ _ _ (λ _ l' v. step_over b t p y ys l l' k d s after v)
              (insert_loop_lem rounds p.addr t y ys l k.2 d.1 (IsLoose-tail t p y ys l s) e
                (omega arith)))
    ]

pub add_after_lem :
    (rounds b : ℕ) (t p : Timer) (ys : List Timer) (l : TimerList)
    → Links l.nodes b (p ∷ ys) 0
    → IsDistinct (p ∷ ys)
    → IsLoose l t (p ∷ ys)
    → l.tail ≡ last p.addr ys
    → length ys < rounds
    → Returns (add_after rounds t.addr p.addr l) (λ _ l'. Inserted b t p ys l l')
unfolding add_after
add_after_lem rounds b t p ys l k d s e r =
    rw
      (load-bind l p.addr _ (λ n. insert_loop rounds t.addr p.addr n.next)
        (Links-Holds l b 0 p ys k))
      (insert_loop_lem rounds b t p ys l k d s e r)

-- What a list becomes when the loop has put a timer behind the head.
pub Inserted-IsList :
    (t p : Timer) (ys : List Timer) (l l' : TimerList)
    → Inserted 0 t p ys l l'
    → l.head ≡ p.addr
    → IsDistinct (p ∷ ys)
    → has t.addr (p ∷ ys) ≡ false
    → IsList l' (p ∷ insert t ys)
Inserted-IsList t p ys l l' v h d o = record {
  starts = v.same_head ∙ h;
  ends = v.tail;
  linked = v.linked;
  distinct = (
    has-insert p.addr t ys ∙ has-neither p.addr t ys (λ e. has-first t.addr p ys o (sym e)) d.0,
    insert-IsDistinct t ys d.1 (has-rest t.addr p ys o),
  );
}
