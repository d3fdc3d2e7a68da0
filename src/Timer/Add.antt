-- ===== src/Timer/Add.antt =====
-- `add_timer` of lst_timer.cpp puts a timer where its time belongs, behind its equals.
use ai_inference_gateway.Prelude.{
  subst, ℕ, ◌≤◌, ◌<◌, ◌≡◌, ◌≢◌, inl, inr, refl, sym, ap, ◌∙◌, true, false, List, [], ◌∷◌, some, ltb,
  ◌==◌, update, arith, length, Bool-cases,
}
use ai_inference_gateway.Timer.{
  Node, TimerList, ◌>>◌, set_head, set_next, set_prev, add_after, add_to, add_timer,
}
use ai_inference_gateway.Timer.Chain.{
  Timer, node, has, IsList, Returns, SameOutside, Returns-map, has-first, has-rest, frame-update,
  Holds, not_null, load-bind, if-then, if-else, Links-Holds,
}
-- The place of a timer in a list.
use ai_inference_gateway.Timer.Place.{insert, Inserted, IsLoose, insert-before, insert-after}
use ai_inference_gateway.Timer.Insert.{add_after_lem, Inserted-IsList}

add_front :
    (l : TimerList) (t h : ℕ) (nt nh : Node)
    → Holds l t nt
    → Holds l h nh
    → t ≢ h
    → (do set_next t h; set_prev h t; set_head t) l
      ≡ some (
        tt,
        record l {
          nodes =
              update
                (update l.nodes t (some (record nt { next = h })))
                h
                (some (record nh { prev = t }));
          head = t;
        },
      )
unfolding set_next set_prev
add_front l t h nt nh ht hh a = ground arith

-- A timer as `new util_timer` leaves it, outside the list.
pub record IsFresh (l : TimerList) (t : Timer) (ts : List Timer) : Type 0 where
  pub stored : Holds l t.addr (node t 0 0)
  pub out : has t.addr ts ≡ false

-- The list is `ts` now, and other nodes are untouched.
pub record Becomes (l l' : TimerList) (touched ts : List Timer) : Type 0 where
  pub is_list : IsList l' ts
  pub same : SameOutside touched l.nodes l'.nodes

add_front_lem :
    (t h : Timer) (ts : List Timer) (l : TimerList)
    → IsList l (h ∷ ts)
    → IsFresh l t (h ∷ ts)
    → ltb t.expire h.expire ≡ true
    → Returns
        ((do set_next t.addr h.addr; set_prev h.addr t.addr; set_head t.addr) l)
        (λ _ l'. Becomes l l' (t ∷ h ∷ ts) (t ∷ h ∷ ts))
add_front_lem t h ts l i f before =
    let apart : t.addr ≢ h.addr = λ e. has-first t.addr h ts f.out (sym e) in
    let out = has-rest t.addr h ts f.out in
    rw (add_front l t.addr h.addr _ _ f.stored (Links-Holds l 0 0 h ts i.linked) apart) (record {
      is_list = record {
        starts = refl;
        ends = i.ends;
        linked = (
          f.stored.ne_null,
          ground (arith, apart),
          (
            i.linked.0,
            ground (arith, apart),
            frame-update _ h.addr _ h.addr 0 ts (frame-update _ t.addr _ h.addr 0 ts i.linked.2 out)
                i.distinct.0,
          ),
        );
        distinct = (f.out, i.distinct);
      };
      same = λ a o. ground (arith, o);
    })

add_to_front :
    (rounds t h : ℕ) (l : TimerList) (nt nh : Node)
    → Holds l t nt
    → Holds l h nh
    → ltb nt.expire nh.expire ≡ true
    → add_to rounds t h l ≡ (do set_next t h; set_prev h t; set_head t) l
unfolding add_to
add_to_front rounds t h l nt nh ht hh e =
    load-bind l t nt _ ht ∙ load-bind l h nh _ hh ∙ if-then (ltb nt.expire nh.expire) _ _ l e

add_to_after :
    (rounds t h : ℕ) (l : TimerList) (nt nh : Node)
    → Holds l t nt
    → Holds l h nh
    → ltb nt.expire nh.expire ≡ false
    → add_to rounds t h l ≡ add_after rounds t h l
unfolding add_to
add_to_after rounds t h l nt nh ht hh e =
    load-bind l t nt _ ht ∙ load-bind l h nh _ hh ∙ if-else (ltb nt.expire nh.expire) _ _ l e

add_to_lem :
    (rounds : ℕ) (t h : Timer) (ts : List Timer) (l : TimerList)
    → IsList l (h ∷ ts)
    → IsFresh l t (h ∷ ts)
    → length ts < rounds
    → Returns
        (add_to rounds t.addr h.addr l)
        (λ _ l'. Becomes l l' (t ∷ h ∷ ts) (insert t (h ∷ ts)))
add_to_lem rounds t h ts l i f r =
    let hh = Links-Holds l 0 0 h ts i.linked in
    let loose : IsLoose l t (h ∷ ts) = record {
      prev = 0;
      next = 0;
      stored = f.stored;
      out = f.out;
    } in
    elim (Bool-cases (ltb t.expire h.expire)) [
      | inl before ↦
          rw
            (
              add_to_front rounds t.addr h.addr l _ _ f.stored hh before,
              insert-before t h ts before,
            )
            (add_front_lem t h ts l i f before)
      | inr after ↦ rw (add_to_after rounds t.addr h.addr l _ _ f.stored hh after) (
          Returns-map (add_after rounds t.addr h.addr l) (λ _ l'. Inserted 0 t h ts l l')
            (λ _ l'. Becomes l l' (t ∷ h ∷ ts) (insert t (h ∷ ts)))
            (λ _ l' v. record {
              is_list =
                  subst (λ us. IsList l' us) (sym (insert-after t h ts after))
                    (Inserted-IsList t h ts l l' v i.starts i.distinct f.out);
              same = v.same;
            })
            (add_after_lem rounds 0 t h ts l i.linked i.distinct loose i.ends r))
    ]

add_timer_empty :
    (rounds t : ℕ) (l : TimerList)
    → (t == 0) ≡ false
    → l.head ≡ 0
    → add_timer rounds t l ≡ some (tt, record l { head = t; tail = t })
unfolding add_timer
add_timer_empty rounds t l nt e =
    if-else (t == 0) _ _ l nt ∙ if-then (l.head == 0) _ _ l (ap (λ h. h == 0) e)

add_timer_full :
    (rounds t h : ℕ) (l : TimerList)
    → (t == 0) ≡ false
    → (h == 0) ≡ false
    → l.head ≡ h
    → add_timer rounds t l ≡ add_to rounds t h l
unfolding add_timer
add_timer_full rounds t h l nt nh e =
    if-else (t == 0) _ _ l nt
    ∙ if-else (l.head == 0) _ _ l (ap (λ h. h == 0) e ∙ nh)
    ∙ ap (λ h. add_to rounds t h l) e

-- On a list of timers, adding one that the list does not have gives the list with it before the
-- first timer that ends later, writes no other node, and is done in as many rounds as there are timers.
pub add_timer_lem :
    (rounds : ℕ) (t : Timer) (ts : List Timer) (l : TimerList)
    → IsList l ts
    → IsFresh l t ts
    → length ts ≤ rounds
    → Returns (add_timer rounds t.addr l) (λ _ l'. Becomes l l' (t ∷ ts) (insert t ts))
add_timer_lem rounds t [] l i f r =
    rw (add_timer_empty rounds t.addr l (not_null l t.addr _ f.stored) i.starts) (record {
      is_list = record {
        starts = refl;
        ends = refl;
        linked = (f.stored.ne_null, f.stored.holds, tt);
        distinct = (refl, tt);
      };
      same = λ a o. refl;
    })
add_timer_lem rounds t (h ∷ ts) l i f r =
    rw
      (add_timer_full rounds t.addr h.addr l (not_null l t.addr _ f.stored)
        (not_null l h.addr _ (Links-Holds l 0 0 h ts i.linked)) i.starts)
      (add_to_lem rounds t h ts l i f (omega arith))
