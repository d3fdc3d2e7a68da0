-- ===== src/Timer/Adjust.antt =====
-- `adjust_timer` of lst_timer.cpp moves a timer whose time has been put off.
use ai_inference_gateway.Prelude.{
  ℕ, ◌≤◌, ◌<◌, ◌≡◌, ◌≢◌, refl, sym, ap, ◌∙◌, true, false, List, [], ◌∷◌, ◌++◌, length, some,
  if◌then◌else◌, ltb, ◌==◌, update, arith, Bool-cases, inl, inr,
}
use ai_inference_gateway.Timer.{
  Node, TimerList, set_prev, set_next, add_after, move_timer, adjust_timer,
}
use ai_inference_gateway.Timer.Chain.{
  Timer, node, first, last, IsList, Returns, Returns-map, frame-update, has-first, has-rest,
  has-apart, has-here, has-back, has-front, has-neither, has-both, Holds, not_null, load-bind,
  bind_lem, if-then, if-else, Links-Holds, Links-split, update_other, update_same, is-same,
  is-other, last-append,
}
use ai_inference_gateway.Timer.Cut.{
  relink_first, set_prev_lem, set_next_lem, cut, cut-other, has-last, cut_middle,
  IsDistinct-without, last-has, last_node, Links-last,
}
use ai_inference_gateway.Timer.Place.{insert, IsLoose, Inserted}
use ai_inference_gateway.Timer.Insert.{Inserted-IsList, add_after_lem}
use ai_inference_gateway.Timer.Add.{Becomes}

-- The list with a timer in its place behind the first one.
abbrev pub insert_behind : Timer → List Timer → List Timer
insert_behind t [] = t ∷ []
insert_behind t (x ∷ xs) = x ∷ insert t xs

-- What adjusting `t` makes of `xs ++ t ∷ ys`.
abbrev pub adjusted : List Timer → Timer → List Timer → List Timer
adjusted xs t [] = xs ++ t ∷ []
adjusted xs t (y ∷ ys) =
    if ltb t.expire y.expire then xs ++ t ∷ y ∷ ys else insert_behind t (xs ++ y ∷ ys)

Becomes-self : (l : TimerList) (touched ts : List Timer) → IsList l ts → Becomes l l touched ts
Becomes-self l touched ts i = record { is_list = i; same = λ a o. refl }

adjust_last :
    (rounds t : ℕ) (l : TimerList) (n : Node)
    → Holds l t n
    → n.next ≡ 0
    → adjust_timer rounds t l ≡ some (tt, l)
unfolding adjust_timer
adjust_last rounds t l n h e =
    if-else (t == 0) _ _ l (not_null l t n h)
    ∙ load-bind l t n _ h
    ∙ if-then (n.next == 0) _ _ l (is-same n.next 0 (sym e))

adjust_stays :
    (rounds t : ℕ) (l : TimerList) (n m : Node)
    → Holds l t n
    → Holds l n.next m
    → ltb n.expire m.expire ≡ true
    → adjust_timer rounds t l ≡ some (tt, l)
unfolding adjust_timer
adjust_stays rounds t l n m h k e =
    if-else (t == 0) _ _ l (not_null l t n h)
    ∙ load-bind l t n _ h
    ∙ if-else (n.next == 0) _ _ l (not_null l n.next m k)
    ∙ load-bind l n.next m _ k
    ∙ if-then (ltb n.expire m.expire) _ _ l e

adjust_moves :
    (rounds t : ℕ) (l : TimerList) (n m : Node)
    → Holds l t n
    → Holds l n.next m
    → ltb n.expire m.expire ≡ false
    → adjust_timer rounds t l ≡ move_timer rounds t n l
unfolding adjust_timer
adjust_moves rounds t l n m h k e =
    if-else (t == 0) _ _ l (not_null l t n h)
    ∙ load-bind l t n _ h
    ∙ if-else (n.next == 0) _ _ l (not_null l n.next m k)
    ∙ load-bind l n.next m _ k
    ∙ if-else (ltb n.expire m.expire) _ _ l e

-- The head goes out of the list before it goes in again.
move_first :
    (rounds t : ℕ) (l : TimerList) (n m : Node)
    → l.head ≡ t
    → Holds l t n
    → Holds l n.next m
    → n.next ≢ t
    → move_timer rounds t n l
      ≡ add_after rounds t n.next (record l {
        head = n.next;
        nodes =
            update
              (update l.nodes n.next (some (record m { prev = 0 })))
              t
              (some (record n { next = 0 }));
      })
unfolding move_timer
move_first rounds t l n m e h k apart =
    let g = update l.nodes n.next (some (record m { prev = 0 })) in
    let l' : TimerList = record l { head = n.next; nodes = g } in
    if-then (t == l.head) _ _ l (is-same t l.head e)
    ∙ bind_lem (set_prev n.next 0) _ tt (record l { head = n.next }) l'
        (set_prev_lem (record l { head = n.next }) n.next 0 m
          (record { ne_null = k.ne_null; holds = k.holds }))
    ∙ bind_lem (set_next t 0) (λ _. add_after rounds t n.next) tt l' _
        (set_next_lem l' t 0 n (record {
          ne_null = h.ne_null;
          holds = update_other l.nodes n.next t (some (record m { prev = 0 })) apart ∙ h.holds;
        }))

move_middle :
    (rounds t head : ℕ) (l : TimerList) (n np ny : Node)
    → l.head ≡ head
    → t ≢ head
    → Holds l n.prev np
    → Holds l n.next ny
    → n.prev ≢ n.next
    → move_timer rounds t n l
      ≡ add_after rounds t head (record l { nodes = cut l.nodes n.prev np n.next ny })
unfolding move_timer
move_middle rounds t head l n np ny e other hp hy apart =
    let l' : TimerList = record l {
      nodes = update l.nodes n.prev (some (record np { next = n.next }));
    } in
    if-else (t == l.head) _ _ l (is-other t l.head head other e)
    ∙ bind_lem (set_next n.prev n.next) _ tt l l' (set_next_lem l n.prev n.next np hp)
    ∙ bind_lem (set_prev n.next n.prev) (λ _. add_after rounds t l.head) tt l' _
        (set_prev_lem l' n.next n.prev ny (record {
          ne_null = hy.ne_null;
          holds =
              update_other l.nodes n.prev n.next (some (record np { next = n.next })) apart
              ∙ hy.holds;
        }))
    ∙ ap (λ h. add_after rounds t h (record l { nodes = cut l.nodes n.prev np n.next ny })) e

adjust_first_lem :
    (rounds : ℕ) (t y : Timer) (ys : List Timer) (l : TimerList)
    → IsList l (t ∷ y ∷ ys)
    → length ys < rounds
    → Returns
        (move_timer rounds t.addr (node t 0 y.addr) l)
        (λ _ l'. Becomes l l' (t ∷ y ∷ ys) (y ∷ insert t ys))
adjust_first_lem rounds t y ys l i r =
    let ny = node y t.addr (first ys 0) in
    let ht = Links-Holds l 0 0 t (y ∷ ys) i.linked in
    let hy = Links-Holds l t.addr 0 y ys i.linked.2 in
    let out = i.distinct.0 in
    let g = update l.nodes y.addr (some (node y 0 (first ys 0))) in
    let l' : TimerList = record l { head = y.addr; nodes = update g t.addr (some (node t 0 0)) } in
    let linked =
      frame-update g t.addr (some (node t 0 0)) 0 0 (y ∷ ys)
        (relink_first l.nodes t.addr 0 0 y ys i.linked.2 i.distinct.1.0) out in
    let loose : IsLoose l' t (y ∷ ys) = record {
      prev = 0;
      next = 0;
      stored = record { ne_null = ht.ne_null; holds = update_same g t.addr (some (node t 0 0)) };
      out = out;
    } in
    rw (move_first rounds t.addr l (node t 0 y.addr) ny i.starts ht hy (has-first t.addr y ys out))
      (Returns-map (add_after rounds t.addr y.addr l') (λ _ k. Inserted 0 t y ys l' k)
        (λ _ k. Becomes l k (t ∷ y ∷ ys) (y ∷ insert t ys))
        (λ _ k v. record {
          is_list = Inserted-IsList t y ys l' k v refl i.distinct.1 out;
          same = λ a o.
              v.same a o
              ∙ update_other g t.addr a (some (node t 0 0)) (has-first a t (y ∷ ys) o)
              ∙ update_other l.nodes y.addr a (some (node y 0 (first ys 0)))
                  (has-first a y ys (has-rest a t (y ∷ ys) o));
        })
        (add_after_lem rounds 0 t y ys l' linked i.distinct.1 loose i.ends r))

adjust_middle_lem :
    (rounds : ℕ) (x t y : Timer) (xs ys : List Timer) (l : TimerList)
    → IsList l ((x ∷ xs) ++ t ∷ y ∷ ys)
    → length (xs ++ y ∷ ys) < rounds
    → Returns
        (move_timer rounds t.addr (node t (last x.addr xs) y.addr) l)
        (λ _ l'. Becomes l l' ((x ∷ xs) ++ t ∷ y ∷ ys) (x ∷ insert t (xs ++ y ∷ ys)))
adjust_middle_lem rounds x t y xs ys l i r =
    let p = last x.addr xs in
    let np = last_node x 0 xs t.addr in
    let ny = node y t.addr (first ys 0) in
    let (front, back) = Links-split l.nodes 0 0 (x ∷ xs) (t ∷ y ∷ ys) i.linked in
    let (d, apart, out, out_ys) = IsDistinct-without t (x ∷ xs) (y ∷ ys) i.distinct in
    let ht = Links-Holds l p 0 t (y ∷ ys) back in
    let hy = Links-Holds l t.addr 0 y ys back.2 in
    let hp = Links-last l 0 t.addr x xs front in
    let p_y : p ≢ y.addr =
      λ e. has-apart y.addr p (x ∷ xs) (apart y.addr (has-here y ys)) (last-has x xs) (sym e) in
    let p_t : p ≢ t.addr = λ e. has-apart t.addr p (x ∷ xs) out (last-has x xs) (sym e) in
    let y_t : y.addr ≢ t.addr = has-first t.addr y ys out_ys in
    let t_x : t.addr ≢ x.addr = λ e. has-first t.addr x xs out (sym e) in
    let tail : l.tail ≡ last x.addr (xs ++ y ∷ ys) =
      i.ends ∙ last-append x.addr xs (t ∷ y ∷ ys) ∙ sym (last-append x.addr xs (y ∷ ys)) in
    let l' : TimerList = record l { nodes = cut l.nodes p np y.addr ny } in
    let out_all = has-both t.addr (x ∷ xs) (y ∷ ys) out out_ys in
    let loose : IsLoose l' t (x ∷ xs ++ y ∷ ys) = record {
      prev = p;
      next = y.addr;
      stored = record {
        ne_null = ht.ne_null;
        holds = cut-other l.nodes p np y.addr ny t.addr p_t y_t ∙ ht.holds;
      };
      out = out_all;
    } in
    rw (move_middle rounds t.addr x.addr l (node t p y.addr) np ny i.starts t_x hp hy p_y) (
      Returns-map (add_after rounds t.addr x.addr l') (λ _ k. Inserted 0 t x (xs ++ y ∷ ys) l' k)
        (λ _ k. Becomes l k ((x ∷ xs) ++ t ∷ y ∷ ys) (x ∷ insert t (xs ++ y ∷ ys)))
        (λ _ k v. record {
          is_list = Inserted-IsList t x (xs ++ y ∷ ys) l' k v i.starts d out_all;
          same = λ a o.
              let behind = has-back a (x ∷ xs) (t ∷ y ∷ ys) o in
              v.same a (
                has-neither a t (x ∷ xs ++ y ∷ ys) (has-first a t (y ∷ ys) behind) (
                  has-both a (x ∷ xs) (y ∷ ys) (has-front a (x ∷ xs) (t ∷ y ∷ ys) o)
                    (has-rest a t (y ∷ ys) behind)))
              ∙ cut-other l.nodes p np y.addr ny a (has-last x xs (t ∷ y ∷ ys) a o)
                  (has-first a y ys (has-rest a t (y ∷ ys) behind));
        })
        (add_after_lem rounds 0 t x (xs ++ y ∷ ys) l'
          (cut_middle l.nodes x t y xs ys i.linked i.distinct) d loose tail r))

-- On a list of timers, adjusting one of them, whose node has its new time already, leaves the list if
-- the timer is the last one or ends before the one behind it, and else gives the list with the timer
-- taken out and put before the first timer, behind the head, that ends later. No node outside the list
-- is touched.
pub adjust_timer_lem :
    (rounds : ℕ) (xs : List Timer) (t : Timer) (ys : List Timer) (l : TimerList)
    → IsList l (xs ++ t ∷ ys)
    → length (xs ++ ys) ≤ rounds
    → Returns
        (adjust_timer rounds t.addr l)
        (λ _ l'. Becomes l l' (xs ++ t ∷ ys) (adjusted xs t ys))
adjust_timer_lem rounds xs t [] l i r =
    let (_, back) = Links-split l.nodes 0 0 xs (t ∷ []) i.linked in
    rw
      (adjust_last rounds t.addr l (node t (last 0 xs) 0) (Links-Holds l (last 0 xs) 0 t [] back)
        refl)
      (Becomes-self l (xs ++ t ∷ []) (xs ++ t ∷ []) i)
adjust_timer_lem rounds xs t (y ∷ ys) l i r =
    let (_, back) = Links-split l.nodes 0 0 xs (t ∷ y ∷ ys) i.linked in
    let n = node t (last 0 xs) y.addr in
    let ht = Links-Holds l (last 0 xs) 0 t (y ∷ ys) back in
    let hy = Links-Holds l t.addr 0 y ys back.2 in
    elim (Bool-cases (ltb t.expire y.expire)) [
      | inl e ↦
          rw (adjust_stays rounds t.addr l n (node y t.addr (first ys 0)) ht hy e, e)
            (Becomes-self l (xs ++ t ∷ y ∷ ys) (xs ++ t ∷ y ∷ ys) i)
      | inr e ↦
          rw (adjust_moves rounds t.addr l n (node y t.addr (first ys 0)) ht hy e, e)
            (moved rounds xs t y ys l i r)
    ]
  where
    moved :
        (rounds : ℕ) (xs : List Timer) (t y : Timer) (ys : List Timer) (l : TimerList)
        → IsList l (xs ++ t ∷ y ∷ ys)
        → length (xs ++ y ∷ ys) ≤ rounds
        → Returns
            (move_timer rounds t.addr (node t (last 0 xs) y.addr) l)
            (λ _ l'. Becomes l l' (xs ++ t ∷ y ∷ ys) (insert_behind t (xs ++ y ∷ ys)))
    moved rounds [] t y ys l i r = adjust_first_lem rounds t y ys l i (omega arith)
    moved rounds (x ∷ xs) t y ys l i r = adjust_middle_lem rounds x t y xs ys l i (omega arith)
