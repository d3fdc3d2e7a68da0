-- ===== src/Timer/Remove.antt =====
-- `del_timer` of lst_timer.cpp takes a timer out of the list and frees its node.
use ai_inference_gateway.Prelude.{
  ◌≡◌, ◌≢◌, refl, sym, ◌∙◌, subst, false, List, [], ◌∷◌, ◌++◌, none, some, ◌==◌, update, arith,
}
use ai_inference_gateway.Timer.{TimerList, del_timer}
use ai_inference_gateway.Timer.Chain.{
  Timer, node, first, last, IsList, Returns, SameOutside, frame-update, has-first, has-rest,
  has-apart, Holds, not_null, Links-Holds, Links-split, Links-append, IsDistinct-split, last-append,
  update_other, update_same, has-here, is-same, is-other, has-back, has-both,
}
use ai_inference_gateway.Timer.Cut.{
  last-has, last_node, Links-last, relink_last, relink_first, cut, IsDistinct-without, cut_middle,
  del_timer_free, unlink_only, unlink_first, unlink_last, unlink_middle, cut-other, has-last,
}

-- The list is `xs ++ ys` now, the node of the timer is gone, and no other node outside the list is
-- touched.
pub record Removed (l : TimerList) (t : Timer) (xs ys : List Timer) (l' : TimerList) : Type 0 where
  pub is_list : IsList l' (xs ++ ys)
  pub freed : l'.nodes t.addr ≡ none
  pub same : SameOutside (xs ++ t ∷ ys) l.nodes l'.nodes

del_only :
    (t : Timer) (l : TimerList)
    → IsList l (t ∷ [])
    → Returns (del_timer t.addr l) (λ _ l'. Removed l t [] [] l')
del_only t l i =
    let h = Links-Holds l 0 0 t [] i.linked in
    rw
      (del_timer_free t.addr l (record l { head = 0; tail = 0 }) (node t 0 0)
        (not_null l t.addr _ h)
        (unlink_only t.addr l.head l.tail l (ground (arith, i.starts, i.ends)))
        (record { ne_null = h.ne_null; holds = h.holds }))
      (record {
        is_list = record { starts = refl; ends = tt; linked = tt; distinct = tt };
        freed = update_same l.nodes t.addr none;
        same = λ a o. update_other l.nodes t.addr a none (has-first a t [] o);
      })

del_first :
    (t y : Timer) (ys : List Timer) (l : TimerList)
    → IsList l (t ∷ y ∷ ys)
    → Returns (del_timer t.addr l) (λ _ l'. Removed l t [] (y ∷ ys) l')
del_first t y ys l i =
    let ht = Links-Holds l 0 0 t (y ∷ ys) i.linked in
    let hy = Links-Holds l t.addr 0 y ys i.linked.2 in
    let out = i.distinct.0 in
    let apart : y.addr ≢ t.addr = has-first t.addr y ys out in
    let not_last : t.addr ≢ last y.addr ys = has-apart t.addr _ (y ∷ ys) out (last-has y ys) in
    let head : Holds l l.head (node t 0 y.addr) =
      subst (λ p. Holds l p (node t 0 y.addr)) (sym i.starts) ht in
    let g = update l.nodes y.addr (some (node y 0 (first ys 0))) in
    rw
      (del_timer_free t.addr l (record l { head = y.addr; nodes = g }) (node t 0 y.addr)
        (not_null l t.addr _ ht)
        (unlink_first t.addr l.head l.tail l (node t 0 y.addr) (node y t.addr (first ys 0))
          (ground (arith, not_last, i.ends)) (ground (arith, i.starts)) head hy)
        (record {
          ne_null = ht.ne_null;
          holds = update_other l.nodes y.addr t.addr _ apart ∙ ht.holds;
        }))
      (record {
        is_list = record {
          starts = refl;
          ends = i.ends;
          linked =
              frame-update _ t.addr none 0 0 (y ∷ ys)
                (relink_first l.nodes t.addr 0 0 y ys i.linked.2 i.distinct.1.0) out;
          distinct = i.distinct.1;
        };
        freed = update_same g t.addr none;
        same = λ a o.
            update_other g t.addr a none (has-first a t (y ∷ ys) o)
            ∙ update_other l.nodes y.addr a (some (node y 0 (first ys 0)))
                (has-first a y ys (has-rest a t (y ∷ ys) o));
      })

del_last :
    (x t : Timer) (xs : List Timer) (l : TimerList)
    → IsList l ((x ∷ xs) ++ t ∷ [])
    → Returns (del_timer t.addr l) (λ _ l'. Removed l t (x ∷ xs) [] l')
del_last x t xs l i =
    let p = last x.addr xs in
    let np = last_node x 0 xs t.addr in
    let (front, back) = Links-split l.nodes 0 0 (x ∷ xs) (t ∷ []) i.linked in
    let (d, apart, out, _) = IsDistinct-without t (x ∷ xs) [] i.distinct in
    let ht = Links-Holds l p 0 t [] back in
    let hp = Links-last l 0 t.addr x xs front in
    let other : p ≢ t.addr = λ e. has-apart t.addr p (x ∷ xs) out (last-has x xs) (sym e) in
    let tail : l.tail ≡ t.addr = i.ends ∙ last-append x.addr xs (t ∷ []) in
    let at_tail : Holds l l.tail (node t p 0) = subst (λ q. Holds l q (node t p 0)) (sym tail) ht in
    let not_head : (t.addr == l.head) ≡ false =
      is-other t.addr l.head x.addr (λ e. has-first t.addr x xs out (sym e)) i.starts in
    let g = update l.nodes p (some (record np { next = 0 })) in
    rw
      (del_timer_free t.addr l (record l { tail = p; nodes = g }) (node t p 0)
        (not_null l t.addr _ ht)
        (unlink_last t.addr l.head l.tail l (node t p 0) np not_head (is-same t.addr l.tail tail)
          at_tail hp)
        (record {
          ne_null = ht.ne_null;
          holds = update_other l.nodes p t.addr (some (record np { next = 0 })) other ∙ ht.holds;
        }))
      (record {
        is_list = record {
          starts = i.starts;
          ends = sym (last-append x.addr xs []);
          linked =
              Links-append _ 0 0 (x ∷ xs) []
                (frame-update g t.addr none 0 0 (x ∷ xs)
                  (relink_last l.nodes 0 t.addr 0 x xs front
                    (IsDistinct-split (x ∷ xs) (t ∷ []) i.distinct).0)
                  out)
                tt;
          distinct = d;
        };
        freed = update_same g t.addr none;
        same = λ a o.
            update_other g t.addr a none (has-first a t [] (has-back a (x ∷ xs) (t ∷ []) o))
            ∙ update_other l.nodes p a (some (record np { next = 0 })) (has-last x xs (t ∷ []) a o);
      })

del_middle :
    (x t y : Timer) (xs ys : List Timer) (l : TimerList)
    → IsList l ((x ∷ xs) ++ t ∷ y ∷ ys)
    → Returns (del_timer t.addr l) (λ _ l'. Removed l t (x ∷ xs) (y ∷ ys) l')
del_middle x t y xs ys l i =
    let p = last x.addr xs in
    let np = last_node x 0 xs t.addr in
    let ny = node y t.addr (first ys 0) in
    let (front, back) = Links-split l.nodes 0 0 (x ∷ xs) (t ∷ y ∷ ys) i.linked in
    let (d, apart, out, out_ys) = IsDistinct-without t (x ∷ xs) (y ∷ ys) i.distinct in
    let ht = Links-Holds l p 0 t (y ∷ ys) back in
    let hy = Links-Holds l t.addr 0 y ys back.2 in
    let hp = Links-last l 0 t.addr x xs front in
    let p_y : p ≢ y.addr =
      λ e. has-apart y.addr p (x ∷ xs) (apart y.addr (has-here y ys)) (last-has x xs) (sym e) in
    let p_t : p ≢ t.addr = λ e. has-apart t.addr p (x ∷ xs) out (last-has x xs) (sym e) in
    let y_t : y.addr ≢ t.addr = has-first t.addr y ys out_ys in
    let tail : l.tail ≡ last y.addr ys = i.ends ∙ last-append x.addr xs (t ∷ y ∷ ys) in
    let t_tail : t.addr ≢ last y.addr ys = has-apart t.addr _ (y ∷ ys) out_ys (last-has y ys) in
    let not_head : (t.addr == l.head) ≡ false =
      is-other t.addr l.head x.addr (λ e. has-first t.addr x xs out (sym e)) i.starts in
    let g = cut l.nodes p np y.addr ny in
    let gt : g t.addr ≡ some (node t p y.addr) =
      cut-other l.nodes p np y.addr ny t.addr p_t y_t ∙ ht.holds in
    rw
      (del_timer_free t.addr l (record l { nodes = g }) (node t p y.addr) (not_null l t.addr _ ht)
        (unlink_middle t.addr l.head l.tail l (node t p y.addr) np ny not_head
          (is-other t.addr l.tail (last y.addr ys) t_tail tail) ht hp hy p_y)
        (record { ne_null = ht.ne_null; holds = gt }))
      (record {
        is_list = record {
          starts = i.starts;
          ends = tail ∙ sym (last-append x.addr xs (y ∷ ys));
          linked =
              frame-update g t.addr none 0 0 ((x ∷ xs) ++ y ∷ ys)
                (cut_middle l.nodes x t y xs ys i.linked i.distinct)
                (has-both t.addr (x ∷ xs) (y ∷ ys) out out_ys);
          distinct = d;
        };
        freed = update_same g t.addr none;
        same = λ a o.
            update_other g t.addr a none
              (has-first a t (y ∷ ys) (has-back a (x ∷ xs) (t ∷ y ∷ ys) o))
            ∙ cut-other l.nodes p np y.addr ny a (has-last x xs (t ∷ y ∷ ys) a o)
                (has-first a y ys (has-rest a t (y ∷ ys) (has-back a (x ∷ xs) (t ∷ y ∷ ys) o)));
      })

-- On a list of timers, deleting one of them gives the list without it, in the same order, frees that
-- timer's node alone, and touches no node outside the list.
pub del_timer_lem :
    (xs ys : List Timer) (t : Timer) (l : TimerList)
    → IsList l (xs ++ t ∷ ys)
    → Returns (del_timer t.addr l) (λ _ l'. Removed l t xs ys l')
del_timer_lem [] [] t l i = del_only t l i
del_timer_lem [] (y ∷ ys) t l i = del_first t y ys l i
del_timer_lem (x ∷ xs) [] t l i = del_last x t xs l i
del_timer_lem (x ∷ xs) (y ∷ ys) t l i = del_middle x t y xs ys l i
