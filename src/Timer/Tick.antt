-- ===== src/Timer/Tick.antt =====
-- `tick` of lst_timer.cpp calls back the timers at the head whose time has come, and frees them.
use ai_inference_gateway.Prelude.{
  ℕ, zero, suc, ◌<◌, ◌≡◌, refl, sym, ◌∙◌, subst, true, false, List, [], ◌∷◌, map, length, Option,
  none, some, if◌then◌else◌, ltb, ◌==◌, update, arith, Bool-cases, inl, inr,
}
use ai_inference_gateway.Timer.{Node, TimerList, ◌>>=◌, pure, free, cut_head, tick_loop, tick}
use ai_inference_gateway.Timer.Chain.{
  Timer, node, first, has, Links, EndsAt, IsList, Returns, SameOutside, Returns-bind, frame-update,
  has-first, has-rest, Holds, not_null, load-bind, bind_lem, if-then, if-else, Links-Holds,
  update_other, update_same,
}
use ai_inference_gateway.Timer.Cut.{relink_first, set_prev_lem, free_lem}

-- The timers that are due at `cur`, from the head on, and the others.
abbrev pub due : ℕ → List Timer → List Timer
due cur [] = []
due cur (t ∷ ts) = let rest = due cur ts in if ltb cur t.expire then [] else t ∷ rest

abbrev pub left : ℕ → List Timer → List Timer
left cur [] = []
left cur (t ∷ ts) = let rest = left cur ts in if ltb cur t.expire then t ∷ ts else rest

-- The users called back are those of the timers due, in order, the list is what is left, the nodes of
-- the timers due are gone, and no node outside the list is touched.
pub record Ticked (cur : ℕ) (l : TimerList) (ts : List Timer) (users : List ℕ) (l' : TimerList)
    : Type 0 where
  pub is_list : IsList l' (left cur ts)
  pub called : users ≡ map (λ t. t.user) (due cur ts)
  pub freed : (a : ℕ) → has a (due cur ts) ≡ true → l'.nodes a ≡ none
  pub same : SameOutside ts l.nodes l'.nodes

-- The store after `if(head) head->prev=NULL;`.
record HeadCut (l : TimerList) (t : Timer) (ts : List Timer) : Type 0 where
  nodes : ℕ → Option Node
  cuts :
      cut_head (first ts 0) (record l { head = first ts 0 })
      ≡ some (tt, record l { head = first ts 0; nodes = nodes })
  linked : Links nodes 0 ts 0
  kept : Holds (record l { nodes = nodes }) t.addr (node t 0 (first ts 0))
  same : SameOutside ts l.nodes nodes

head_cut : (l : TimerList) (t : Timer) (ts : List Timer) → IsList l (t ∷ ts) → HeadCut l t ts
unfolding cut_head
head_cut l t [] i = record {
  nodes = l.nodes;
  cuts = refl;
  linked = tt;
  kept = Links-Holds l 0 0 t [] i.linked;
  same = λ a o. refl;
}
head_cut l t (y ∷ ys) i =
    let hy = Links-Holds l t.addr 0 y ys i.linked.2 in
    let g = update l.nodes y.addr (some (node y 0 (first ys 0))) in
    record {
      nodes = g;
      cuts =
          if-else (y.addr == 0) _ _ (record l { head = y.addr }) (not_null l y.addr _ hy)
          ∙ set_prev_lem (record l { head = y.addr }) y.addr 0 (node y t.addr (first ys 0))
              (record { ne_null = hy.ne_null; holds = hy.holds });
      linked = relink_first l.nodes t.addr 0 0 y ys i.linked.2 i.distinct.1.0;
      kept = record {
        ne_null = i.linked.0;
        holds =
            update_other l.nodes y.addr t.addr (some (node y 0 (first ys 0)))
              (has-first t.addr y ys i.distinct.0)
            ∙ i.linked.1;
      };
      same =
          λ a o. update_other l.nodes y.addr a (some (node y 0 (first ys 0))) (has-first a y ys o);
    }

EndsAt-rest : (p : ℕ) (t : Timer) (ts : List Timer) → EndsAt p (t ∷ ts) → EndsAt p ts
EndsAt-rest p t [] e = tt
EndsAt-rest p t (y ∷ ys) e = e

-- One round of the loop on a timer that is due: the list goes on without it.
record Round (cur : ℕ) (l : TimerList) (t : Timer) (ts : List Timer) : Type 0 where
  next : TimerList
  is_list : IsList next ts
  freed : next.nodes t.addr ≡ none
  same : SameOutside (t ∷ ts) l.nodes next.nodes
  goes_on :
      (rounds : ℕ)
      → tick_loop (suc rounds) cur t.addr l
        ≡ (tick_loop rounds cur (first ts 0) >>= λ users. pure (t.user ∷ users)) next

round :
    (cur : ℕ) (l : TimerList) (t : Timer) (ts : List Timer)
    → IsList l (t ∷ ts)
    → ltb cur t.expire ≡ false
    → Round cur l t ts
unfolding tick_loop
round cur l t ts i e =
    let c = head_cut l t ts i in
    let ht = Links-Holds l 0 0 t ts i.linked in
    let mid : TimerList = record l { head = first ts 0; nodes = c.nodes } in
    let next : TimerList = record l { head = first ts 0; nodes = update c.nodes t.addr none } in
    record {
      next = next;
      is_list = record {
        starts = refl;
        ends = EndsAt-rest l.tail t ts i.ends;
        linked = frame-update c.nodes t.addr none 0 0 ts c.linked i.distinct.0;
        distinct = i.distinct.1;
      };
      freed = update_same c.nodes t.addr none;
      same = λ a o.
          update_other c.nodes t.addr a none (has-first a t ts o) ∙ c.same a (has-rest a t ts o);
      goes_on = λ rounds.
          if-else (t.addr == 0) _ _ l (not_null l t.addr _ ht)
          ∙ load-bind l t.addr _ _ ht
          ∙ if-else (ltb cur t.expire) _ _ l e
          ∙ bind_lem (cut_head (first ts 0)) _ tt (record l { head = first ts 0 }) mid c.cuts
          ∙ bind_lem (free t.addr) _ tt mid next (
              free_lem mid t.addr (node t 0 (first ts 0))
                (record { ne_null = c.kept.ne_null; holds = c.kept.holds }));
    }

pub due-late :
    (cur : ℕ) (t : Timer) (ts : List Timer)
    → ltb cur t.expire ≡ true
    → (due cur (t ∷ ts) ≡ []) × (left cur (t ∷ ts) ≡ t ∷ ts)
due-late cur t ts e = (rw e refl, rw e refl)

pub due-now :
    (cur : ℕ) (t : Timer) (ts : List Timer)
    → ltb cur t.expire ≡ false
    → (due cur (t ∷ ts) ≡ t ∷ due cur ts) × (left cur (t ∷ ts) ≡ left cur ts)
due-now cur t ts e = (rw e refl, rw e refl)

has-due : (cur a : ℕ) (ts : List Timer) → has a ts ≡ false → has a (due cur ts) ≡ false
has-due cur a [] o = refl
has-due cur a (t ∷ ts) o = elim (Bool-cases (ltb cur t.expire)) [
  | inl e ↦ rw ((due-late cur t ts e).0) refl
  | inr e ↦ rw ((due-now cur t ts e).0) (ground (arith, o, has-due cur a ts (has-rest a t ts o)))
]

Ticked-none :
    (cur : ℕ) (l : TimerList) (ts : List Timer)
    → IsList l ts
    → due cur ts ≡ []
    → left cur ts ≡ ts
    → Ticked cur l ts [] l
Ticked-none cur l ts i d e = record {
  is_list = rw e i;
  called = rw d refl;
  freed = λ a h. absurd (ground (arith, d, h));
  same = λ a o. refl;
}

Ticked-Round :
    (cur : ℕ) (l l' : TimerList) (t : Timer) (ts : List Timer) (users : List ℕ)
    → has t.addr ts ≡ false
    → ltb cur t.expire ≡ false
    → (r : Round cur l t ts) → Ticked cur r.next ts users l'
    → Ticked cur l (t ∷ ts) (t.user ∷ users) l'
Ticked-Round cur l l' t ts users out e r v = record {
  is_list = rw ((due-now cur t ts e).1) v.is_list;
  called = rw ((due-now cur t ts e).0, v.called) refl;
  freed = λ a h. elim (Bool-cases (t.addr == a)) [
    | inl q ↦ subst (λ b. l'.nodes b ≡ none) (ground (arith, q)) (v.same t.addr out ∙ r.freed)
    | inr q ↦ v.freed a (rw q at (rw ((due-now cur t ts e).0) at h))
  ];
  same = λ a o. v.same a (has-rest a t ts o) ∙ r.same a o;
}

tick_loop_late :
    (rounds cur : ℕ) (t : Timer) (ts : List Timer) (l : TimerList)
    → IsList l (t ∷ ts)
    → ltb cur t.expire ≡ true
    → tick_loop (suc rounds) cur t.addr l ≡ some ([], l)
unfolding tick_loop
tick_loop_late rounds cur t ts l i e =
    let ht = Links-Holds l 0 0 t ts i.linked in
    if-else (t.addr == 0) _ _ l (not_null l t.addr _ ht)
    ∙ load-bind l t.addr _ _ ht
    ∙ if-then (ltb cur t.expire) _ _ l e

tick_loop_lem :
    (rounds cur : ℕ) (ts : List Timer) (l : TimerList)
    → IsList l ts
    → length ts < rounds
    → Returns (tick_loop rounds cur (first ts 0) l) (λ users l'. Ticked cur l ts users l')
unfolding tick_loop
tick_loop_lem zero cur ts l i r = absurd (omega arith)
tick_loop_lem (suc rounds) cur [] l i r = Ticked-none cur l [] i refl refl
tick_loop_lem (suc rounds) cur (t ∷ ts) l i r = elim (Bool-cases (ltb cur t.expire)) [
  | inl e ↦
      rw (tick_loop_late rounds cur t ts l i e)
        (Ticked-none cur l (t ∷ ts) i (due-late cur t ts e).0 (due-late cur t ts e).1)
  | inr e ↦
      let v = round cur l t ts i e in
      rw (v.goes_on rounds) (
        Returns-bind _ _ (λ users l'. Ticked cur v.next ts users l') _
          (tick_loop_lem rounds cur ts v.next v.is_list (omega arith))
          (λ users l' w. Ticked-Round cur l l' t ts users i.distinct.0 e v w))
]

-- On a list of timers, `tick` calls back the users of the timers whose time has come, from the head on
-- and in order, frees these timers' nodes, leaves the list that begins with the first timer that ends
-- later, touches no node outside the list, and is done in one round for each timer and one more.
pub tick_lem :
    (rounds cur : ℕ) (ts : List Timer) (l : TimerList)
    → IsList l ts
    → length ts < rounds
    → Returns (tick rounds cur l) (λ users l'. Ticked cur l ts users l')
unfolding tick
tick_lem rounds cur ts l i r =
    subst (λ h. Returns (tick_loop rounds cur h l) (λ users l'. Ticked cur l ts users l'))
      (sym i.starts) (tick_loop_lem rounds cur ts l i r)
