-- ===== src/Timer/Cut.antt =====
-- How lst_timer.cpp takes a node out of its list: the links it writes, and the cases of `unlink`.
use ai_inference_gateway.Prelude.{
  inl, inr, ℕ, ◌≡◌, ◌≢◌, sym, ◌∙◌, true, false, List, [], ◌∷◌, ◌++◌, Option, none, some, ◌==◌, ◌&&◌,
  update, arith, Bool-cases,
}
use ai_inference_gateway.Timer.{
  Node, TimerList, ◌>>◌, store, set_next, set_prev, free, unlink, del_timer,
}
use ai_inference_gateway.Timer.Chain.{
  Timer, node, first, last, has, Links, IsDistinct, frame-update, has-first, has-rest, has-apart,
  Holds, load-bind, bind_lem, if-then, if-else, Links-Holds, Links-split, Links-append,
  IsDistinct-split, IsDistinct-append, update_other, has-front,
}

pub last-has : (x : Timer) (xs : List Timer) → has (last x.addr xs) (x ∷ xs) ≡ true
last-has x [] = ground arith
last-has x (y ∷ ys) = ground (arith, last-has y ys)

-- Where a list goes on behind its last timer.
pub has-last :
    (x : Timer) (xs ys : List Timer) (a : ℕ) → has a ((x ∷ xs) ++ ys) ≡ false → last x.addr xs ≢ a
has-last x xs ys a o =
    λ e. has-apart a (last x.addr xs) (x ∷ xs) (has-front a (x ∷ xs) ys o) (last-has x xs) (sym e)

-- The last node of a chain.
pub last_node : Timer → ℕ → List Timer → ℕ → Node
last_node x b [] stop = node x b stop
last_node x b (y ∷ ys) stop = last_node y x.addr ys stop

pub Links-last :
    (l : TimerList) (b stop : ℕ) (x : Timer) (xs : List Timer)
    → Links l.nodes b (x ∷ xs) stop
    → Holds l (last x.addr xs) (last_node x b xs stop)
unfolding last_node
Links-last l b stop x [] k = Links-Holds l b stop x [] k
Links-last l b stop x (y ∷ ys) k = Links-last l x.addr stop y ys k.2

-- A chain whose last node points elsewhere, and one whose first node does.
pub relink_last :
    (h : ℕ → Option Node) (b stop to : ℕ) (x : Timer) (xs : List Timer)
    → Links h b (x ∷ xs) stop
    → IsDistinct (x ∷ xs)
    → Links
        (update h (last x.addr xs) (some (record (last_node x b xs stop) { next = to })))
        b
        (x ∷ xs)
        to
unfolding last_node
relink_last h b stop to x [] k d = (k.0, ground arith, tt)
relink_last h b stop to x (y ∷ ys) k d = (
  k.0,
  update_other h (last y.addr ys) x.addr _
        (λ e. has-apart x.addr (last y.addr ys) (y ∷ ys) d.0 (last-has y ys) (sym e))
      ∙ k.1,
  relink_last h x.addr stop to y ys k.2 d.1,
)

pub relink_first :
    (h : ℕ → Option Node) (b stop to : ℕ) (y : Timer) (ys : List Timer)
    → Links h b (y ∷ ys) stop
    → has y.addr ys ≡ false
    → Links (update h y.addr (some (node y to (first ys stop)))) to (y ∷ ys) stop
relink_first h b stop to y ys k o =
    (k.0, ground arith, frame-update h y.addr _ y.addr stop ys k.2 o)

-- The store after `p->next = y; y->prev = p;`, and its chain without what was between.
abbrev pub cut : (ℕ → Option Node) → ℕ → Node → ℕ → Node → ℕ → Option Node
cut h p np y ny =
    update (update h p (some (record np { next = y }))) y (some (record ny { prev = p }))

pub cut-other :
    (h : ℕ → Option Node) (p : ℕ) (np : Node) (y : ℕ) (ny : Node) (a : ℕ)
    → p ≢ a
    → y ≢ a
    → cut h p np y ny a ≡ h a
cut-other h p np y ny a e f =
    update_other (update h p (some (record np { next = y }))) y a (some (record ny { prev = p })) f
    ∙ update_other h p a (some (record np { next = y })) e

pub IsDistinct-without :
    (t : Timer) (xs ys : List Timer)
    → IsDistinct (xs ++ t ∷ ys)
    → IsDistinct (xs ++ ys)
      × ((a : ℕ) → has a ys ≡ true → has a xs ≡ false)
      × (has t.addr xs ≡ false)
      × (has t.addr ys ≡ false)
IsDistinct-without t xs ys d =
    let (front, back, apart) = IsDistinct-split xs (t ∷ ys) d in
    let apart_ys : (a : ℕ) → has a ys ≡ true → has a xs ≡ false =
      λ a i. apart a (ground (arith, i)) in
    (IsDistinct-append xs ys front back.1 apart_ys, apart_ys, apart t.addr (ground arith), back.0)

-- Of two lists that share no address, neither has one of the other's.
pub has-swap :
    (xs ys : List Timer)
    → ((a : ℕ) → has a ys ≡ true → has a xs ≡ false)
    → (a : ℕ) → has a xs ≡ true
    → has a ys ≡ false
has-swap xs ys apart a i = elim (Bool-cases (has a ys)) [
  | inl j ↦ ground (arith, i, apart a j)
  | inr j ↦ j
]

pub cut_middle :
    (h : ℕ → Option Node) (x t y : Timer) (xs ys : List Timer)
    → Links h 0 ((x ∷ xs) ++ t ∷ y ∷ ys) 0
    → IsDistinct ((x ∷ xs) ++ t ∷ y ∷ ys)
    → Links
        (cut h (last x.addr xs) (last_node x 0 xs t.addr) y.addr (node y t.addr (first ys 0)))
        0
        ((x ∷ xs) ++ y ∷ ys)
        0
cut_middle h x t y xs ys k d =
    let (front, back) = Links-split h 0 0 (x ∷ xs) (t ∷ y ∷ ys) k in
    let (dx, dy, apart) = IsDistinct-split (x ∷ xs) (t ∷ y ∷ ys) d in
    let p = last x.addr xs in
    let out_y : has y.addr (x ∷ xs) ≡ false = apart y.addr (ground arith) in
    let out_p : has p (y ∷ ys) ≡ false =
      has-rest p t (y ∷ ys) (has-swap (x ∷ xs) (t ∷ y ∷ ys) apart p (last-has x xs)) in
    let other : p ≢ y.addr = λ e. has-first p y ys out_p (sym e) in
    Links-append _ 0 0 (x ∷ xs) (y ∷ ys)
      (frame-update _ y.addr _ 0 y.addr (x ∷ xs) (relink_last h 0 t.addr y.addr x xs front dx)
        out_y)
      (relink_first _ t.addr 0 p y ys (frame-update h p _ t.addr 0 (y ∷ ys) back.2 out_p) dy.1.0)

-- `free` after a command, and the four cases of `unlink`.
pub free_lem :
    (l : TimerList) (p : ℕ) (n : Node)
    → Holds l p n
    → free p l ≡ some (tt, record l { nodes = update l.nodes p none })
unfolding free store
free_lem l p n h = load-bind l p n _ h

pub del_timer_free :
    (t : ℕ) (l l' : TimerList) (n : Node)
    → (t == 0) ≡ false
    → unlink t l.head l.tail l ≡ some (tt, l')
    → Holds l' t n
    → del_timer t l ≡ some (tt, record l' { nodes = update l'.nodes t none })
unfolding del_timer
del_timer_free t l l' n nt e h =
    if-else (t == 0) _ _ l nt
    ∙ bind_lem (unlink t l.head l.tail) (λ _. free t) tt l l' e
    ∙ free_lem l' t n h

pub unlink_only :
    (t head tail : ℕ) (l : TimerList)
    → ((t == head) && (t == tail)) ≡ true
    → unlink t head tail l ≡ some (tt, record l { head = 0; tail = 0 })
unfolding unlink
unlink_only t head tail l e = if-then ((t == head) && (t == tail)) _ _ l e

pub set_prev_lem :
    (l : TimerList) (p q : ℕ) (n : Node)
    → Holds l p n
    → set_prev p q l
      ≡ some (tt, record l { nodes = update l.nodes p (some (record n { prev = q })) })
unfolding set_prev store
set_prev_lem l p q n h = load-bind l p n _ h

pub set_next_lem :
    (l : TimerList) (p q : ℕ) (n : Node)
    → Holds l p n
    → set_next p q l
      ≡ some (tt, record l { nodes = update l.nodes p (some (record n { next = q })) })
unfolding set_next store
set_next_lem l p q n h = load-bind l p n _ h

pub unlink_first :
    (t head tail : ℕ) (l : TimerList) (h n : Node)
    → ((t == head) && (t == tail)) ≡ false
    → (t == head) ≡ true
    → Holds l head h
    → Holds l h.next n
    → unlink t head tail l
      ≡ some (
        tt,
        record l { head = h.next; nodes = update l.nodes h.next (some (record n { prev = 0 })) },
      )
unfolding unlink
unlink_first t head tail l h n e f hh hn =
    if-else ((t == head) && (t == tail)) _ _ l e
    ∙ if-then (t == head) _ _ l f
    ∙ load-bind l head h _ hh
    ∙ set_prev_lem (record l { head = h.next }) h.next 0 n
        (record { ne_null = hn.ne_null; holds = hn.holds })

pub unlink_last :
    (t head tail : ℕ) (l : TimerList) (e p : Node)
    → (t == head) ≡ false
    → (t == tail) ≡ true
    → Holds l tail e
    → Holds l e.prev p
    → unlink t head tail l
      ≡ some (
        tt,
        record l { tail = e.prev; nodes = update l.nodes e.prev (some (record p { next = 0 })) },
      )
unfolding unlink
unlink_last t head tail l e p f g he hp =
    if-else ((t == head) && (t == tail)) _ _ l (ground (arith, f))
    ∙ if-else (t == head) _ _ l f
    ∙ if-then (t == tail) _ _ l g
    ∙ load-bind l tail e _ he
    ∙ set_next_lem (record l { tail = e.prev }) e.prev 0 p
        (record { ne_null = hp.ne_null; holds = hp.holds })

-- `t->prev->next = t->next; t->next->prev = t->prev;`
pub cut_lem :
    (t : Node) (l : TimerList) (np ny : Node)
    → Holds l t.prev np
    → Holds l t.next ny
    → t.prev ≢ t.next
    → (do set_next t.prev t.next; set_prev t.next t.prev) l
      ≡ some (tt, record l { nodes = cut l.nodes t.prev np t.next ny })
cut_lem t l np ny hp hy apart =
    bind_lem (set_next t.prev t.next) _ tt l _ (set_next_lem l t.prev t.next np hp)
    ∙ set_prev_lem _ t.next t.prev ny (record {
      ne_null = hy.ne_null;
      holds = update_other l.nodes t.prev t.next _ apart ∙ hy.holds;
    })

pub unlink_middle :
    (t head tail : ℕ) (l : TimerList) (n np ny : Node)
    → (t == head) ≡ false
    → (t == tail) ≡ false
    → Holds l t n
    → Holds l n.prev np
    → Holds l n.next ny
    → n.prev ≢ n.next
    → unlink t head tail l ≡ some (tt, record l { nodes = cut l.nodes n.prev np n.next ny })
unfolding unlink
unlink_middle t head tail l n np ny f g ht hp hy apart =
    if-else ((t == head) && (t == tail)) _ _ l (ground (arith, f))
    ∙ if-else (t == head) _ _ l f
    ∙ if-else (t == tail) _ _ l g
    ∙ load-bind l t n _ ht
    ∙ cut_lem n l np ny hp hy apart
