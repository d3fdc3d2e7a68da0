-- ===== src/Timer.antt =====
-- timer/lst_timer.h and lst_timer.cpp: the timers as nodes of a doubly linked list. A pointer is a
-- natural number, null is 0, and a command is `none` where the source reads or writes through null or
-- through a pointer to no node, or where its loop has no rounds left. `delete` takes the node out of
-- the store.
pub mod Chain
pub mod Place
pub mod Insert
pub mod Add
pub mod Cut
pub mod Remove
pub mod Adjust
pub mod Tick
pub mod Order
mod Tests
use ai_inference_gateway.Prelude.{
  ℕ, zero, suc, Bool, true, false, List, [], ◌∷◌, Option, none, some, if◌then◌else◌, ltb, ◌==◌,
  ◌&&◌, ◌||◌, update,
}

-- `util_timer`; `user_data` is the index of the `client_data`.
pub record Node : Type 0 where
  pub expire : ℕ
  pub user_data : ℕ
  pub prev : ℕ
  pub next : ℕ

-- `sort_timer_lst`, with the nodes by their addresses.
pub record TimerList : Type 0 where
  pub nodes : ℕ → Option Node
  pub head : ℕ
  pub tail : ℕ

abbrev pub Cmd : Type 0 → Type 0
Cmd A = TimerList → Option (A × TimerList)

abbrev pub pure : {A : Type 0} → A → Cmd A
pure a l = some (a, l)

infixl 5 ◌>>=◌ ◌>>◌
abbrev pub ◌>>=◌ : {A B : Type 0} → Cmd A → (A → Cmd B) → Cmd B
◌>>=◌ m f l = elim (m l) [ none ↦ none | some (a, l') ↦ f a l' ]

abbrev pub ◌>>◌ : {B : Type 0} → Cmd (Unit {0}) → Cmd B → Cmd B
m >> n = m >>= λ _. n

-- `*p`
unfoldable pub load : ℕ → Cmd Node
load p l = if p == 0 then none else elim (l.nodes p) [ none ↦ none | some n ↦ some (n, l) ]

unfoldable pub store : ℕ → Option Node → Cmd (Unit {0})
store p n l = some (tt, record l { nodes = update l.nodes p n })

-- `p->next = q`, `p->prev = q`, `p->expire = t`, `delete p`
unfoldable pub set_next : ℕ → ℕ → Cmd (Unit {0})
unfolding load store
set_next p q = do n ← load p; store p (some (record n { next = q }))

unfoldable pub set_prev : ℕ → ℕ → Cmd (Unit {0})
unfolding load store
set_prev p q = do n ← load p; store p (some (record n { prev = q }))

unfoldable pub set_expire : ℕ → ℕ → Cmd (Unit {0})
unfolding load store
set_expire p t = do n ← load p; store p (some (record n { expire = t }))

unfoldable pub free : ℕ → Cmd (Unit {0})
unfolding load store
free p = do load p >>= λ _. store p none

abbrev pub get_head : Cmd ℕ
get_head l = some (l.head, l)

abbrev pub get_tail : Cmd ℕ
get_tail l = some (l.tail, l)

abbrev pub set_head : ℕ → Cmd (Unit {0})
set_head p l = some (tt, record l { head = p })

abbrev pub set_tail : ℕ → Cmd (Unit {0})
set_tail p l = some (tt, record l { tail = p })

unfoldable pub new_timer_list : TimerList
new_timer_list = record { nodes = λ p. none; head = 0; tail = 0 }

-- The end of the loop below: `timer` becomes the last node.
unfoldable pub link_last : ℕ → ℕ → Cmd (Unit {0})
unfolding set_next set_prev
link_last timer prev = do set_next prev timer; set_next timer 0; set_prev timer prev; set_tail timer

-- `timer` goes between `prev` and `tmp`.
unfoldable pub link_between : ℕ → ℕ → ℕ → Cmd (Unit {0})
unfolding set_next set_prev
link_between timer prev tmp = do
  set_next prev timer
  set_prev tmp timer
  set_next timer tmp
  set_prev timer prev

-- The loop of the private `add_timer`, and what follows it.
unfoldable pub insert_loop : ℕ → ℕ → ℕ → ℕ → Cmd (Unit {0})
unfolding load link_last link_between
insert_loop zero timer prev tmp = λ l. none
insert_loop (suc rounds) timer prev tmp = if tmp == 0 then link_last timer prev else do
  t ← load timer
  n ← load tmp
  if ltb t.expire n.expire then link_between timer prev tmp else insert_loop rounds timer tmp n.next

-- `add_timer(timer, lst_head)`
unfoldable pub add_after : ℕ → ℕ → ℕ → Cmd (Unit {0})
unfolding load insert_loop
add_after rounds timer lst_head = do n ← load lst_head; insert_loop rounds timer lst_head n.next

-- `add_timer` for a timer and the head, neither of them null.
unfoldable pub add_to : ℕ → ℕ → ℕ → Cmd (Unit {0})
unfolding load set_next set_prev add_after
add_to rounds timer head = do
  t ← load timer
  h ← load head
  if ltb t.expire h.expire
      then (do set_next timer head; set_prev head timer; set_head timer)
      else add_after rounds timer head

unfoldable pub add_timer : ℕ → ℕ → Cmd (Unit {0})
unfolding add_to
add_timer rounds timer = if timer == 0 then pure tt else do
  head ← get_head
  if head == 0 then (do set_head timer; set_tail timer) else add_to rounds timer head

-- `adjust_timer` where the timer has to move: `t` and `n` are it and the node after it.
unfoldable pub move_timer : ℕ → ℕ → Node → Cmd (Unit {0})
unfolding load set_next set_prev add_after
move_timer rounds timer t = do
  head ← get_head
  if timer == head
      then (do set_head t.next; set_prev t.next 0; set_next timer 0; add_after rounds timer t.next)
      else do set_next t.prev t.next; set_prev t.next t.prev; add_after rounds timer head

unfoldable pub adjust_timer : ℕ → ℕ → Cmd (Unit {0})
unfolding load move_timer
adjust_timer rounds timer = if timer == 0 then pure tt else do
  t ← load timer
  if t.next == 0
      then pure tt
      else do n ← load t.next; if ltb t.expire n.expire then pure tt else move_timer rounds timer t

-- The four cases of `del_timer`.
unfoldable pub unlink : ℕ → ℕ → ℕ → Cmd (Unit {0})
unfolding load set_next set_prev
unlink timer head tail =
    if (timer == head) && (timer == tail)
    then (do set_head 0; set_tail 0)
    else if timer == head
    then (do h ← load head; set_head h.next; set_prev h.next 0)
    else if timer == tail
    then (do e ← load tail; set_tail e.prev; set_next e.prev 0)
    else do t ← load timer; set_next t.prev t.next; set_prev t.next t.prev

unfoldable pub del_timer : ℕ → Cmd (Unit {0})
unfolding unlink free
del_timer timer =
    if timer == 0
    then pure tt
    else do head ← get_head; tail ← get_tail; unlink timer head tail; free timer

-- `if(head) head->prev=NULL;`
unfoldable pub cut_head : ℕ → Cmd (Unit {0})
unfolding set_prev
cut_head head = if head == 0 then pure tt else set_prev head 0

-- The loop of `tick`: the result is the `user_data` of the timers that it calls back, in order.
unfoldable pub tick_loop : ℕ → ℕ → ℕ → Cmd (List ℕ)
unfolding load free cut_head
tick_loop zero cur tmp = λ l. none
tick_loop (suc rounds) cur tmp = if tmp == 0 then pure [] else do
  n ← load tmp
  if ltb cur n.expire then pure [] else do
    set_head n.next
    cut_head n.next
    free tmp
    users ← tick_loop rounds cur n.next
    pure (n.user_data ∷ users)

unfoldable pub tick : ℕ → ℕ → Cmd (List ℕ)
unfolding tick_loop
tick rounds cur = do head ← get_head; tick_loop rounds cur head
