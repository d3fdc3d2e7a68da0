-- ===== src/WebServer/Serves.antt =====
-- The invariant of webserver.cpp's main thread, and that each of its operations on timers keeps it.
use ai_inference_gateway.Prelude.{
  ℕ, ◌+◌, ◌*◌, ◌≤◌, ◌<◌, ◌≡◌, refl, sym, ap, ◌∙◌, subst, Bool, true, false, List, [], ◌∷◌, ◌++◌,
  map, length, none, some, if◌then◌else◌, ◌==◌, arith, update,
}
use ai_inference_gateway.Timer.{
  Node, TimerList, Cmd, set_expire, load, adjust_timer, del_timer, tick,
}
use ai_inference_gateway.Timer.Chain.{
  Timer, node, first, last, IsList, Returns, Returns-bind, Links-split, Links-Holds, Holds,
  load_lem, not_null,
}
use ai_inference_gateway.Timer.Remove.{Removed, del_timer_lem}
use ai_inference_gateway.Timer.Adjust.{adjusted}
use ai_inference_gateway.Timer.Order.{
  IsSorted, AllUpTo, select-IsSorted, select, is_due, is_later, Ordered, Expired,
  adjust_timer-IsSorted, tick-IsSorted,
}
use ai_inference_gateway.WebServer.{
  Server, Run, ◌>>=◌, pure, on_timers, cb_func, call_back, timer_handler, put_off, deal_timer,
  timeslot,
}
use ai_inference_gateway.WebServer.Accounts.{
  Accounts, Accounts-Perm, Accounts-cb_func, Accounts-call_back, Accounts-timers,
}
use ai_inference_gateway.WebServer.Shuffle.{middle-Perm, adjusted-Perm, select-Perm}
use ai_inference_gateway.WebServer.Until.{
  AllUpTo-le, AllUpTo-front, AllUpTo-Perm, IsSorted-without, until, set_expire_lem,
}
use mathlib.Core.List.Permᴰ as Perm

-- The list of timers is `ts`, in order, none ends later than three time slots from `now`, and the
-- timers are those of the open connections, one each.
pub record Serves {T : Type 0} (s : Server T) (now : ℕ) (ts : List Timer) : Type 0 where
  pub is_list : IsList s.timers ts
  pub sorted : IsSorted ts
  pub ends_by : AllUpTo (now + 3 * timeslot) ts
  pub accounts : Accounts s ts

pub on_timers-Returns :
    {T A : Type 0} (m : Cmd A) (s : Server T)
    → (P : A → TimerList → Type 0) (Q : A → Server T → Type 0) → Returns (m s.timers) P
    → ((a : A) (l : TimerList) → P a l → Q a (record s { timers = l }))
    → Returns (on_timers m s) Q
on_timers-Returns m s P Q r f =
    Returns-bind (m s.timers) (λ a l. some (a, record s { timers = l })) P Q r f

pub run-bind :
    {T A B : Type 0} (m : Run T A) (f : A → Run T B) (a : A) (s s' : Server T)
    → m s ≡ some (a, s')
    → (m >>= f) s ≡ f a s'
run-bind m f a s s' e = ap (λ r. elim r [ none ↦ none | some (a, s') ↦ f a s' ]) e

pub run-then :
    {T A : Type 0} (b : Bool) (x y : Run T A) (s : Server T)
    → b ≡ true
    → (if b then x else y) s ≡ x s
run-then b x y s e = rw e refl

pub run-else :
    {T A : Type 0} (b : Bool) (x y : Run T A) (s : Server T)
    → b ≡ false
    → (if b then x else y) s ≡ y s
run-else b x y s e = rw e refl

-- A timer whose time alone is another.
Accounts-until :
    {T : Type 0} (s : Server T) (e : ℕ) (xs : List Timer) (t : Timer) (ys : List Timer)
    → Accounts s (xs ++ t ∷ ys)
    → Accounts s (xs ++ until t e ∷ ys)
Accounts-until s e xs t ys a =
    let b = Accounts-Perm s _ _ (middle-Perm xs t ys) a in
    Accounts-Perm s _ _ (Perm.symm (middle-Perm xs (until t e) ys))
      (record { owned = b.owned; one_each = b.one_each; opened = b.opened; counted = b.counted })

AllUpTo-put_off :
    (now cur : ℕ) (xs : List Timer) (t : Timer) (ys : List Timer)
    → AllUpTo (now + 3 * timeslot) (xs ++ t ∷ ys)
    → now ≤ cur
    → AllUpTo (cur + 3 * timeslot) (adjusted xs (until t (cur + 3 * timeslot)) ys)
AllUpTo-put_off now cur xs t ys a le =
    let b =
      AllUpTo-Perm _ (middle-Perm xs t ys)
        (AllUpTo-le _ (cur + 3 * timeslot) (xs ++ t ∷ ys) (omega arith) a) in
    let t' = until t (cur + 3 * timeslot) in
    AllUpTo-Perm _ (adjusted-Perm xs t' ys)
      (AllUpTo-Perm _ (Perm.symm (middle-Perm xs t' ys)) (omega arith, b.1))

-- A timer of an open connection is put off.
pub put_off_lem :
    {T : Type 0} (rounds now cur : ℕ) (xs : List Timer) (t : Timer) (ys : List Timer) (s : Server T)
    → Serves s now (xs ++ t ∷ ys)
    → now ≤ cur
    → length (xs ++ ys) ≤ rounds
    → Returns
        (put_off rounds cur t.addr s)
        (λ _ s'. Serves s' cur (adjusted xs (until t (cur + 3 * timeslot)) ys))
unfolding put_off
put_off_lem rounds now cur xs t ys s v le r =
    let e = cur + 3 * timeslot in
    let t' = until t e in
    let up = AllUpTo-le _ e xs (omega arith) (AllUpTo-front _ xs (t ∷ ys) v.ends_by) in
    let books =
      Accounts-Perm s _ _ (adjusted-Perm xs t' ys) (Accounts-until s e xs t ys v.accounts) in
    Returns-bind (on_timers (set_expire t.addr e) s) (λ _. on_timers (adjust_timer rounds t.addr))
      (λ _ s1. IsList s1.timers (xs ++ t' ∷ ys) × (s1 ≡ record s { timers = s1.timers }))
      (λ _ s'. Serves s' cur (adjusted xs t' ys))
      (on_timers-Returns (set_expire t.addr e) s (λ _ l'. IsList l' (xs ++ t' ∷ ys)) _
        (set_expire_lem e xs t ys s.timers v.is_list) (λ _ l i. (i, refl)))
      (λ _ s1 k.
        on_timers-Returns (adjust_timer rounds t.addr) s1
          (λ _ l'. Ordered s1.timers l' (xs ++ t' ∷ ys) (adjusted xs t' ys)) _
          (adjust_timer-IsSorted rounds xs t' ys s1.timers k.0 (IsSorted-without xs t ys v.sorted)
            up r)
          (λ _ l o. record {
            is_list = o.becomes.is_list;
            sorted = o.sorted;
            ends_by = AllUpTo-put_off now cur xs t ys v.ends_by le;
            accounts =
                Accounts-timers s (record s1 { timers = l }) _ books (ap (λ z. z.users_timer) k.1)
                  (ap (λ z. z.is_open) k.1) (ap (λ z. z.m_user_count) k.1);
          }))

deal_timer_eq :
    {T : Type 0} (p fd : ℕ) (s : Server T) (n : Node)
    → Holds s.timers p n
    → deal_timer p fd s ≡ on_timers (del_timer p) (cb_func fd s)
unfolding deal_timer
deal_timer_eq p fd s n h =
    run-bind (on_timers (load p) >>= λ _. λ s. some (tt, cb_func fd s)) _ tt s (cb_func fd s) (
      run-bind (on_timers (load p)) (λ _. λ s. some (tt, cb_func fd s)) n s s
        (ap (λ r. elim r [ none ↦ none | some (a, l) ↦ some (a, record s { timers = l }) ])
          (load_lem s.timers p n h)))
    ∙ run-else (p == 0) (pure tt) (on_timers (del_timer p)) (cb_func fd s) (not_null s.timers p n h)

pub Links-middle :
    (l : TimerList) (xs : List Timer) (t : Timer) (ys : List Timer)
    → IsList l (xs ++ t ∷ ys)
    → Holds l t.addr (node t (last 0 xs) (first ys 0))
Links-middle l xs t ys i =
    Links-Holds l (last 0 xs) 0 t ys ((Links-split l.nodes 0 0 xs (t ∷ ys) i.linked).1)

cb_func-timers : {T : Type 0} (fd : ℕ) (s : Server T) → (cb_func fd s).timers ≡ s.timers
unfolding cb_func
cb_func-timers fd s = refl

-- An open connection is closed, and its timer goes.
pub deal_timer_lem :
    {T : Type 0} (now : ℕ) (xs : List Timer) (t : Timer) (ys : List Timer) (s : Server T)
    → Serves s now (xs ++ t ∷ ys)
    → Returns (deal_timer t.addr t.user s) (λ _ s'.
      Serves s' now (xs ++ ys)
      × (s'.is_open ≡ update s.is_open ((s.users_timer t.user).sockfd) false))
unfolding cb_func
deal_timer_lem now xs t ys s v =
    let books =
      Accounts-cb_func s t (xs ++ ys) (Accounts-Perm s _ _ (middle-Perm xs t ys) v.accounts) in
    rw (deal_timer_eq t.addr t.user s _ (Links-middle s.timers xs t ys v.is_list)) (
      on_timers-Returns (del_timer t.addr) (cb_func t.user s) (λ _ l'. Removed s.timers t xs ys l')
        (λ _ s'.
          Serves s' now (xs ++ ys)
          × (s'.is_open ≡ update s.is_open ((s.users_timer t.user).sockfd) false))
        (subst (λ l. Returns (del_timer t.addr l) (λ _ l'. Removed s.timers t xs ys l'))
          (sym (cb_func-timers t.user s)) (del_timer_lem xs ys t s.timers v.is_list))
        (λ _ l k. (
          record {
            is_list = k.is_list;
            sorted = IsSorted-without xs t ys v.sorted;
            ends_by = (AllUpTo-Perm _ (middle-Perm xs t ys) v.ends_by).1;
            accounts = Accounts-timers (cb_func t.user s) _ (xs ++ ys) books refl refl refl;
          },
          refl,
        )))

call_back-timers : {T : Type 0} (us : List ℕ) (s : Server T) → (call_back us s).timers ≡ s.timers
unfolding call_back cb_func
call_back-timers [] s = refl
call_back-timers (u ∷ us) s = call_back-timers us (cb_func u s)

AllUpTo-back : (e : ℕ) (xs ys : List Timer) → AllUpTo e (xs ++ ys) → AllUpTo e ys
AllUpTo-back e [] ys a = a
AllUpTo-back e (x ∷ xs) ys a = AllUpTo-back e xs ys a.1

-- The timers that have run out are called back: their connections are closed.
pub timer_handler_lem :
    {T : Type 0} (rounds now cur : ℕ) (ts : List Timer) (s : Server T)
    → Serves s now ts
    → now ≤ cur
    → length ts < rounds
    → Returns (timer_handler rounds cur s) (λ _ s'. Serves s' cur (select (is_later cur) ts))
unfolding timer_handler
timer_handler_lem rounds now cur ts s v le r =
    let due = select (is_due cur) ts in
    let later = select (is_later cur) ts in
    let us = map (λ t. t.user) due in
    Returns-bind (on_timers (tick rounds cur) s) (λ users s1. some (tt, call_back users s1))
      (λ users s1. IsList s1.timers later × (users ≡ us) × (s1 ≡ record s { timers = s1.timers }))
      (λ _ s'. Serves s' cur later)
      (on_timers-Returns (tick rounds cur) s (λ users l'. Expired cur s.timers ts users l') _
        (tick-IsSorted rounds cur ts s.timers v.is_list v.sorted r)
        (λ users l e. (e.is_list, e.called, refl)))
      (λ users s1 k.
        let s2 = record s { timers = s1.timers } in
        let books =
          Accounts-timers s s2 (due ++ later) (Accounts-Perm s _ _ (select-Perm cur ts) v.accounts)
            refl refl refl in
        rw (k.1, k.2)
          (record {
            is_list = subst (λ l. IsList l later) (sym (call_back-timers us s2)) k.0;
            sorted = select-IsSorted (is_later cur) ts v.sorted;
            ends_by =
                AllUpTo-back _ due later
                  (AllUpTo-Perm _ (select-Perm cur ts) (AllUpTo-le _ _ ts (omega arith) v.ends_by));
            accounts = Accounts-call_back due later s2 books;
          }))
