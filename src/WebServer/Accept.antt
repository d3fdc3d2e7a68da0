-- ===== src/WebServer/Accept.antt =====
-- `timer` and `dealclientdata` of webserver.cpp: how connections are accepted, and get their timers.
use ai_inference_gateway.Prelude.{
  ℕ, suc, ◌+◌, ◌*◌, ◌≤◌, ◌<◌, ◌≡◌, ◌≢◌, refl, sym, ap, ◌∙◌, subst, Bool, true, false, List, [], ◌∷◌,
  length, Option, none, some, leb, ◌==◌, update, arith, Bool-cases, inl, inr,
}
use ai_inference_gateway.Prelude.Int.{ℤ, pos, ◌+ℤ◌, leb_ℤ}
use ai_inference_gateway.Timer.{Node, store, add_timer}
use ai_inference_gateway.Timer.Chain.{
  Timer, node, has, Links, IsList, Returns, Returns-bind, frame-update, update_same, update_other,
  has-neither,
}
use ai_inference_gateway.Timer.Place.{insert}
use ai_inference_gateway.Timer.Add.{IsFresh}
use ai_inference_gateway.Timer.Order.{Ordered, add_timer-IsSorted}
use ai_inference_gateway.WebServer.{
  Server, accept_one, max_fd, Operations, on_timers, timer, timeslot,
}
use ai_inference_gateway.WebServer.Accounts.{
  Accounts-Perm, Accounts-add, Accounts-timers, length-Perm,
}
use ai_inference_gateway.WebServer.Shuffle.{insert-Perm}
use ai_inference_gateway.WebServer.Until.{AllUpTo-le, AllUpTo-Perm}
use ai_inference_gateway.WebServer.Serves.{Serves, on_timers-Returns}

-- What the kernel and `new` promise of an accepted descriptor and a new timer's address: they are not
-- in use; and that the descriptor is one that the arrays have an entry for.
pub record IsNew {T : Type 0} (s : Server T) (connfd address : ℕ) : Type 0 where
  pub closed : s.is_open connfd ≡ false
  pub below : connfd < max_fd
  pub ne_null : address ≢ 0
  pub unused : s.timers.nodes address ≡ none

-- A server after one more connection was accepted.
pub record Accepted {T : Type 0} (s : Server T) (cur connfd address : ℕ) (ts : List Timer)
    (s' : Server T) : Type 0 where
  pub serves : Serves s' cur ts
  pub opens : s'.is_open ≡ update s.is_open connfd true
  pub kept : (a : ℕ) → a ≢ address → s.timers.nodes a ≡ none → s'.timers.nodes a ≡ none

-- The timer of a connection accepted at `cur`.
abbrev pub timer_of : ℕ → ℕ → ℕ → Timer
timer_of cur connfd address = record { addr = address; expire = cur + 3 * timeslot; user = connfd }

unused-has :
    (h : ℕ → Option Node) (b : ℕ) (a : ℕ) (ts : List Timer)
    → h a ≡ none
    → Links h b ts 0
    → has a ts ≡ false
unused-has h b a [] u k = refl
unused-has h b a (t ∷ ts) u k = elim (Bool-cases (t.addr == a)) [
  | inl e ↦
      let same : t.addr ≡ a = ground (arith, e) in
      absurd (none-some (sym (subst (λ p. h p ≡ none) (sym same) u) ∙ k.1))
  | inr e ↦ rw e (unused-has h t.addr a ts u k.2)
]
  where
    none-some : {n : Node} → none ≡ some n → ⊥
    none-some e = ground (arith, e)

pub insert-length : (t : Timer) (ts : List Timer) → length (insert t ts) ≡ suc (length ts)
insert-length t ts = sym (length-Perm (insert-Perm t ts))

has_room :
    (count : ℤ) (n : ℕ) → count ≡ pos n → leb max_fd n ≡ false → leb_ℤ (pos max_fd) count ≡ false
has_room count n e room = ap (leb_ℤ (pos max_fd)) e ∙ ground (arith, room)

stays_closed : (h : ℕ → Bool) (connfd fd : ℕ) → h connfd ≡ false → update h connfd false fd ≡ h fd
stays_closed h connfd fd closed = elim (Bool-cases (connfd == fd)) [
  | inl e ↦ let same : connfd ≡ fd = ground (arith, e) in rw e (sym closed ∙ ap h same)
  | inr e ↦ rw e refl
]

module _ {T : Type 0} (ops : Operations T) where
  -- The server when the new timer goes into the list.
  abbrev with_timer : ℕ → ℕ → ℕ → Server T → Server T
  with_timer cur address connfd s = record s {
    users = update s.users connfd (ops.init connfd (s.users connfd));
    m_user_count = s.m_user_count +ℤ pos 1;
    users_timer = update s.users_timer connfd (record { sockfd = connfd; timer = address });
    timers = record s.timers {
      nodes = update s.timers.nodes address (some (node (timer_of cur connfd address) 0 0));
    };
  }

  timer_eq :
      (rounds cur address connfd : ℕ) (s : Server T)
      → connfd < max_fd
      → timer ops rounds cur address connfd s
        ≡ on_timers (add_timer rounds address) (with_timer cur address connfd s)
  unfolding timer store
  timer_eq rounds cur address connfd s below =
      let within : leb max_fd connfd ≡ false = ground arith in rw within refl

  pub timer_lem :
      (rounds now cur address connfd : ℕ) (ts : List Timer) (s : Server T)
      → Serves s now ts
      → IsNew s connfd address
      → now ≤ cur
      → length ts ≤ rounds
      → Returns
          (timer ops rounds cur address connfd
            (record s { is_open = update s.is_open connfd true }))
          (λ _ s'. Accepted s cur connfd address (insert (timer_of cur connfd address) ts) s')
  timer_lem rounds now cur address connfd ts s v n le r =
      let t = timer_of cur connfd address in
      let s1 = record s { is_open = update s.is_open connfd true } in
      let s2 = with_timer cur address connfd s1 in
      let out = unused-has s.timers.nodes 0 address ts n.unused v.is_list.linked in
      let i : IsList s2.timers ts = record {
        starts = v.is_list.starts;
        ends = v.is_list.ends;
        linked =
            frame-update s.timers.nodes address (some (node t 0 0)) 0 0 ts v.is_list.linked out;
        distinct = v.is_list.distinct;
      } in
      let fresh : IsFresh s2.timers t ts = record {
        stored = record {
          ne_null = n.ne_null;
          holds = update_same s.timers.nodes address (some (node t 0 0));
        };
        out = out;
      } in
      let books = Accounts-add s s2 t ts v.accounts n.closed refl refl refl in
      rw (timer_eq rounds cur address connfd s1 n.below) (
        on_timers-Returns (add_timer rounds address) s2
          (λ _ l'. Ordered s2.timers l' (t ∷ ts) (insert t ts)) _
          (add_timer-IsSorted rounds t ts s2.timers i v.sorted fresh r)
          (λ _ l o. record {
            serves = record {
              is_list = o.becomes.is_list;
              sorted = o.sorted;
              ends_by =
                  AllUpTo-Perm _ (insert-Perm t ts)
                    (omega arith, AllUpTo-le _ _ ts (omega arith) v.ends_by);
              accounts =
                  Accounts-timers s2 (record s2 { timers = l }) (insert t ts)
                    (Accounts-Perm s2 _ _ (insert-Perm t ts) books) refl refl refl;
            };
            opens = refl;
            kept = λ a other u.
                o.becomes.same a (
                  has-neither a t ts (λ e. other (sym e))
                    (unused-has s.timers.nodes 0 a ts u v.is_list.linked))
                ∙ update_other s.timers.nodes address a (some (node t 0 0)) (λ e. other (sym e))
                ∙ u;
          }))

  -- A refusal, where as many connections are open as there may be.
  pub accept_one_full :
      (rounds cur address connfd : ℕ) (s : Server T)
      → leb_ℤ (pos max_fd) s.m_user_count ≡ true
      → accept_one ops rounds cur address connfd s
        ≡ some (false, record s { is_open = update s.is_open connfd false })
  unfolding accept_one
  accept_one_full rounds cur address connfd s e = rw e refl

  pub accept_one_lem :
      (rounds now cur address connfd : ℕ) (ts : List Timer) (s : Server T)
      → Serves s now ts
      → IsNew s connfd address
      → now ≤ cur
      → length ts ≤ rounds
      → leb max_fd (length ts) ≡ false
      → Returns (accept_one ops rounds cur address connfd s) (λ accepted s'.
        (accepted ≡ true)
        × Accepted s cur connfd address (insert (timer_of cur connfd address) ts) s')
  unfolding accept_one
  accept_one_lem rounds now cur address connfd ts s v n le r room =
      let s1 = record s { is_open = update s.is_open connfd true } in
      rw (has_room s.m_user_count (length ts) v.accounts.counted room) (
        Returns-bind (timer ops rounds cur address connfd s1) (λ _ s'. some (true, s'))
          (λ _ s'. Accepted s cur connfd address (insert (timer_of cur connfd address) ts) s') _
          (timer_lem rounds now cur address connfd ts s v n le r) (λ _ s' k. (refl, k)))

  pub refused_lem :
      (now cur connfd : ℕ) (ts : List Timer) (s : Server T)
      → Serves s now ts
      → s.is_open connfd ≡ false
      → now ≤ cur
      → Serves (record s { is_open = update s.is_open connfd false }) cur ts
  refused_lem now cur connfd ts s v closed le = record {
    is_list = v.is_list;
    sorted = v.sorted;
    ends_by = AllUpTo-le _ _ ts (omega arith) v.ends_by;
    accounts = record {
      owned = v.accounts.owned;
      one_each = v.accounts.one_each;
      opened = λ fd. stays_closed s.is_open connfd fd closed ∙ v.accounts.opened fd;
      counted = v.accounts.counted;
    };
  }
