-- ===== src/WebServer/Clients.antt =====
-- What webserver.cpp does with the timer of an open connection keeps the books.
use ai_inference_gateway.Prelude.{
  update, ℕ, ◌+◌, ◌*◌, ◌≤◌, ◌<◌, ◌≡◌, refl, sym, ap, ◌∙◌, subst, true, false, List, [], ◌∷◌, ◌++◌,
  length, ◌==◌, arith, Bool-cases, inl, inr,
}
use ai_inference_gateway.Timer.Chain.{Timer, IsList, Returns, Returns-map, not_null}
use ai_inference_gateway.Timer.Adjust.{adjusted}
use ai_inference_gateway.WebServer.{Server, pure, put_off, put_off_if, deal_timer, timeslot}
use ai_inference_gateway.WebServer.Accounts.{Accounts-Perm, Accounts-timers, has_user}
use ai_inference_gateway.WebServer.Shuffle.{middle-Perm}
use ai_inference_gateway.WebServer.Until.{AllUpTo-le, until}
use ai_inference_gateway.WebServer.Serves.{
  Serves, run-else, put_off_lem, deal_timer_lem, Links-middle,
}

-- The books are kept, for some timers.
pub record IsServing {T : Type 0} (s : Server T) (now : ℕ) : Type 0 where
  pub timers : List Timer
  pub serves : Serves s now timers

pub Serves-later :
    {T : Type 0} (now cur : ℕ) (ts : List Timer) (s : Server T)
    → Serves s now ts
    → now ≤ cur
    → Serves s cur ts
Serves-later now cur ts s v le = record {
  is_list = v.is_list;
  sorted = v.sorted;
  ends_by = AllUpTo-le _ _ ts (omega arith) v.ends_by;
  accounts = v.accounts;
}

-- The timer of an open connection, in the list.
record Found (fd : ℕ) (ts : List Timer) : Type 0 where
  front : List Timer
  found : Timer
  back : List Timer
  splits : ts ≡ front ++ found ∷ back
  names : found.user ≡ fd

find_user : (fd : ℕ) (ts : List Timer) → has_user fd ts ≡ true → Found fd ts
find_user fd [] h = ground (arith, h)
find_user fd (t ∷ ts) h = elim (Bool-cases (t.user == fd)) [
  | inl e ↦ record { front = []; found = t; back = ts; splits = refl; names = ground (arith, e) }
  | inr e ↦
      let f = find_user fd ts (rw e at h) in
      record {
        front = t ∷ f.front;
        found = f.found;
        back = f.back;
        splits = ap (λ us. t ∷ us) f.splits;
        names = f.names;
      }
]

-- An open connection of a server that keeps its books.
record Client {T : Type 0} (s : Server T) (now fd : ℕ) (n : ℕ) : Type 0 where
  front : List Timer
  own : Timer
  back : List Timer
  serves : Serves s now (front ++ own ∷ back)
  names : own.user ≡ fd
  registered : (s.users_timer fd).timer ≡ own.addr
  closes : (s.users_timer own.user).sockfd ≡ own.user
  ne_null : (own.addr == 0) ≡ false
  fits : length (front ++ back) < n

client :
    {T : Type 0} (now fd : ℕ) (ts : List Timer) (s : Server T)
    → Serves s now ts
    → s.is_open fd ≡ true
    → Client s now fd (length ts)
client now fd ts s v o =
    let f = find_user fd ts (sym (v.accounts.opened fd) ∙ o) in
    let w = subst (λ us. Serves s now us) f.splits v in
    let books = Accounts-Perm s _ _ (middle-Perm f.front f.found f.back) w.accounts in
    record {
      front = f.front;
      own = f.found;
      back = f.back;
      serves = w;
      names = f.names;
      registered =
          subst (λ u. (s.users_timer u).timer ≡ f.found.addr) f.names
            (ap (λ c. c.timer) books.owned.0);
      closes = ap (λ c. c.sockfd) books.owned.0;
      ne_null =
          not_null s.timers f.found.addr _ (Links-middle s.timers f.front f.found f.back w.is_list);
      fits =
          subst (λ us. length (f.front ++ f.back) < length us) (sym f.splits)
            (length-middle f.front f.found f.back);
    }
  where
    length-middle :
        (xs : List Timer) (t : Timer) (ys : List Timer) → length (xs ++ ys) < length (xs ++ t ∷ ys)
    length-middle [] t ys = omega arith
    length-middle (x ∷ xs) t ys = ground (arith, length-middle xs t ys)

-- A server in which only the connections or the pool's queue differ.
pub Serves-beside :
    {T : Type 0} (s s' : Server T) (now : ℕ) (ts : List Timer)
    → Serves s now ts
    → s'.timers ≡ s.timers
    → s'.users_timer ≡ s.users_timer
    → s'.is_open ≡ s.is_open
    → s'.m_user_count ≡ s.m_user_count
    → Serves s' now ts
Serves-beside s s' now ts v e f g h = record {
  is_list = subst (λ l. IsList l ts) (sym e) v.is_list;
  sorted = v.sorted;
  ends_by = v.ends_by;
  accounts = Accounts-timers s s' ts v.accounts f g h;
}

-- The connection is closed, and no other one.
pub hangup_closes :
    {T : Type 0} (now cur fd : ℕ) (ts : List Timer) (s : Server T)
    → Serves s now ts
    → s.is_open fd ≡ true
    → now ≤ cur
    → Returns
        (deal_timer ((s.users_timer fd).timer) fd s)
        (λ _ s'. IsServing s' cur × (s'.is_open ≡ update s.is_open fd false))
hangup_closes now cur fd ts s v o le =
    let c = client now fd ts s v o in
    rw (c.registered, sym c.names)
      (Returns-map (deal_timer c.own.addr c.own.user s)
        (λ _ s'.
          Serves s' now (c.front ++ c.back)
          × (s'.is_open ≡ update s.is_open ((s.users_timer c.own.user).sockfd) false))
        _
        (λ _ s' w. (
          record { timers = c.front ++ c.back; serves = Serves-later now cur _ s' w.0 le },
          w.1 ∙ ap (λ u. update s.is_open u false) c.closes,
        ))
        (deal_timer_lem now c.front c.own c.back s c.serves))

pub hangup_lem :
    {T : Type 0} (now cur fd : ℕ) (ts : List Timer) (s : Server T)
    → Serves s now ts
    → s.is_open fd ≡ true
    → now ≤ cur
    → Returns (deal_timer ((s.users_timer fd).timer) fd s) (λ _ s'. IsServing s' cur)
hangup_lem now cur fd ts s v o le =
    Returns-map (deal_timer ((s.users_timer fd).timer) fd s)
      (λ _ s'. IsServing s' cur × (s'.is_open ≡ update s.is_open fd false)) _ (λ _ s' w. w.0)
      (hangup_closes now cur fd ts s v o le)

pub busy_lem :
    {T : Type 0} (rounds now cur fd : ℕ) (ts : List Timer) (s : Server T)
    → Serves s now ts
    → s.is_open fd ≡ true
    → now ≤ cur
    → length ts ≤ rounds
    → Returns (put_off_if rounds cur ((s.users_timer fd).timer) s) (λ _ s'. IsServing s' cur)
unfolding put_off_if
busy_lem rounds now cur fd ts s v o le r =
    let c = client now fd ts s v o in
    let e = cur + 3 * timeslot in
    rw
      (
        c.registered,
        run-else (c.own.addr == 0) (pure tt) (put_off rounds cur c.own.addr) s c.ne_null,
      )
      (Returns-map (put_off rounds cur c.own.addr s)
        (λ _ s'. Serves s' cur (adjusted c.front (until c.own e) c.back)) _
        (λ _ s' w. record { timers = adjusted c.front (until c.own e) c.back; serves = w })
        (put_off_lem rounds now cur c.front c.own c.back s c.serves le (omega (arith, c.fits))))
