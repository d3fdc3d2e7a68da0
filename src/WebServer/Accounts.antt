-- ===== src/WebServer/Accounts.antt =====
-- The books of webserver.cpp: which timers stand for which open connections. They do not depend on the
-- timers' order.
use ai_inference_gateway.Prelude.{
  ℕ, suc, ◌≡◌, refl, sym, ap, ap₂, ◌∙◌, subst, Bool, true, false, List, [], ◌∷◌, ◌++◌, map, length,
  ◌==◌, ◌||◌, update, arith, Bool-cases, inl, inr,
}
use ai_inference_gateway.Prelude.Int.{pos, ◌+ℤ◌}
use ai_inference_gateway.Http.{decrement}
use ai_inference_gateway.Timer.Chain.{Timer}
use ai_inference_gateway.WebServer.{Server, ClientData, cb_func, call_back}
use mathlib.Core.List.{Permᴰ}

abbrev pub has_user : ℕ → List Timer → Bool
has_user u [] = false
has_user u (t ∷ ts) = (t.user == u) || has_user u ts

abbrev pub OneEach : List Timer → Type 0
OneEach [] = Unit {0}
OneEach (t ∷ ts) = (has_user t.user ts ≡ false) × OneEach ts

-- Each timer's `client_data` names its connection and its timer.
abbrev pub Owned : (ℕ → ClientData) → List Timer → Type 0
Owned c [] = Unit {0}
Owned c (t ∷ ts) = (c t.user ≡ record { sockfd = t.user; timer = t.addr }) × Owned c ts

-- The open connections are those that have a timer, each has one, and they are counted.
pub record Accounts {T : Type 0} (s : Server T) (ts : List Timer) : Type 0 where
  pub owned : Owned s.users_timer ts
  pub one_each : OneEach ts
  pub opened : (fd : ℕ) → s.is_open fd ≡ has_user fd ts
  pub counted : s.m_user_count ≡ pos (length ts)

has_user-Perm : {ts us : List Timer} (u : ℕ) → Permᴰ ts us → has_user u ts ≡ has_user u us
has_user-Perm u Permᴰ.nil = refl
has_user-Perm u (Permᴰ.cons {a = a} {b = b} e p) =
    ap₂ (λ x y. (x.user == u) || y) e (has_user-Perm u p)
has_user-Perm u (Permᴰ.swap {a = a} {b = b} {l = l} e f) =
    swap_lem (a.user == u) (b.user == u) (has_user u l)
    ∙ ap₂ (λ x y. (x.user == u) || ((y.user == u) || has_user u l)) f e
  where
    swap_lem : (x y z : Bool) → (x || (y || z)) ≡ (y || (x || z))
    swap_lem x y z = ground arith
has_user-Perm u (Permᴰ.trans p q) = has_user-Perm u p ∙ has_user-Perm u q

pub length-Perm : {ts us : List Timer} → Permᴰ ts us → length ts ≡ length us
length-Perm Permᴰ.nil = refl
length-Perm (Permᴰ.cons e p) = ap suc (length-Perm p)
length-Perm (Permᴰ.swap e f) = refl
length-Perm (Permᴰ.trans p q) = length-Perm p ∙ length-Perm q

Owned-Perm : {ts us : List Timer} (c : ℕ → ClientData) → Permᴰ ts us → Owned c ts → Owned c us
Owned-Perm c Permᴰ.nil o = tt
Owned-Perm c (Permᴰ.cons e p) o =
    (subst (λ t. c t.user ≡ record { sockfd = t.user; timer = t.addr }) e o.0, Owned-Perm c p o.1)
Owned-Perm c (Permᴰ.swap e f) o = (
  subst (λ t. c t.user ≡ record { sockfd = t.user; timer = t.addr }) f o.1.0,
  (subst (λ t. c t.user ≡ record { sockfd = t.user; timer = t.addr }) e o.0, o.1.1),
)
Owned-Perm c (Permᴰ.trans p q) o = Owned-Perm c q (Owned-Perm c p o)

OneEach-Perm : {ts us : List Timer} → Permᴰ ts us → OneEach ts → OneEach us
OneEach-Perm Permᴰ.nil o = tt
OneEach-Perm (Permᴰ.cons {b = b} {l₁ = ts} e p) o = (
  sym (has_user-Perm b.user p) ∙ subst (λ t. has_user t.user ts ≡ false) e o.0,
  OneEach-Perm p o.1,
)
OneEach-Perm (Permᴰ.swap {a = a} {b = b} {b' = b'} {l = l} e f) o =
    subst (λ x. OneEach (x ∷ b' ∷ l)) f (subst (λ y. OneEach (b ∷ y ∷ l)) e (swap_lem a b l o))
  where
    swap_lem : (a b : Timer) (l : List Timer) → OneEach (a ∷ b ∷ l) → OneEach (b ∷ a ∷ l)
    swap_lem a b l o = (ground (arith, o.0, o.1.0), (ground (arith, o.0), o.1.1))
OneEach-Perm (Permᴰ.trans p q) o = OneEach-Perm q (OneEach-Perm p o)

pub Accounts-Perm :
    {T : Type 0} (s : Server T) (ts us : List Timer) → Permᴰ ts us → Accounts s ts → Accounts s us
Accounts-Perm s ts us p a = record {
  owned = Owned-Perm s.users_timer p a.owned;
  one_each = OneEach-Perm p a.one_each;
  opened = λ fd. a.opened fd ∙ has_user-Perm fd p;
  counted = a.counted ∙ ap pos (length-Perm p);
}

-- A connection that is accepted, with its timer.
pub Accounts-add :
    {T : Type 0} (s s' : Server T) (t : Timer) (ts : List Timer)
    → Accounts s ts
    → s.is_open t.user ≡ false
    → s'.users_timer ≡ update s.users_timer t.user (record { sockfd = t.user; timer = t.addr })
    → s'.is_open ≡ update s.is_open t.user true
    → s'.m_user_count ≡ s.m_user_count +ℤ pos 1
    → Accounts s' (t ∷ ts)
Accounts-add s s' t ts a closed e f g =
    let out : has_user t.user ts ≡ false = sym (a.opened t.user) ∙ closed in
    record {
      owned =
          subst (λ c. Owned c (t ∷ ts)) (sym e)
            (
              update-here t.user _ s.users_timer,
              Owned-update s.users_timer t.user _ ts out a.owned,
            );
      one_each = (out, a.one_each);
      opened = λ fd. ap (λ o. o fd) f ∙ opened s.is_open t ts fd (a.opened fd);
      counted = g ∙ ap (λ n. n +ℤ pos 1) a.counted ∙ one_more (length ts);
    }
  where
    update-here : {A : Type 0} (u : ℕ) (x : A) (h : ℕ → A) → update h u x u ≡ x
    update-here u x h = ground arith

    Owned-update :
        (c : ℕ → ClientData) (u : ℕ) (x : ClientData) (ts : List Timer)
        → has_user u ts ≡ false
        → Owned c ts
        → Owned (update c u x) ts
    Owned-update c u x [] out o = tt
    Owned-update c u x (t ∷ ts) out o =
        (apart c u x t ts out ∙ o.0, Owned-update c u x ts (rest u t ts out) o.1)
      where
        apart :
            (c : ℕ → ClientData) (u : ℕ) (x : ClientData) (t : Timer) (ts : List Timer)
            → has_user u (t ∷ ts) ≡ false
            → update c u x t.user ≡ c t.user
        apart c u x t ts out = ground (arith, out)

        rest :
            (u : ℕ) (t : Timer) (ts : List Timer)
            → has_user u (t ∷ ts) ≡ false
            → has_user u ts ≡ false
        rest u t ts out = ground (arith, out)

    opened :
        (h : ℕ → Bool) (t : Timer) (ts : List Timer) (fd : ℕ)
        → h fd ≡ has_user fd ts
        → update h t.user true fd ≡ has_user fd (t ∷ ts)
    opened h t ts fd e = ground (arith, e)

    one_more : (n : ℕ) → pos n +ℤ pos 1 ≡ pos (suc n)
    one_more n = ground arith

-- A connection that is called back: it is closed.
pub Accounts-cb_func :
    {T : Type 0} (s : Server T) (t : Timer) (ts : List Timer)
    → Accounts s (t ∷ ts)
    → Accounts (cb_func t.user s) ts
unfolding cb_func
Accounts-cb_func s t ts a = record {
  owned = a.owned.1;
  one_each = a.one_each.1;
  opened = λ fd.
      ap (λ c. update s.is_open c.sockfd false fd) a.owned.0
      ∙ closed s.is_open t ts fd a.one_each.0 (a.opened fd);
  counted = ap decrement a.counted;
}
  where
    closed :
        (h : ℕ → Bool) (t : Timer) (ts : List Timer) (fd : ℕ)
        → has_user t.user ts ≡ false
        → h fd ≡ has_user fd (t ∷ ts)
        → update h t.user false fd ≡ has_user fd ts
    closed h t ts fd out e = elim (Bool-cases (t.user == fd)) [
      | inl q ↦
          let same : t.user ≡ fd = ground (arith, q) in
          rw q (subst (λ u. false ≡ has_user u ts) same (sym out))
      | inr q ↦ rw q (e ∙ rw q refl)
    ]

pub Accounts-call_back :
    {T : Type 0} (due left : List Timer) (s : Server T)
    → Accounts s (due ++ left)
    → Accounts (call_back (map (λ t. t.user) due) s) left
unfolding call_back
Accounts-call_back [] left s a = a
Accounts-call_back (t ∷ due) left s a =
    Accounts-call_back due left (cb_func t.user s) (Accounts-cb_func s t (due ++ left) a)

-- The list of timers is no part of the books.
pub Accounts-timers :
    {T : Type 0} (s s' : Server T) (ts : List Timer)
    → Accounts s ts
    → s'.users_timer ≡ s.users_timer
    → s'.is_open ≡ s.is_open
    → s'.m_user_count ≡ s.m_user_count
    → Accounts s' ts
Accounts-timers s s' ts a e f g = record {
  owned = subst (λ c. Owned c ts) (sym e) a.owned;
  one_each = a.one_each;
  opened = λ fd. ap (λ o. o fd) f ∙ a.opened fd;
  counted = g ∙ a.counted;
}
