-- ===== src/WebServer/Events.antt =====
-- `eventLoop` of webserver.cpp, in the proactor model: each event keeps the books.
use ai_inference_gateway.Prelude.{
  ℕ, ◌+◌, ◌≤◌, ◌≡◌, ◌≢◌, refl, ap, ◌∙◌, Bool, true, false, List, [], ◌∷◌, length, some,
  if◌then◌else◌, leb, ◌==◌, update, arith, Bool-cases, inl, inr,
}
use ai_inference_gateway.Prelude.Int.{pos, leb_ℤ}
use ai_inference_gateway.Timer.Chain.{Timer, Returns, Returns-map, Returns-bind}
use ai_inference_gateway.Timer.Place.{insert}
use ai_inference_gateway.WebServer.{
  Server, pure, accept_one, accept_all, dealclientdata, max_fd, Operations, append_p_request,
  dealwithread, dealwithwrite,
}
use ai_inference_gateway.WebServer.Serves.{Serves, run-bind, run-then}
use ai_inference_gateway.WebServer.Accept.{
  IsNew, Accepted, timer_of, accept_one_full, accept_one_lem, refused_lem, insert-length,
}
use ai_inference_gateway.WebServer.Clients.{
  IsServing, Serves-later, Serves-beside, hangup_lem, busy_lem,
}

-- Two accepted descriptors or addresses are never the same.
abbrev pub IsApart : ℕ → ℕ → List (ℕ × ℕ) → Type 0
IsApart connfd address [] = Unit {0}
IsApart connfd address ((c, a) ∷ rest) = (c ≢ connfd) × (a ≢ address) × IsApart connfd address rest

-- The connections that wait are new, and their timers will be.
abbrev pub AreWaiting : {T : Type 0} → Server T → List (ℕ × ℕ) → Type 0
AreWaiting s [] = Unit {0}
AreWaiting s ((connfd, address) ∷ rest) =
    IsNew s connfd address × IsApart connfd address rest × AreWaiting s rest

AreWaiting-Accepted :
    {T : Type 0} (s s' : Server T) (cur connfd address : ℕ) (ts : List Timer) (rest : List (ℕ × ℕ))
    → Accepted s cur connfd address ts s'
    → IsApart connfd address rest
    → AreWaiting s rest
    → AreWaiting s' rest
AreWaiting-Accepted s s' cur connfd address ts [] k p w = tt
AreWaiting-Accepted s s' cur connfd address ts ((c, a) ∷ rest) k p w = (
  record {
    closed = ap (λ o. o c) k.opens ∙ apart s.is_open connfd c p.0 ∙ w.0.closed;
    below = w.0.below;
    ne_null = w.0.ne_null;
    unused = k.kept a p.1 w.0.unused;
  },
  w.1,
  AreWaiting-Accepted s s' cur connfd address ts rest k p.2 w.2,
)
  where
    apart : (h : ℕ → Bool) (connfd c : ℕ) → c ≢ connfd → update h connfd true c ≡ h c
    apart h connfd c n = ground arith

module _ {T : Type 0} (ops : Operations T) where
  accept_all_full :
      (rounds cur connfd address : ℕ) (rest : List (ℕ × ℕ)) (s : Server T)
      → leb_ℤ (pos max_fd) s.m_user_count ≡ true
      → accept_all ops rounds cur ((connfd, address) ∷ rest) s
        ≡ some (tt, record s { is_open = update s.is_open connfd false })
  unfolding accept_all
  accept_all_full rounds cur connfd address rest s e =
      run-bind (accept_one ops rounds cur address connfd)
        (λ accepted. if accepted then accept_all ops rounds cur rest else pure tt) false s _
        (accept_one_full ops rounds cur address connfd s e)

  accept_all_lem :
      (rounds now cur : ℕ) (ts : List Timer) (waiting : List (ℕ × ℕ)) (s : Server T)
      → Serves s now ts
      → AreWaiting s waiting
      → now ≤ cur
      → length ts + length waiting ≤ rounds
      → Returns (accept_all ops rounds cur waiting s) (λ _ s'. IsServing s' cur)
  unfolding accept_all
  accept_all_lem rounds now cur ts [] s v w le r = record {
    timers = ts;
    serves = Serves-later now cur ts s v le;
  }
  accept_all_lem rounds now cur ts ((connfd, address) ∷ rest) s v w le r =
      elim (Bool-cases (leb max_fd (length ts))) [
        | inl full ↦
            let e : leb_ℤ (pos max_fd) s.m_user_count ≡ true =
              ap (leb_ℤ (pos max_fd)) v.accounts.counted ∙ ground (arith, full) in
            rw (accept_all_full rounds cur connfd address rest s e)
              (record { timers = ts; serves = refused_lem ops now cur connfd ts s v w.0.closed le })
        | inr room ↦
            let us = insert (timer_of cur connfd address) ts in
            Returns-bind (accept_one ops rounds cur address connfd s)
              (λ accepted. if accepted then accept_all ops rounds cur rest else pure tt)
              (λ accepted s'. (accepted ≡ true) × Accepted s cur connfd address us s')
              (λ _ s'. IsServing s' cur)
              (accept_one_lem ops rounds now cur address connfd ts s v w.0 le (omega arith) room)
              (λ accepted s' k.
                rw (run-then accepted (accept_all ops rounds cur rest) (pure tt) s' k.0) (
                  accept_all_lem rounds cur cur us rest s' k.1.serves
                    (AreWaiting-Accepted s s' cur connfd address us rest k.1 w.1 w.2) (omega arith)
                    (ground (arith, insert-length (timer_of cur connfd address) ts, r))))
      ]

  pub dealwithread_lem :
      (rounds now cur fd : ℕ) (works : List (T → T)) (ts : List Timer) (s : Server T)
      → Serves s now ts
      → (s.m_actormodel == 1) ≡ false
      → s.is_open fd ≡ true
      → now ≤ cur
      → length ts ≤ rounds
      → Returns (dealwithread ops rounds cur fd works s) (λ _ s'. IsServing s' cur)
  unfolding dealwithread append_p_request
  dealwithread_lem rounds now cur fd works ts s v p o le r =
      let s1 = record s { users = update s.users fd ((ops.connection.read_once (s.users fd)).1) } in
      elim (Bool-cases ((ops.connection.read_once (s.users fd)).0)) [
        | inl done ↦
            rw (p, done)
              (busy_lem rounds now cur fd ts _ (Serves-beside s _ now ts v refl refl refl refl) o le
                r)
        | inr closed ↦
            rw (p, closed)
              (hangup_lem now cur fd ts s1 (Serves-beside s s1 now ts v refl refl refl refl) o le)
      ]

  pub dealwithwrite_lem :
      (rounds now cur fd : ℕ) (works : List (T → T)) (ts : List Timer) (s : Server T)
      → Serves s now ts
      → (s.m_actormodel == 1) ≡ false
      → s.is_open fd ≡ true
      → now ≤ cur
      → length ts ≤ rounds
      → Returns (dealwithwrite ops rounds cur fd works s) (λ _ s'. IsServing s' cur)
  unfolding dealwithwrite
  dealwithwrite_lem rounds now cur fd works ts s v p o le r =
      let s1 = record s { users = update s.users fd ((ops.connection.write (s.users fd)).1) } in
      elim (Bool-cases ((ops.connection.write (s.users fd)).0)) [
        | inl done ↦
            rw (p, done)
              (busy_lem rounds now cur fd ts s1 (Serves-beside s s1 now ts v refl refl refl refl) o
                le r)
        | inr closed ↦
            rw (p, closed)
              (hangup_lem now cur fd ts s1 (Serves-beside s s1 now ts v refl refl refl refl) o le)
      ]

  pub dealclientdata_lem :
      (rounds now cur : ℕ) (ts : List Timer) (waiting : List (ℕ × ℕ)) (s : Server T)
      → Serves s now ts
      → AreWaiting s waiting
      → now ≤ cur
      → length ts + length waiting ≤ rounds
      → Returns (dealclientdata ops rounds cur waiting s) (λ _ s'. IsServing s' cur)
  unfolding dealclientdata
  dealclientdata_lem rounds now cur ts waiting s v w le r =
      elim (Bool-cases (s.m_listen_trigmode == 0)) [
        | inl level ↦ rw level (level_lem waiting w r)
        | inr edge ↦ rw edge (
            Returns-bind (accept_all ops rounds cur waiting s) (λ _ s'. some (false, s'))
              (λ _ s'. IsServing s' cur) (λ _ s'. IsServing s' cur)
              (accept_all_lem rounds now cur ts waiting s v w le r) (λ _ s' k. k))
      ]
    where
      level_lem :
          (waiting : List (ℕ × ℕ))
          → AreWaiting s waiting
          → length ts + length waiting ≤ rounds
          → Returns
              (elim waiting [
                | [] ↦ some (false, s)
                | (connfd, address) ∷ rest ↦ accept_one ops rounds cur address connfd s
              ])
              (λ _ s'. IsServing s' cur)
      level_lem [] w r = record { timers = ts; serves = Serves-later now cur ts s v le }
      level_lem ((connfd, address) ∷ rest) w r = elim (Bool-cases (leb max_fd (length ts))) [
        | inl full ↦
            let e : leb_ℤ (pos max_fd) s.m_user_count ≡ true =
              ap (leb_ℤ (pos max_fd)) v.accounts.counted ∙ ground (arith, full) in
            rw (accept_one_full ops rounds cur address connfd s e)
              (record { timers = ts; serves = refused_lem ops now cur connfd ts s v w.0.closed le })
        | inr room ↦
            Returns-map (accept_one ops rounds cur address connfd s) _ (λ _ s'. IsServing s' cur)
              (λ _ s' k. record {
                timers = insert (timer_of cur connfd address) ts;
                serves = k.1.serves;
              })
              (accept_one_lem ops rounds now cur address connfd ts s v w.0 le (omega arith) room)
      ]
