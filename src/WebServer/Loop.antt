-- ===== src/WebServer/Loop.antt =====
-- The runs of `eventLoop` of webserver.cpp in the proactor model.
use ai_inference_gateway.Prelude.{
  ℕ, ◌+◌, ◌≤◌, ◌<◌, ◌≡◌, ◌≢◌, refl, sym, ◌∙◌, subst, true, false, List, [], length, some,
  if◌then◌else◌, ◌==◌, arith, Bool-cases, inl, inr,
}
use ai_inference_gateway.Prelude.Int.{pos}
use ai_inference_gateway.Timer.{new_timer_list}
use ai_inference_gateway.Timer.Chain.{
  Timer, IsList, Returns, Returns-map, Returns-bind, is-same, is-other,
}
use ai_inference_gateway.Timer.Order.{select, is_later}
use ai_inference_gateway.WebServer.{
  Server, Run, ◌>>=◌, pure, Operations, Answers, Event, Flags, dealclientdata, dealwithread,
  dealwithwrite, dealwithsingal, deal_timer, handle_event, timer_handler,
}
use ai_inference_gateway.WebServer.Serves.{Serves, timer_handler_lem}
use ai_inference_gateway.WebServer.Clients.{IsServing, Serves-later, hangup_lem}
use ai_inference_gateway.WebServer.Events.{
  AreWaiting, dealclientdata_lem, dealwithread_lem, dealwithwrite_lem,
}

-- An event of a descriptor that the server has registered.
pub data IsKnown {T : Type 0} (s : Server T) (a : Answers T) (e : Event) : Type 0 where
  listening : e.fd ≡ s.m_listenfd → AreWaiting s a.waiting → IsKnown s a e
  signalled :
      e.fd ≢ s.m_listenfd
      → e.is_hangup ≡ false
      → e.fd ≡ s.m_pipefd_0
      → e.is_in ≡ true
      → IsKnown s a e
  connected : e.fd ≢ s.m_listenfd → e.fd ≢ s.m_pipefd_0 → s.is_open e.fd ≡ true → IsKnown s a e

-- The loops have rounds for all the timers there are and will be.
pub record IsEnough {T : Type 0} (rounds : ℕ) (s : Server T) (a : Answers T) : Type 0 where
  pub users : ℕ
  pub counted : s.m_user_count ≡ pos users
  pub enough : users + length a.waiting < rounds

-- A handler whose result the event's flags do not depend on.
keeps :
    {T A : Type 0} (m : Run T A) (f : Flags) (s : Server T) (cur : ℕ)
    → Returns (m s) (λ _ s'. IsServing s' cur)
    → Returns ((m >>= λ _. pure f) s) (λ _ s'. IsServing s' cur)
keeps m f s cur r =
    Returns-bind (m s) (λ _ s'. some (f, s')) (λ _ s'. IsServing s' cur) (λ _ s'. IsServing s' cur)
      r (λ _ s' k. k)

pos-injective : (m n : ℕ) → pos m ≡ pos n → m ≡ n
pos-injective m n e = ground (arith, e)

module _ {T : Type 0} (ops : Operations T) where
  handle_listening :
      (rounds cur : ℕ) (a : Answers T) (e : Event) (f : Flags) (s : Server T)
      → e.fd ≡ s.m_listenfd
      → handle_event ops rounds cur a e f s
        ≡ (dealclientdata ops rounds cur a.waiting >>= λ _. pure f) s
  unfolding handle_event
  handle_listening rounds cur a e f s p = rw (is-same e.fd s.m_listenfd (sym p)) refl

  handle_signalled :
      (rounds cur : ℕ) (a : Answers T) (e : Event) (f : Flags) (s : Server T)
      → e.fd ≢ s.m_listenfd
      → e.is_hangup ≡ false
      → e.fd ≡ s.m_pipefd_0
      → e.is_in ≡ true
      → handle_event ops rounds cur a e f s ≡ some ((dealwithsingal a.signals f).1, s)
  unfolding handle_event
  handle_signalled rounds cur a e f s n h p i =
      rw (is-other e.fd s.m_listenfd s.m_listenfd n refl, h, is-same e.fd s.m_pipefd_0 (sym p), i)
        refl

  handle_connected :
      (rounds cur : ℕ) (a : Answers T) (e : Event) (f : Flags) (s : Server T)
      → e.fd ≢ s.m_listenfd
      → e.fd ≢ s.m_pipefd_0
      → handle_event ops rounds cur a e f s ≡ (
          if e.is_hangup
          then (deal_timer ((s.users_timer e.fd).timer) e.fd >>= λ _. pure f) s
          else if e.is_in
          then (dealwithread ops rounds cur e.fd a.works >>= λ _. pure f) s
          else if e.is_out
          then (dealwithwrite ops rounds cur e.fd a.works >>= λ _. pure f) s
          else some (f, s))
  unfolding handle_event
  handle_connected rounds cur a e f s n p =
      rw
        (
          is-other e.fd s.m_listenfd s.m_listenfd n refl,
          is-other e.fd s.m_pipefd_0 s.m_pipefd_0 p refl,
        )
        refl

  connected_lem :
      (rounds now cur : ℕ) (a : Answers T) (e : Event) (f : Flags) (ts : List Timer) (s : Server T)
      → Serves s now ts
      → (s.m_actormodel == 1) ≡ false
      → s.is_open e.fd ≡ true
      → now ≤ cur
      → length ts ≤ rounds
      → Returns
          (if e.is_hangup
            then (deal_timer ((s.users_timer e.fd).timer) e.fd >>= λ _. pure f) s
            else if e.is_in
            then (dealwithread ops rounds cur e.fd a.works >>= λ _. pure f) s
            else if e.is_out
            then (dealwithwrite ops rounds cur e.fd a.works >>= λ _. pure f) s
            else some (f, s))
          (λ _ s'. IsServing s' cur)
  connected_lem rounds now cur a e f ts s v p o le r = elim (Bool-cases e.is_hangup) [
    | inl h ↦ rw h (
        keeps (deal_timer ((s.users_timer e.fd).timer) e.fd) f s cur
          (hangup_lem now cur e.fd ts s v o le))
    | inr h ↦ rw h (elim (Bool-cases e.is_in) [
      | inl i ↦ rw i (
          keeps (dealwithread ops rounds cur e.fd a.works) f s cur
            (dealwithread_lem ops rounds now cur e.fd a.works ts s v p o le r))
      | inr i ↦ rw i (elim (Bool-cases e.is_out) [
        | inl w ↦ rw w (
            keeps (dealwithwrite ops rounds cur e.fd a.works) f s cur
              (dealwithwrite_lem ops rounds now cur e.fd a.works ts s v p o le r))
        | inr w ↦ rw w (record { timers = ts; serves = Serves-later now cur ts s v le })
      ])
    ])
  ]

  -- In the proactor model, a server that keeps its books handles every event of a registered descriptor,
  -- at a later time, with rounds for all timers and accepted descriptors below `MAX_FD`, without a fault of
  -- the timer list or of the arrays, and keeps its books:
  -- the list is in order, its timers are those of the open connections, one each, which `client_data` and
  -- `m_user_count` agree with.
  pub handle_event-IsServing :
      (rounds now cur : ℕ) (a : Answers T) (e : Event) (f : Flags) (s : Server T)
      → IsServing s now
      → (s.m_actormodel == 1) ≡ false
      → IsKnown s a e
      → now ≤ cur
      → IsEnough rounds s a
      → Returns (handle_event ops rounds cur a e f s) (λ _ s'. IsServing s' cur)
  handle_event-IsServing rounds now cur a e f s v p (listening l w) le b =
      let many = pos-injective _ _ (sym v.serves.accounts.counted ∙ b.counted) in
      rw (handle_listening rounds cur a e f s l) (
        keeps (dealclientdata ops rounds cur a.waiting) f s cur (
          dealclientdata_lem ops rounds now cur v.timers a.waiting s v.serves w le
            (omega (arith, many, b.enough))))
  handle_event-IsServing rounds now cur a e f s v p (signalled n h q i) le b =
      rw (handle_signalled rounds cur a e f s n h q i)
        (record { timers = v.timers; serves = Serves-later now cur v.timers s v.serves le })
  handle_event-IsServing rounds now cur a e f s v p (connected n q o) le b =
      let many = pos-injective _ _ (sym v.serves.accounts.counted ∙ b.counted) in
      rw (handle_connected rounds cur a e f s n q) (
        connected_lem rounds now cur a e f v.timers s v.serves p o le
          (omega (arith, many, b.enough)))

  timer_handler-IsServing :
      (rounds now cur : ℕ) (s : Server T)
      → IsServing s now
      → now ≤ cur
      → (users : ℕ) → s.m_user_count ≡ pos users
      → users < rounds
      → Returns (timer_handler rounds cur s) (λ _ s'. IsServing s' cur)
  timer_handler-IsServing rounds now cur s v le users c r =
      let many = pos-injective _ _ (sym v.serves.accounts.counted ∙ c) in
      Returns-map (timer_handler rounds cur s)
        (λ _ s'. Serves s' cur (select (is_later cur) v.timers)) _
        (λ _ s' w. record { timers = select (is_later cur) v.timers; serves = w })
        (timer_handler_lem rounds now cur v.timers s v.serves le (omega (arith, many, r)))

  -- The states that the event loop reaches, and when.
  pub data Reaches : ℕ → Server T → Type 0 where
    begins :
        {now : ℕ} {s : Server T}
        → s.timers ≡ new_timer_list
        → ((fd : ℕ) → s.is_open fd ≡ false)
        → s.m_user_count ≡ pos 0
        → Reaches now s
    handles :
        {now cur rounds : ℕ} {s s' : Server T} {a : Answers T} {e : Event} (f f' : Flags)
        → Reaches now s
        → (s.m_actormodel == 1) ≡ false
        → IsKnown s a e
        → now ≤ cur
        → IsEnough rounds s a
        → handle_event ops rounds cur a e f s ≡ some (f', s')
        → Reaches cur s'
    ticks :
        {now cur rounds users : ℕ} {s s' : Server T}
        → Reaches now s
        → now ≤ cur
        → s.m_user_count ≡ pos users
        → users < rounds
        → timer_handler rounds cur s ≡ some (tt, s')
        → Reaches cur s'

  -- In every state that the event loop of the proactor model reaches from one without connections, by
  -- events of registered descriptors, with accepted descriptors below `MAX_FD`, and by runs of the timers,
  -- the books are kept.
  pub Reaches-IsServing : {now : ℕ} {s : Server T} → Reaches now s → IsServing s now
  unfolding new_timer_list
  Reaches-IsServing (begins {s = s} e closed c) = record {
    timers = [];
    serves = record {
      is_list =
          subst (λ l. IsList l []) (sym e)
            (record { starts = refl; ends = tt; linked = tt; distinct = tt });
      sorted = tt;
      ends_by = tt;
      accounts = record { owned = tt; one_each = tt; opened = closed; counted = c };
    };
  }
  Reaches-IsServing (handles {now} {cur} {rounds} {s} {s'} {a} {e} f f' h p k le b q) =
      subst (λ r. Returns r (λ _ s'. IsServing s' cur)) q
        (handle_event-IsServing rounds now cur a e f s (Reaches-IsServing h) p k le b)
  Reaches-IsServing (ticks {now} {cur} {rounds} {users} {s} {s'} h le c r q) =
      subst (λ r. Returns r (λ _ s'. IsServing s' cur)) q
        (timer_handler-IsServing rounds now cur s (Reaches-IsServing h) le users c r)
