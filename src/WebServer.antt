-- ===== src/WebServer.antt =====
-- webserver.cpp, webserver.h and the call-back of lst_timer.cpp: the main thread's handling of
-- connections, their timers and signals. The connections are the array `users`, of a type whose
-- operations are a record; what the kernel answers (accepted descriptors, received signals, events) and
-- the addresses that `new util_timer` gives are arguments. `is_open` says which connections the kernel
-- holds open. A command is `none` where one of the timer list is.
pub mod Accounts
pub mod Shuffle
pub mod Until
pub mod Serves
pub mod Accept
pub mod Clients
pub mod Events
pub mod Loop
pub mod Wait
pub mod Setup
mod Tests
use ai_inference_gateway.Prelude.{
  ℕ, zero, suc, ◌+◌, ◌*◌, Bool, true, false, List, [], ◌∷◌, Option, none, some, if◌then◌else◌, leb,
  ◌==◌, ◌&&◌, ◌||◌, update,
}
use ai_inference_gateway.Prelude.Int.{ℤ, pos, negsuc, ◌+ℤ◌, leb_ℤ}
use ai_inference_gateway.Timer.{
  Node, TimerList, Cmd, store, load, set_expire, add_timer, adjust_timer, del_timer, tick,
}
use ai_inference_gateway.ThreadPool.{Connection, ThreadPool, append, append_p, post_queuestat}
use ai_inference_gateway.Http.{decrement}

abbrev pub max_fd : ℕ
max_fd = 65536

abbrev pub timeslot : ℕ
timeslot = 5

abbrev pub sigalrm : ℕ
sigalrm = 14

abbrev pub sigterm : ℕ
sigterm = 15

-- `client_data`; nothing reads its address.
pub record ClientData : Type 0 where
  pub sockfd : ℕ
  pub timer : ℕ

-- What `WebServer` calls of `http_conn`, beside what the thread pool does.
pub record Operations (T : Type 0) : Type 0 where
  pub connection : Connection T
  pub init : ℕ → T → T
  pub improv : T → ℕ
  pub timer_flag : T → ℕ
  pub clear_improv : T → T
  pub clear_timer_flag : T → T

-- The two trigger modes that `trig_mode` sets.
pub record TrigMode : Type 0 where
  pub m_listen_trigmode : ℕ
  pub m_conn_trigmode : ℕ

unfoldable pub trig_mode : ℕ → TrigMode → TrigMode
trig_mode mode m =
    if mode == 0
    then record { m_listen_trigmode = 0; m_conn_trigmode = 0 }
    else if mode == 1
    then record { m_listen_trigmode = 0; m_conn_trigmode = 1 }
    else if mode == 2
    then record { m_listen_trigmode = 1; m_conn_trigmode = 0 }
    else if mode == 3
    then record { m_listen_trigmode = 1; m_conn_trigmode = 1 }
    else m

-- `users` and `users_timer` are arrays of `max_fd` entries; `timer` is where a descriptor comes in.
pub record Server (T : Type 0) : Type 0 where
  pub m_actormodel : ℕ
  pub m_listenfd : ℕ
  pub m_pipefd_0 : ℕ
  pub m_listen_trigmode : ℕ
  pub timers : TimerList
  pub users_timer : ℕ → ClientData
  pub users : ℕ → T
  pub m_user_count : ℤ
  pub m_pool : ThreadPool
  pub is_open : ℕ → Bool

abbrev pub Run : Type 0 → Type 0 → Type 0
Run T A = Server T → Option (A × Server T)

abbrev pub pure : {T A : Type 0} → A → Run T A
pure a s = some (a, s)

infixl 5 ◌>>=◌ ◌>>◌
abbrev pub ◌>>=◌ : {T A B : Type 0} → Run T A → (A → Run T B) → Run T B
◌>>=◌ m f s = elim (m s) [ none ↦ none | some (a, s') ↦ f a s' ]

abbrev pub ◌>>◌ : {T B : Type 0} → Run T (Unit {0}) → Run T B → Run T B
m >> n = m >>= λ _. n

-- A command of `utils.m_timer_lst`.
abbrev pub on_timers : {T A : Type 0} → Cmd A → Run T A
on_timers m s = elim (m s.timers) [ none ↦ none | some (a, l) ↦ some (a, record s { timers = l }) ]

-- `cb_func`: the connection is closed, and there is one less.
unfoldable pub cb_func : {T : Type 0} → ℕ → Server T → Server T
cb_func user s = record s {
  is_open = update s.is_open ((s.users_timer user).sockfd) false;
  m_user_count = decrement s.m_user_count;
}

-- `http_conn::close_conn` by a worker, when it has no answer to write: the kernel closes the connection,
-- and there is one less. Its timer stays.
unfoldable pub worker_close : {T : Type 0} → ℕ → Server T → Server T
worker_close fd s = record s {
  is_open = update s.is_open fd false;
  m_user_count = decrement s.m_user_count;
}

-- The call-backs of `tick`, none of which touches the list.
unfoldable pub call_back : {T : Type 0} → List ℕ → Server T → Server T
unfolding cb_func
call_back [] s = s
call_back (user ∷ rest) s = call_back rest (cb_func user s)

-- `timer_handler`, at the time `cur`; `alarm` is the kernel's.
unfoldable pub timer_handler : {T : Type 0} → ℕ → ℕ → Run T (Unit {0})
unfolding tick call_back
timer_handler rounds cur = do due ← on_timers (tick rounds cur); λ s. some (tt, call_back due s)

-- `adjust_timer`, at the time `cur`.
unfoldable pub put_off : {T : Type 0} → ℕ → ℕ → ℕ → Run T (Unit {0})
unfolding set_expire adjust_timer
put_off rounds cur timer = do
  on_timers (set_expire timer (cur + 3 * timeslot))
  on_timers (adjust_timer rounds timer)

-- `deal_timer`: the call-back is the one that the timer holds, which is `cb_func`.
unfoldable pub deal_timer : {T : Type 0} → ℕ → ℕ → Run T (Unit {0})
unfolding load cb_func del_timer
deal_timer timer sockfd = do
  on_timers (load timer) >>= λ _. λ s. some (tt, cb_func sockfd s)
  if timer == 0 then pure tt else on_timers (del_timer timer)

-- `if (timer) adjust_timer(timer);`
unfoldable pub put_off_if : {T : Type 0} → ℕ → ℕ → ℕ → Run T (Unit {0})
unfolding put_off
put_off_if rounds cur timer = if timer == 0 then pure tt else put_off rounds cur timer

-- `m_pool->append_p(users + sockfd);`
unfoldable pub append_p_request : {T : Type 0} → ℕ → Run T (Unit {0})
unfolding append_p post_queuestat
append_p_request sockfd s =
    let (accepted, pool) = append_p (some sockfd) s.m_pool in
    some (tt, record s { m_pool = if accepted then post_queuestat pool else pool })

-- `timeout` and `stop_server` of `eventLoop`.
pub record Flags : Type 0 where
  pub timeout : Bool
  pub stop_server : Bool

-- The loop over the signals in `dealwithsingal`, and the whole, with what `recv` gives: `none` is -1.
unfoldable pub note_signals : List ℕ → Flags → Flags
note_signals [] f = f
note_signals (sig ∷ rest) f = note_signals rest (
    if sig == sigalrm
    then record f { timeout = true }
    else if sig == sigterm
    then record f { stop_server = true }
    else f)

unfoldable pub dealwithsingal : Option (List ℕ) → Flags → Bool × Flags
unfolding note_signals
dealwithsingal none f = (false, f)
dealwithsingal (some []) f = (false, f)
dealwithsingal (some (sig ∷ rest)) f = (true, note_signals (sig ∷ rest) f)

-- A ready descriptor: its error, input and output bits.
pub record Event : Type 0 where
  pub fd : ℕ
  pub is_hangup : Bool
  pub is_in : Bool
  pub is_out : Bool

-- What the kernel and the workers answer while an event is handled.
pub record Answers (T : Type 0) : Type 0 where
  pub waiting : List (ℕ × ℕ)
  pub signals : Option (List ℕ)
  pub works : List (T → T)

module _ {T : Type 0} (ops : Operations T) where
  -- `timer`, with the address of the new `util_timer`. `users` and `users_timer` have `max_fd` entries:
  -- beyond them the command has no result. Every later use of the arrays is at a descriptor that was
  -- accepted here.
  unfoldable pub timer : ℕ → ℕ → ℕ → ℕ → Run T (Unit {0})
  unfolding store add_timer
  timer rounds cur address connfd = do
    λ s.
        if leb max_fd connfd
        then none
        else some (
          tt,
          record s {
            users = update s.users connfd (ops.init connfd (s.users connfd));
            m_user_count = s.m_user_count +ℤ pos 1;
            users_timer = update s.users_timer connfd (record { sockfd = connfd; timer = address });
          },
        )
    on_timers (
        store address
          (some (record { expire = cur + 3 * timeslot; user_data = connfd; prev = 0; next = 0 })))
    on_timers (add_timer rounds address)

  -- One accepted descriptor: false where there are too many, and it is closed.
  unfoldable pub accept_one : ℕ → ℕ → ℕ → ℕ → Run T Bool
  unfolding timer
  accept_one rounds cur address connfd s =
      let opened = record s { is_open = update s.is_open connfd true } in
      if leb_ℤ (pos max_fd) s.m_user_count
      then some (false, record s { is_open = update s.is_open connfd false })
      else (timer rounds cur address connfd >>= λ _. pure true) opened

  -- The loop of `dealclientdata`: each waiting connection, and where its timer will be.
  unfoldable pub accept_all : ℕ → ℕ → List (ℕ × ℕ) → Run T (Unit {0})
  unfolding accept_one
  accept_all rounds cur [] = pure tt
  accept_all rounds cur ((connfd, address) ∷ rest) = do
    accepted ← accept_one rounds cur address connfd
    if accepted then accept_all rounds cur rest else pure tt

  -- `dealclientdata`, with the connections that wait to be accepted.
  unfoldable pub dealclientdata : ℕ → ℕ → List (ℕ × ℕ) → Run T Bool
  unfolding accept_one accept_all
  dealclientdata rounds cur waiting s =
      if s.m_listen_trigmode == 0
      then elim waiting [
        | [] ↦ some (false, s)
        | (connfd, address) ∷ rest ↦ accept_one rounds cur address connfd s
      ]
      else (accept_all rounds cur waiting >>= λ _. pure false) s

  -- One look at `improv` in the loops that wait for the thread pool: true where the loop ends.
  unfoldable pub poll : ℕ → ℕ → Run T Bool
  unfolding deal_timer
  poll timer sockfd s =
      if ops.improv (s.users sockfd) == 1
      then (do
        if ops.timer_flag (s.users sockfd) == 1
            then (do
              deal_timer timer sockfd
              λ s. some (
                tt,
                record s { users = update s.users sockfd (ops.clear_timer_flag (s.users sockfd)) },
              ))
            else pure tt
        λ s.
            some (
              true,
              record s { users = update s.users sockfd (ops.clear_improv (s.users sockfd)) },
            ))
          s
      else some (false, s)

  -- The loop itself: between two looks the workers do something to the connection. `none` where they do
  -- no more and the loop still waits.
  unfoldable pub await : ℕ → ℕ → List (T → T) → Run T (Unit {0})
  unfolding poll
  await timer sockfd [] = λ s. none
  await timer sockfd (work ∷ rest) = do
    done ← poll timer sockfd
    if done then pure tt else do
      λ s. some (tt, record s { users = update s.users sockfd (work (s.users sockfd)) })
      await timer sockfd rest

  -- `m_pool->append(users + sockfd, state);`
  unfoldable pub append_request : ℕ → ℕ → Run T (Unit {0})
  unfolding append post_queuestat
  append_request sockfd state s =
      let (accepted, pool, users) = append ops.connection sockfd state s.m_pool s.users in
      some (tt, record s { m_pool = if accepted then post_queuestat pool else pool; users = users })

  -- The reactor's half of `dealwithread` and `dealwithwrite`.
  unfoldable pub hand_over : ℕ → ℕ → ℕ → ℕ → ℕ → List (T → T) → Run T (Unit {0})
  unfolding put_off_if append_request await
  hand_over rounds cur timer sockfd state works = do
    put_off_if rounds cur timer
    append_request sockfd state
    await timer sockfd works

  unfoldable pub dealwithread : ℕ → ℕ → ℕ → List (T → T) → Run T (Unit {0})
  unfolding hand_over append_p_request put_off_if deal_timer
  dealwithread rounds cur sockfd works s =
      let timer = (s.users_timer sockfd).timer in
      if s.m_actormodel == 1
      then hand_over rounds cur timer sockfd 0 works s
      else (let (done, c) = ops.connection.read_once (s.users sockfd) in
          let s' = record s { users = update s.users sockfd c } in
          if done
          then (append_p_request sockfd >>= λ _. put_off_if rounds cur timer) s'
          else deal_timer timer sockfd s')

  unfoldable pub dealwithwrite : ℕ → ℕ → ℕ → List (T → T) → Run T (Unit {0})
  unfolding hand_over put_off_if deal_timer
  dealwithwrite rounds cur sockfd works s =
      let timer = (s.users_timer sockfd).timer in
      if s.m_actormodel == 1
      then hand_over rounds cur timer sockfd 1 works s
      else (let (done, c) = ops.connection.write (s.users sockfd) in
          let s' = record s { users = update s.users sockfd c } in
          if done then put_off_if rounds cur timer s' else deal_timer timer sockfd s')

  -- One event of `eventLoop`.
  unfoldable pub handle_event : ℕ → ℕ → Answers T → Event → Flags → Run T Flags
  unfolding dealclientdata deal_timer dealwithsingal dealwithread dealwithwrite
  handle_event rounds cur a e f s =
      if e.fd == s.m_listenfd
      then (dealclientdata rounds cur a.waiting >>= λ _. pure f) s
      else if e.is_hangup
      then (deal_timer ((s.users_timer e.fd).timer) e.fd >>= λ _. pure f) s
      else if (e.fd == s.m_pipefd_0) && e.is_in
      then some ((dealwithsingal a.signals f).1, s)
      else if e.is_in
      then (dealwithread rounds cur e.fd a.works >>= λ _. pure f) s
      else if e.is_out
      then (dealwithwrite rounds cur e.fd a.works >>= λ _. pure f) s
      else some (f, s)

  -- The events of one `epoll_wait`, in order.
  unfoldable pub handle_events : ℕ → ℕ → List (Answers T × Event) → Flags → Run T Flags
  unfolding handle_event
  handle_events rounds cur [] f = pure f
  handle_events rounds cur ((a, e) ∷ rest) f = do
    f' ← handle_event rounds cur a e f
    handle_events rounds cur rest f'

  -- One turn of `eventLoop` after `epoll_wait` has answered.
  unfoldable pub turn : ℕ → ℕ → List (Answers T × Event) → Flags → Run T Flags
  unfolding handle_events timer_handler
  turn rounds cur events f = do
    f' ← handle_events rounds cur events f
    if f'.timeout
        then (timer_handler rounds cur >>= λ _. pure (record f' { timeout = false }))
        else pure f'

  -- `eventLoop`: the turns that `epoll_wait` gives, until a signal stops it.
  unfoldable pub event_loop : ℕ → List (ℕ × List (Answers T × Event)) → Flags → Run T Flags
  unfolding turn
  event_loop rounds [] f = pure f
  event_loop rounds ((cur, events) ∷ rest) f =
      if f.stop_server
      then pure f
      else (do f' ← turn rounds cur events f; event_loop rounds rest f')
