-- ===== src/WebServer/Wait.antt =====
-- The loops of `dealwithread` and `dealwithwrite` of webserver.cpp that wait for a worker, in the reactor
-- model.
use ai_inference_gateway.Prelude.{
  ℕ, ◌<◌, ◌≡◌, refl, ap, ◌∙◌, Bool, true, false, List, [], ◌∷◌, length, some, if◌then◌else◌, ◌==◌,
  update, arith, not, ◌&&◌, Bool-cases, inl, inr,
}
use mathlib.Core.Path.{fun_ext}
use ai_inference_gateway.Timer.Chain.{Timer, Returns, Returns-bind}
use ai_inference_gateway.ThreadPool.{report, conclude, serve_request}
use ai_inference_gateway.ThreadPool.Queue.{IsConnection, serve_request_lem, transfer}
use ai_inference_gateway.WebServer.{
  Server, Run, ◌>>=◌, ◌>>◌, pure, Operations, poll, await, deal_timer,
}
use ai_inference_gateway.WebServer.Serves.{Serves, run-bind}
use ai_inference_gateway.WebServer.Clients.{IsServing, Serves-beside, hangup_closes}

update-same : {T : Type 0} (h : ℕ → T) (u : ℕ) (x : T) → update h u x u ≡ x
update-same h u x = ground arith

update-again : {T : Type 0} (h : ℕ → T) (u : ℕ) (x y : T) → update (update h u x) u y ≡ update h u y
update-again h u x y = fun_ext (λ q. ground arith)

-- Other connections' flags are no part of the books.
IsServing-users :
    {T : Type 0} (s : Server T) (now : ℕ) (users : ℕ → T)
    → IsServing s now
    → IsServing (record s { users = users }) now
IsServing-users s now users v = record {
  timers = v.timers;
  serves = Serves-beside s (record s { users = users }) now v.timers v.serves refl refl refl refl;
}

-- The books are kept, and the connection is closed or nothing is.
abbrev pub Served : {T : Type 0} → ℕ → ℕ → Bool → Server T → Server T → Type 0
Served now fd closes s s' =
    IsServing s' now × (s'.is_open ≡ (if closes then update s.is_open fd false else s.is_open))

closed_if : (done : Bool) (n : ℕ) → ((if done then n else 1) == 1) ≡ not (done && not (n == 1))
closed_if true n = ground arith
closed_if false n = refl

swapped : {A : Type 0} (b : Bool) (x y : A) → (if not b then x else y) ≡ (if b then y else x)
swapped true x y = refl
swapped false x y = refl

module _ {T : Type 0} (ops : Operations T) where
  poll_waits :
      (timer fd : ℕ) (s : Server T)
      → (ops.improv (s.users fd) == 1) ≡ false
      → poll ops timer fd s ≡ some (false, s)
  unfolding poll
  poll_waits timer fd s e = rw e refl

  await_waits :
      (timer fd : ℕ) (work : T → T) (rest : List (T → T)) (s : Server T)
      → (ops.improv (s.users fd) == 1) ≡ false
      → await ops timer fd (work ∷ rest) s
        ≡ await ops timer fd rest (record s { users = update s.users fd (work (s.users fd)) })
  unfolding await
  await_waits timer fd work rest s e =
      run-bind (poll ops timer fd) _ false s s (poll_waits timer fd s e)

  poll_ends :
      (now fd : ℕ) (ts : List Timer) (s : Server T)
      → Serves s now ts
      → s.is_open fd ≡ true
      → (ops.improv (s.users fd) == 1) ≡ true
      → Returns
          (poll ops ((s.users_timer fd).timer) fd s)
          (λ done s'. (done ≡ true) × Served now fd (ops.timer_flag (s.users fd) == 1) s s')
  unfolding poll
  poll_ends now fd ts s v o e = rw e (elim (Bool-cases (ops.timer_flag (s.users fd) == 1)) [
    | inl f ↦ rw f (
        let flagged : Run T (Unit {0}) = λ s.
          some (tt, record s { users = update s.users fd (ops.clear_timer_flag (s.users fd)) }) in
        let ended : Run T Bool = λ s.
          some (true, record s { users = update s.users fd (ops.clear_improv (s.users fd)) }) in
        Returns-bind ((deal_timer ((s.users_timer fd).timer) fd >>= λ _. flagged) s) (λ _. ended)
          (λ _ s'. Served now fd true s s') (λ done s'. (done ≡ true) × Served now fd true s s')
          (Returns-bind (deal_timer ((s.users_timer fd).timer) fd s) (λ _. flagged)
            (λ _ s'. Served now fd true s s') (λ _ s'. Served now fd true s s')
            (hangup_closes now now fd ts s v o (omega arith))
            (λ _ s' k. (
              IsServing-users s' now (update s'.users fd (ops.clear_timer_flag (s'.users fd))) k.0,
              k.1,
            )))
          (λ _ s' k. (
            refl,
            (IsServing-users s' now (update s'.users fd (ops.clear_improv (s'.users fd))) k.0, k.1),
          )))
    | inr f ↦ rw f (refl, (IsServing-users s now _ (record { timers = ts; serves = v }), refl))
  ])

  -- In the reactor model, for requests whose flags keep the laws, on an open connection of a server whose
  -- books are right, which the main thread waits for: once a worker has served the request from its
  -- transfer to its end between two looks, the main thread leaves its loop at the next look, the books
  -- are kept, and the connection is closed if and only if the transfer failed or left the flag to close
  -- set; no other connection is opened or closed.
  pub await-serve_request :
      (now fd : ℕ) (s : Server T) (rest : List (T → T))
      → IsConnection ops.connection ops.improv ops.timer_flag
      → IsServing s now
      → s.is_open fd ≡ true
      → (ops.improv (s.users fd) == 1) ≡ false
      → 0 < length rest
      → Returns
          (await ops ((s.users_timer fd).timer) fd (serve_request ops.connection 1 ∷ rest) s)
          (λ _ s'.
            let (done, r) = transfer ops.connection (s.users fd) in
            IsServing s' now
            × (s'.is_open ≡ (
                if done && not (ops.timer_flag r == 1)
                then s.is_open
                else update s.is_open fd false)))
  unfolding await
  await-serve_request now fd s [] laws v o e r = absurd (omega arith)
  await-serve_request now fd s (work ∷ rest) laws v o e r =
      let c = serve_request ops.connection 1 (s.users fd) in
      let s1 = record s { users = update s.users fd c } in
      let kept = serve_request_lem ops.connection ops.improv ops.timer_flag (s.users fd) laws in
      let set : (ops.improv (s1.users fd) == 1) ≡ true =
        ap (λ c. ops.improv c == 1) (update-same s.users fd c) ∙ ap (λ n. n == 1) kept.0 in
      let (moved, r) = transfer ops.connection (s.users fd) in
      let flag : (ops.timer_flag (s1.users fd) == 1) ≡ not (moved && not (ops.timer_flag r == 1)) =
        ap (λ c. ops.timer_flag c == 1) (update-same s.users fd c)
        ∙ ap (λ n. n == 1) kept.1
        ∙ closed_if moved (ops.timer_flag r) in
      rw
        (await_waits ((s.users_timer fd).timer) fd (serve_request ops.connection 1) (work ∷ rest) s
          e)
        (Returns-bind (poll ops ((s.users_timer fd).timer) fd s1)
          (λ done. if done then pure tt else (do
            λ s. some (tt, record s { users = update s.users fd (work (s.users fd)) })
            await ops ((s1.users_timer fd).timer) fd rest))
          (λ done s'. (done ≡ true) × Served now fd (ops.timer_flag (s1.users fd) == 1) s1 s') _
          (poll_ends now fd v.timers s1
            (Serves-beside s s1 now v.timers v.serves refl refl refl refl) o set)
          (λ done s' k. rw (k.0) (
            k.1.0,
            k.1.1
                ∙ ap (λ b. if b then update s.is_open fd false else s.is_open) flag
                ∙ swapped (moved && not (ops.timer_flag r == 1)) _ _,
          )))

  -- A look at a request that is done and not flagged.
  looked :
      (timer fd : ℕ) (c : T) (s : Server T)
      → ops.improv c ≡ 1
      → (ops.timer_flag c == 1) ≡ false
      → poll ops timer fd (record s { users = update s.users fd c })
        ≡ some (true, record s { users = update s.users fd (ops.clear_improv c) })
  unfolding poll
  looked timer fd c s set unset =
      let same = update-same s.users fd c in
      let improv_set : (ops.improv (update s.users fd c fd) == 1) ≡ true =
        ap (λ c. ops.improv c == 1) same ∙ ap (λ n. n == 1) set in
      let flag_unset : (ops.timer_flag (update s.users fd c fd) == 1) ≡ false =
        ap (λ c. ops.timer_flag c == 1) same ∙ unset in
      rw (improv_set, flag_unset)
        (ap (λ h. some (true, record s { users = h }))
          (update-again s.users fd c (ops.clear_improv (update s.users fd c fd))
            ∙ ap (λ c. update s.users fd (ops.clear_improv c)) same))

  -- In the reactor model, for requests whose flags keep the laws and whose `improv` can be cleared, on an
  -- open connection that the main thread waits for: if it looks after a worker whose transfer failed has
  -- set `improv` and before that worker sets `timer_flag`, which was not set before, it leaves its loop
  -- and closes nothing, everything but `improv` being as the worker left it, and the flag to close that
  -- the worker then sets stands on an open connection with `improv` 0.
  pub await-report :
      (timer fd : ℕ) (s : Server T) (rest : List (T → T)) (reading : Bool)
      → IsConnection ops.connection ops.improv ops.timer_flag
      → s.is_open fd ≡ true
      → (ops.improv (s.users fd) == 1) ≡ false
      → (report ops.connection (s.users fd)).0 ≡ false
      → (ops.timer_flag ((report ops.connection (s.users fd)).1) == 1) ≡ false
      → 0 < length rest
      → ((r : T) → ops.improv (ops.clear_improv r) ≡ 0)
      → let c = (report ops.connection (s.users fd)).1 in
        let s' = record s { users = update s.users fd (ops.clear_improv c) } in
        let late = conclude ops.connection reading false (s'.users fd) in
        (await ops timer fd ((λ c. (report ops.connection c).1) ∷ rest) s ≡ some (tt, s'))
        × (s'.is_open fd ≡ true)
        × (ops.improv late ≡ 0)
        × (ops.timer_flag late ≡ 1)
  unfolding await poll report conclude
  await-report timer fd s [] reading laws o e f g r clears = absurd (omega arith)
  await-report timer fd s (work ∷ rest) reading laws o e f g r clears =
      let c = (report ops.connection (s.users fd)).1 in
      let s1 = record s { users = update s.users fd c } in
      let set : ops.improv c ≡ 1 = laws.improv_set _ in
      (
        await_waits timer fd (λ c. (report ops.connection c).1) (work ∷ rest) s e
            ∙ run-bind (poll ops timer fd) _ true s1 _ (looked timer fd c s set g),
        o,
        ap (λ r. ops.improv (conclude ops.connection reading false r))
              (update-same s.users fd (ops.clear_improv c))
            ∙ laws.improv_kept _
            ∙ clears c,
        laws.timer_set _,
      )
