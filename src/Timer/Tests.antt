-- ===== src/Timer/Tests.antt =====
-- Runs of lst_timer.cpp on a list of three timers, and another timer beside it.
use ai_inference_gateway.Prelude.{
  ℕ, ◌≡◌, refl, [], ◌∷◌, Option, none, some, if◌then◌else◌, ◌==◌, arith,
}
use ai_inference_gateway.Timer.{
  Node, TimerList, new_timer_list, add_timer, adjust_timer, del_timer, tick, set_expire, store,
  ◌>>◌,
}
use ai_inference_gateway.Timer.Chain.{Timer, node, IsList, Returns}
use ai_inference_gateway.Timer.Remove.{Removed, del_timer_lem}
use ai_inference_gateway.Timer.Order.{
  Ordered, Expired, add_timer-IsSorted, adjust_timer-IsSorted, tick-IsSorted,
}

abbrev timer_a : Timer
timer_a = record { addr = 10; expire = 5; user = 1 }

abbrev timer_b : Timer
timer_b = record { addr = 20; expire = 8; user = 2 }

abbrev timer_c : Timer
timer_c = record { addr = 30; expire = 9; user = 3 }

abbrev timer_d : Timer
timer_d = record { addr = 40; expire = 8; user = 4 }

-- The first timer, put off.
abbrev timer_late : Timer
timer_late = record { addr = 10; expire = 8; user = 1 }

abbrev nodes_with : Timer → ℕ → Option Node
nodes_with a p =
    if p == 10
    then some (node a 0 20)
    else if p == 20
    then some (node timer_b 10 30)
    else if p == 30
    then some (node timer_c 20 0)
    else if p == 40
    then some (node timer_d 0 0)
    else none

abbrev three_timers : TimerList
three_timers = record { nodes = nodes_with timer_a; head = 10; tail = 30 }

abbrev late_timers : TimerList
late_timers = record { nodes = nodes_with timer_late; head = 10; tail = 30 }

three_timers-IsList : IsList three_timers (timer_a ∷ timer_b ∷ timer_c ∷ [])
three_timers-IsList = record {
  starts = refl;
  ends = refl;
  linked = (ground arith, refl, (ground arith, refl, (ground arith, refl, tt)));
  distinct = (refl, (refl, (refl, tt)));
}

late_timers-IsList : IsList late_timers (timer_late ∷ timer_b ∷ timer_c ∷ [])
late_timers-IsList = record {
  starts = refl;
  ends = refl;
  linked = (ground arith, refl, (ground arith, refl, (ground arith, refl, tt)));
  distinct = (refl, (refl, (refl, tt)));
}

add_timer-IsSorted_example : Returns (add_timer 3 40 three_timers) (λ _ l'.
    Ordered three_timers l'
      (timer_d ∷ timer_a ∷ timer_b ∷ timer_c ∷ [])
      (timer_a ∷ timer_b ∷ timer_d ∷ timer_c ∷ []))
add_timer-IsSorted_example =
    add_timer-IsSorted 3 timer_d (timer_a ∷ timer_b ∷ timer_c ∷ []) three_timers three_timers-IsList
      ((omega arith, (omega arith, tt)), ((omega arith, tt), (tt, tt)))
      (record { stored = record { ne_null = ground arith; holds = refl }; out = refl })
      (omega arith)

adjust_timer-IsSorted_example : Returns (adjust_timer 3 10 late_timers) (λ _ l'.
    Ordered late_timers l'
      (timer_late ∷ timer_b ∷ timer_c ∷ [])
      (timer_b ∷ timer_late ∷ timer_c ∷ []))
adjust_timer-IsSorted_example =
    adjust_timer-IsSorted 3 [] timer_late (timer_b ∷ timer_c ∷ []) late_timers late_timers-IsList
      ((omega arith, tt), (tt, tt)) tt (omega arith)

del_timer_lem_example :
    Returns
      (del_timer 20 three_timers)
      (λ _ l'. Removed three_timers timer_b (timer_a ∷ []) (timer_c ∷ []) l')
del_timer_lem_example =
    del_timer_lem (timer_a ∷ []) (timer_c ∷ []) timer_b three_timers three_timers-IsList

tick-IsSorted_example :
    Returns
      (tick 4 8 three_timers)
      (λ users l'. Expired 8 three_timers (timer_a ∷ timer_b ∷ timer_c ∷ []) users l')
tick-IsSorted_example =
    tick-IsSorted 4 8 (timer_a ∷ timer_b ∷ timer_c ∷ []) three_timers three_timers-IsList
      ((omega arith, (omega arith, tt)), ((omega arith, tt), (tt, tt))) (omega arith)

-- The result of a run, without the store.
abbrev result : {A : Type 0} → Option (A × TimerList) → Option A
result r = elim r [ none ↦ none | some (a, l) ↦ some a ]

tick-due : result (tick 4 8 three_timers) ≡ some (1 ∷ 2 ∷ [])
unfolding tick
tick-due = refl

-- Two timers put into an empty list out of order, one put off, and a tick.
add-adjust-tick :
    result (
      (do
        store 10 (some (node timer_a 0 0))
        store 30 (some (node timer_c 0 0))
        add_timer 5 30
        add_timer 5 10
        set_expire 10 12
        adjust_timer 5 10
        tick 5 20)
        new_timer_list)
    ≡ some (3 ∷ 1 ∷ [])
unfolding store add_timer set_expire adjust_timer tick new_timer_list
add-adjust-tick = refl

del-tick : result ((do del_timer 20; tick 5 20) three_timers) ≡ some (1 ∷ 3 ∷ [])
unfolding del_timer tick
del-tick = refl
