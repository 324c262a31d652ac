-- ===== src/Swarm/Examples.antt =====
-- The swarm's events and its loop at concrete inputs.
use owl_nest.Base.{◌≡◌, refl, String, true, false, ◌&&◌, List, [], ◌∷◌, ltb, ◌≤◌}
use owl_nest.Swarm.{Errors}
use owl_nest.Swarm.EventLoop.{
  default, start, turn, run, Input, incoming, swarm_event, timer, received, run-bounds,
  swarm_event_buffer_upper_bound, swarm_event_buffer_high_mark,
}

abbrev pub errors : Errors
errors = record { Cause = String; debug = λ text. text }

-- A channel of five with a slow receiver: the swarm is polled four times, and again when there is room.
abbrev inputs : List Input
inputs =
    swarm_event true
    ∷ swarm_event true
    ∷ incoming
    ∷ swarm_event true
    ∷ swarm_event true
    ∷ swarm_event true
    ∷ timer
    ∷ received 1
    ∷ swarm_event true
    ∷ []

loop_test :
    run (record default { swarm_event_buffer_size = 5 }) start inputs
    ≡ record { waiting = 4; polled = 5; warnings = 1 }
unfolding run turn default swarm_event_buffer_upper_bound swarm_event_buffer_high_mark
loop_test = refl

run-bounds_example :
    ((run (record default { swarm_event_buffer_size = 5 }) start inputs).waiting ≤ 5)
    × ((ltb 5 4 && ltb 0 (run (record default { swarm_event_buffer_size = 5 }) start inputs).polled)
        ≡ false)
run-bounds_example = run-bounds (record default { swarm_event_buffer_size = 5 }) inputs
