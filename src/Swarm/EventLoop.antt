-- ===== src/Swarm/EventLoop.antt =====
-- The loop of the swarm's task in owlnest/src/net/p2p/swarm/mod.rs, as far as it decides when the swarm
-- is polled: the number of events in the broadcast channel against the size of its buffer. What is done
-- with a request or an event before it is sent on is left out.
use owl_nest.Base.{
  ℕ, ◌+◌, ◌-◌, ◌*◌, ◌/◌, ◌≤◌, ◌≡◌, Bool, false, ◌&&◌, List, [], ◌∷◌, ltb, if◌then◌else◌, arith,
}

pub record Config : Type 0 where
  pub swarm_event_buffer_size : ℕ
  pub swarm_event_timeout : ℕ

unfoldable pub default : Config
default = record { swarm_event_buffer_size = 16; swarm_event_timeout = 200 }

-- `(size >> 2) << 2`.
unfoldable pub swarm_event_buffer_upper_bound : Config → ℕ
swarm_event_buffer_upper_bound config = config.swarm_event_buffer_size / 4 * 4

unfoldable pub swarm_event_buffer_high_mark : Config → ℕ
swarm_event_buffer_high_mark config = config.swarm_event_buffer_size / 2

-- What a branch of the `select!` is ready with, or what the receivers of the channel do: they take some
-- events. An event of the swarm is sent to the channel if it has a receiver.
pub data Input : Type 0 where
  incoming : Input
  swarm_event : Bool → Input
  timer : Input
  received : ℕ → Input

-- The events that wait in the channel, those that the swarm was polled for, and the warnings.
pub record Loop : Type 0 where
  pub waiting : ℕ
  pub polled : ℕ
  pub warnings : ℕ

abbrev pub start : Loop
start = record { waiting = 0; polled = 0; warnings = 0 }

module _ (config : Config) where
  unfoldable pub turn : Loop → Input → Loop
  unfolding swarm_event_buffer_upper_bound swarm_event_buffer_high_mark
  turn s incoming = s
  turn s (swarm_event has_receiver) =
      if ltb s.waiting (swarm_event_buffer_upper_bound config)
      then record s { waiting = s.waiting + (if has_receiver then 1 else 0); polled = s.polled + 1 }
      else s
  turn s timer =
      if ltb (swarm_event_buffer_high_mark config) s.waiting
      then record s { warnings = s.warnings + 1 }
      else s
  turn s (received n) = record s { waiting = s.waiting - n }

  unfoldable pub run : Loop → List Input → Loop
  unfolding turn
  run s [] = s
  run s (i ∷ is) = run (turn s i) is

  -- What the loop keeps.
  abbrev Kept : Loop → Type 0
  Kept s =
      (s.waiting ≤ swarm_event_buffer_upper_bound config)
      × ((ltb config.swarm_event_buffer_size 4 && ltb 0 s.polled) ≡ false)

  turn-Kept : (s : Loop) (i : Input) → Kept s → Kept (turn s i)
  unfolding turn swarm_event_buffer_upper_bound
  turn-Kept s incoming k = k
  turn-Kept s (swarm_event b) k = (ground arith, ground arith)
  turn-Kept s timer k = (ground arith, ground arith)
  turn-Kept s (received n) k = (omega arith, k.1)

  run-Kept : (is : List Input) (s : Loop) → Kept s → Kept (run s is)
  unfolding run
  run-Kept [] s k = k
  run-Kept (i ∷ is) s k = run-Kept is (turn s i) (turn-Kept s i k)

  -- Whatever happens, no more events wait in the channel than the configured size of its buffer; and if
  -- that size is less than four, the swarm is never polled at all.
  pub run-bounds :
      (is : List Input)
      → ((run start is).waiting ≤ config.swarm_event_buffer_size)
        × ((ltb config.swarm_event_buffer_size 4 && ltb 0 (run start is).polled) ≡ false)
  unfolding swarm_event_buffer_upper_bound
  run-bounds is =
      let (few, none_polled) = run-Kept is start (omega arith, ground arith) in
      (omega arith, none_polled)
