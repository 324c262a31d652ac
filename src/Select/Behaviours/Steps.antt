-- ===== src/Select/Behaviours/Steps.antt =====
-- One input of the behaviour of the node and what it is to its protocols' behaviours:
-- owlnest-macro/src/behaviour_select.rs.
use owl_nest.Base.{
  ◌≡◌, refl, sym, ap, Bool, true, false, Option, none, some, List, [], ◌∷◌, inl, inr, if◌then◌else◌,
  is_some,
}
use owl_nest.Blob.Types.{Run, done, panicked, stuck, ◌>>=◌}
use owl_nest.Select.{OneOf, Member, here, there, field, own}
use owl_nest.Select.Behaviours.{
  NetworkBehaviour, Connection, FromSwarm, ToSwarm, uncovered, States, Ready, retag, later_ready,
  after_first, poll, on_connection_handler_event, on_swarm_event,
}

-- What happens to a behaviour.
pub data Input (FromHandler : Type 0) : Type 0 where
  polled : Input FromHandler
  reported : Connection → FromHandler → Input FromHandler
  informed : FromSwarm → Input FromHandler

-- The behaviour of the node.
abbrev pub step :
    (bs : List NetworkBehaviour)
    → States bs
    → Input (OneOf NetworkBehaviour.FromHandler bs)
    → Run (Ready bs × States bs)
step bs all polled = poll bs all
step bs all (reported connection ev) = done (none, on_connection_handler_event bs connection ev all)
step bs all (informed ev) = done (none, on_swarm_event bs ev all)

-- What a behaviour is ready with.
abbrev pub OwnReady : NetworkBehaviour → Type 0
OwnReady b = Option (ToSwarm b.Event b.ToHandler)

-- A behaviour by itself, for which an input of the node may be none of its own.
abbrev pub own_step :
    (b : NetworkBehaviour) → b.State → Option (Input b.FromHandler) → OwnReady b × b.State
own_step b s none = (none, s)
own_step b s (some polled) = b.poll s
own_step b s (some (reported connection ev)) = (none, b.on_connection_handler_event connection ev s)
own_step b s (some (informed ev)) = (none, b.on_swarm_event ev s)

-- A poll of the node comes to a protocol if none of those before it is ready.
abbrev pub is_asked :
    {b : NetworkBehaviour} {bs : List NetworkBehaviour} → Member b bs → States bs → Bool
is_asked here all = true
is_asked (there {y = y} m) (s, rest) = if is_some (y.poll s).0 then false else is_asked m rest

-- What an input of the node is to one protocol: a poll that comes to it, a report of its own handler,
-- and all that libp2p informs of.
abbrev pub own_input :
    {b : NetworkBehaviour} {bs : List NetworkBehaviour}
    → Member b bs
    → States bs
    → Input (OneOf NetworkBehaviour.FromHandler bs)
    → Option (Input b.FromHandler)
own_input m all polled = if is_asked m all then some polled else none
own_input m all (reported connection ev) = elim (own NetworkBehaviour.FromHandler m ev) [
  | some e ↦ some (reported connection e)
  | none ↦ none
]
own_input m all (informed ev) = some (informed ev)

-- What all are ready with, in the variants of all: the first one's request if it has one.
abbrev pub both_ready :
    (b : NetworkBehaviour) (bs : List NetworkBehaviour) → OwnReady b → Ready bs → Ready (b ∷ bs)
both_ready b bs none later = later_ready b bs later
both_ready b bs (some ev) later = some (retag inl inl ev)

abbrev pub all_ready :
    (bs : List NetworkBehaviour) → ((b : NetworkBehaviour) → Member b bs → OwnReady b) → Ready bs
all_ready [] each = none
all_ready (b ∷ bs) each = both_ready b bs (each b here) (all_ready bs (λ c m. each c (there m)))

-- What the input is to a protocol by itself.
abbrev pub own_result :
    {bs : List NetworkBehaviour}
    → States bs
    → Input (OneOf NetworkBehaviour.FromHandler bs)
    → (b : NetworkBehaviour) → Member b bs
    → OwnReady b × b.State
own_result all i b m = own_step b (field NetworkBehaviour.State m all) (own_input m all i)

-- The states are those that the protocols' behaviours come to by themselves, and the node is ready
-- with what they are ready with; or one that is asked has something that the program does not know.
abbrev pub AllGoOn :
    (bs : List NetworkBehaviour)
    → States bs
    → Input (OneOf NetworkBehaviour.FromHandler bs)
    → Run (Ready bs × States bs)
    → Type 1
AllGoOn bs all i (done (r, all')) =
    ((b : NetworkBehaviour) (m : Member b bs)
      → (own_result all i b m).1 ≡ field NetworkBehaviour.State m all')
    × (r ≡ all_ready bs (λ b m. (own_result all i b m).0))
AllGoOn bs all i panicked =
    (b : NetworkBehaviour) × (m : Member b bs) × ((own_result all i b m).0 ≡ some uncovered)
AllGoOn bs all i stuck = (b : NetworkBehaviour) × (m : Member b bs) × ⊥

-- Nobody speaks.
none_ready :
    (bs : List NetworkBehaviour) (each : (b : NetworkBehaviour) → Member b bs → OwnReady b)
    → ((b : NetworkBehaviour) (m : Member b bs) → each b m ≡ none)
    → all_ready bs each ≡ none
none_ready [] each quiet = refl
none_ready (b ∷ bs) each quiet =
    rw (quiet b here, none_ready bs (λ c m. each c (there m)) (λ c m. quiet c (there m))) refl

module _ (b : NetworkBehaviour) (bs : List NetworkBehaviour) where
  -- The others were polled.
  others_go_on :
      (s s' : b.State) (rest : States bs) (others : Run (Ready bs × States bs))
      → b.poll s ≡ (none, s')
      → AllGoOn bs rest polled others
      → AllGoOn (b ∷ bs) (s, rest) polled (others >>= λ x. done (later_ready b bs x.0, (s', x.1)))
  others_go_on s s' rest (done (r, rest')) asked (go, e) =
      (each, rw asked (ap (later_ready b bs) e))
    where
      each :
          (c : NetworkBehaviour) (m : Member c (b ∷ bs))
          → (own_result {bs = b ∷ bs} (s, rest) polled c m).1
            ≡ field NetworkBehaviour.State m (s', rest')
      each c here = ap (λ r. r.1) asked
      each c (there m) = rw asked (go c m)
  others_go_on s s' rest panicked asked (c, m, unknown) = (c, there m, rw asked unknown)
  others_go_on s s' rest stuck asked (c, m, never) = absurd never

  first_goes_on :
      (s s' : b.State) (rest : States bs) (ev : ToSwarm b.Event b.ToHandler)
      → b.poll s ≡ (some ev, s')
      → AllGoOn (b ∷ bs) (s, rest) polled (done (some (retag inl inl ev), (s', rest)))
  first_goes_on s s' rest ev asked = (each, rw asked refl)
    where
      each :
          (c : NetworkBehaviour) (m : Member c (b ∷ bs))
          → (own_result {bs = b ∷ bs} (s, rest) polled c m).1
            ≡ field NetworkBehaviour.State m (s', rest)
      each c here = ap (λ r. r.1) asked
      each c (there m) = rw asked refl

  after_first-AllGoOn :
      (s : b.State) (rest : States bs) (r : OwnReady b × b.State)
      (others : Run (Ready bs × States bs))
      → b.poll s ≡ r
      → AllGoOn bs rest polled others
      → AllGoOn (b ∷ bs) (s, rest) polled (after_first b bs r rest others)
  unfolding after_first
  after_first-AllGoOn s rest (none, s') others asked go = others_go_on s s' rest others asked go
  after_first-AllGoOn s rest (some uncovered, s') others asked go = (b, here, ap (λ r. r.0) asked)
  after_first-AllGoOn s rest (some ev, s') others asked go = first_goes_on s s' rest ev asked

poll-AllGoOn : (bs : List NetworkBehaviour) (all : States bs) → AllGoOn bs all polled (poll bs all)
unfolding poll
poll-AllGoOn [] all = (λ b m. elim m [ ], refl)
poll-AllGoOn (b ∷ bs) (s, rest) =
    after_first-AllGoOn b bs s rest (b.poll s) (poll bs rest) refl (poll-AllGoOn bs rest)

reported_on :
    {c : NetworkBehaviour} {bs : List NetworkBehaviour} (m : Member c bs) (connection : Connection)
    (ev : OneOf NetworkBehaviour.FromHandler bs) (all : States bs)
    → (own_result all (reported connection ev) c m).1
      ≡ field NetworkBehaviour.State m (on_connection_handler_event bs connection ev all)
unfolding on_connection_handler_event
reported_on here connection (inl ev) (s, rest) = refl
reported_on here connection (inr ev) (s, rest) = refl
reported_on (there m) connection (inl ev) (s, rest) = refl
reported_on (there m) connection (inr ev) (s, rest) = reported_on m connection ev rest

reported_quiet :
    {c : NetworkBehaviour} {bs : List NetworkBehaviour} (m : Member c bs) (connection : Connection)
    (ev : OneOf NetworkBehaviour.FromHandler bs) (all : States bs)
    → (own_result all (reported connection ev) c m).0 ≡ none
reported_quiet here connection (inl ev) (s, rest) = refl
reported_quiet here connection (inr ev) (s, rest) = refl
reported_quiet (there m) connection (inl ev) (s, rest) = refl
reported_quiet (there m) connection (inr ev) (s, rest) = reported_quiet m connection ev rest

informed_on :
    {c : NetworkBehaviour} {bs : List NetworkBehaviour} (m : Member c bs) (ev : FromSwarm)
    (all : States bs)
    → c.on_swarm_event ev (field NetworkBehaviour.State m all)
      ≡ field NetworkBehaviour.State m (on_swarm_event bs ev all)
unfolding on_swarm_event
informed_on here ev (s, rest) = refl
informed_on (there m) ev (s, rest) = informed_on m ev rest

pub step-AllGoOn :
    (bs : List NetworkBehaviour) (all : States bs)
    (i : Input (OneOf NetworkBehaviour.FromHandler bs))
    → AllGoOn bs all i (step bs all i)
step-AllGoOn bs all polled = poll-AllGoOn bs all
step-AllGoOn bs all (reported connection ev) = (
  λ b m. reported_on m connection ev all,
  sym (none_ready bs _ (λ b m. reported_quiet m connection ev all)),
)
step-AllGoOn bs all (informed ev) =
    (λ b m. informed_on m ev all, sym (none_ready bs _ (λ b m. refl)))
