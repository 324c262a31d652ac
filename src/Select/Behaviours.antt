-- ===== src/Select/Behaviours.antt =====
-- owlnest-macro/src/behaviour_select.rs: the implementation of NetworkBehaviour that it generates.
-- What the behaviours log is left out, and so is a panic of one of them, which ends the node's task.
pub mod Admission
pub mod Steps
pub mod Runs
use owl_nest.Base.{ℕ, Option, none, some, List, [], ◌∷◌, ◌++◌, ◌⊎◌, inl, inr, Result, ok, err}
use owl_nest.Blob.Types.{Run, done, panicked, ◌>>=◌}
use owl_nest.Select.{OneOf, AllOf}

-- Where a connection comes from or goes to, all that libp2p tells of it.
abbrev pub Connection : Type 0
Connection = ℕ

abbrev pub ConnectionDenied : Type 0
ConnectionDenied = ℕ

abbrev pub FromSwarm : Type 0
FromSwarm = ℕ

-- `ToSwarm` over a behaviour's own events and its messages to its handlers, a peer first; `uncovered`
-- is a variant that libp2p has got since.
pub data ToSwarm (Event ToHandler : Type 0) : Type 0 where
  generate_event : Event → ToSwarm Event ToHandler
  dial listen_on remove_listener : ℕ → ToSwarm Event ToHandler
  notify_handler : ℕ → Option ℕ → ToHandler → ToSwarm Event ToHandler
  new_external_addr_candidate : ℕ → ToSwarm Event ToHandler
  external_addr_confirmed : ℕ → ToSwarm Event ToHandler
  external_addr_expired : ℕ → ToSwarm Event ToHandler
  close_connection : ℕ → Option ℕ → ToSwarm Event ToHandler
  new_external_addr_of_peer : ℕ → ℕ → ToSwarm Event ToHandler
  uncovered : ToSwarm Event ToHandler

-- The trait. `none` from `poll` is `Pending`.
pub record NetworkBehaviour : Type 1 where
  pub State : Type 0
  pub Event : Type 0
  pub FromHandler : Type 0
  pub ToHandler : Type 0
  pub Handler : Type 0
  pub pending_inbound : Connection → State → Result ConnectionDenied (Unit {0}) × State
  pub established_inbound : Connection → State → Result ConnectionDenied Handler × State
  pub pending_outbound : Connection → State → Result ConnectionDenied (List ℕ) × State
  pub established_outbound : Connection → State → Result ConnectionDenied Handler × State
  pub on_connection_handler_event : Connection → FromHandler → State → State
  pub poll : State → Option (ToSwarm Event ToHandler) × State
  pub on_swarm_event : FromSwarm → State → State

abbrev pub States : List NetworkBehaviour → Type 0
States bs = AllOf NetworkBehaviour.State bs

abbrev pub Events : List NetworkBehaviour → Type 0
Events bs = OneOf NetworkBehaviour.Event bs

abbrev pub ToHandlers : List NetworkBehaviour → Type 0
ToHandlers bs = OneOf NetworkBehaviour.ToHandler bs

abbrev pub Handlers : List NetworkBehaviour → Type 0
Handlers bs = AllOf NetworkBehaviour.Handler bs

abbrev pub Ready : List NetworkBehaviour → Type 0
Ready bs = Option (ToSwarm (Events bs) (ToHandlers bs))

-- The same request, with the event or the message in its variant.
abbrev pub retag : {E E' H H' : Type 0} → (E → E') → (H → H') → ToSwarm E H → ToSwarm E' H'
retag f g (generate_event ev) = generate_event (f ev)
retag f g (dial opts) = dial opts
retag f g (listen_on opts) = listen_on opts
retag f g (remove_listener id) = remove_listener id
retag f g (notify_handler peer connection ev) = notify_handler peer connection (g ev)
retag f g (new_external_addr_candidate addr) = new_external_addr_candidate addr
retag f g (external_addr_confirmed addr) = external_addr_confirmed addr
retag f g (external_addr_expired addr) = external_addr_expired addr
retag f g (close_connection peer connection) = close_connection peer connection
retag f g (new_external_addr_of_peer peer addr) = new_external_addr_of_peer peer addr
retag f g uncovered = uncovered

-- An unknown request reaches `unimplemented!`.
abbrev pub covered : {E H : Type 0} → ToSwarm E H → Run (ToSwarm E H)
covered uncovered = panicked
covered ev = done ev

-- What the others are ready with, in the variants of all.
abbrev pub later_ready :
    (b : NetworkBehaviour) (bs : List NetworkBehaviour) → Ready bs → Ready (b ∷ bs)
later_ready b bs none = none
later_ready b bs (some ev) = some (retag inr inr ev)

-- What a poll of the first behaviour decides; the poll of the others is the last argument.
unfoldable pub after_first :
    (b : NetworkBehaviour) (bs : List NetworkBehaviour)
    → Option (ToSwarm b.Event b.ToHandler) × b.State
    → States bs
    → Run (Ready bs × States bs)
    → Run (Ready (b ∷ bs) × States (b ∷ bs))
after_first b bs (none, s) rest others = others >>= λ x. done (later_ready b bs x.0, (s, x.1))
after_first b bs (some ev, s) rest others =
    covered ev >>= λ ev'. done (some (retag inl inl ev'), (s, rest))

unfoldable pub poll : (bs : List NetworkBehaviour) → States bs → Run (Ready bs × States bs)
unfolding after_first
poll [] all = done (none, all)
poll (b ∷ bs) (s, rest) = after_first b bs (b.poll s) rest (poll bs rest)

unfoldable pub on_connection_handler_event :
    (bs : List NetworkBehaviour)
    → Connection
    → OneOf NetworkBehaviour.FromHandler bs
    → States bs
    → States bs
on_connection_handler_event [] connection one all = all
on_connection_handler_event (b ∷ bs) connection (inl ev) (s, rest) =
    (b.on_connection_handler_event connection ev s, rest)
on_connection_handler_event (b ∷ bs) connection (inr ev) (s, rest) =
    (s, on_connection_handler_event bs connection ev rest)

unfoldable pub on_swarm_event : (bs : List NetworkBehaviour) → FromSwarm → States bs → States bs
on_swarm_event [] event all = all
on_swarm_event (b ∷ bs) event (s, rest) = (b.on_swarm_event event s, on_swarm_event bs event rest)

-- `?` on the answer of the first: the others are asked only if it does not deny the connection. The
-- answers are put together by `both`.
abbrev pub admitted :
    {A B C S R : Type 0}
    → (A → B → C)
    → Result ConnectionDenied A × S
    → R
    → Result ConnectionDenied B × R
    → Result ConnectionDenied C × (S × R)
admitted both (err e, s) unasked later = (err e, (s, unasked))
admitted both (ok a, s) unasked (err e, rest) = (err e, (s, rest))
admitted both (ok a, s) unasked (ok b, rest) = (ok (both a b), (s, rest))

unfoldable pub handle_pending_inbound_connection :
    (bs : List NetworkBehaviour)
    → Connection
    → States bs
    → Result ConnectionDenied (Unit {0}) × States bs
handle_pending_inbound_connection [] connection all = (ok tt, all)
handle_pending_inbound_connection (b ∷ bs) connection (s, rest) =
    admitted (λ x y. tt) (b.pending_inbound connection s) rest
      (handle_pending_inbound_connection bs connection rest)

unfoldable pub handle_established_inbound_connection :
    (bs : List NetworkBehaviour)
    → Connection
    → States bs
    → Result ConnectionDenied (Handlers bs) × States bs
handle_established_inbound_connection [] connection all = (ok tt, all)
handle_established_inbound_connection (b ∷ bs) connection (s, rest) =
    admitted (λ x y. (x, y)) (b.established_inbound connection s) rest
      (handle_established_inbound_connection bs connection rest)

unfoldable pub handle_pending_outbound_connection :
    (bs : List NetworkBehaviour)
    → Connection
    → States bs
    → Result ConnectionDenied (List ℕ) × States bs
handle_pending_outbound_connection [] connection all = (ok [], all)
handle_pending_outbound_connection (b ∷ bs) connection (s, rest) =
    admitted (λ x y. x ++ y) (b.pending_outbound connection s) rest
      (handle_pending_outbound_connection bs connection rest)

unfoldable pub handle_established_outbound_connection :
    (bs : List NetworkBehaviour)
    → Connection
    → States bs
    → Result ConnectionDenied (Handlers bs) × States bs
handle_established_outbound_connection [] connection all = (ok tt, all)
handle_established_outbound_connection (b ∷ bs) connection (s, rest) =
    admitted (λ x y. (x, y)) (b.established_outbound connection s) rest
      (handle_established_outbound_connection bs connection rest)
