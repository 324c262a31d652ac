-- ===== src/Messaging/Requests.antt =====
-- The requests to the behaviour of protocols/owlnest-messaging: each is answered or passed on.
use mathlib.Core.Path.{subst}
use mathlib.Core.List.{append_assoc, append-nil, map-append}
use owl_nest.Base.{
  ◌≡◌, refl, true, Option, none, some, List, [], ◌∷◌, ◌++◌, map, nat_key, contains, inl, inr,
  Bool-cases,
}
use owl_nest.Messaging.{
  PeerId, Callback, SendError, InEvent, OutEvent, post_message, Reply, send_failed, connected,
  Behaviour, SwarmEvent, generate_event, notify_handler, handle_in_events, poll_queue, poll,
}

abbrev pub requester : InEvent → Callback
requester (InEvent.send_message peer message callback) = callback
requester (InEvent.list_connected callback) = callback

abbrev pub replied : Callback × Reply → Callback
replied (callback, reply) = callback

-- The callback that goes on to a handler.
abbrev pub passed_on : Option SwarmEvent → List Callback
passed_on (some (notify_handler peer (post_message message callback))) = callback ∷ []
passed_on (some (generate_event ev)) = []
passed_on none = []

-- All callbacks: those answered, oldest first, and then those that wait.
abbrev pub callbacks : Behaviour → List Callback
callbacks b = map replied b.replies ++ map requester b.in_events

-- What a poll may do with the requests, `known` being the callbacks before it.
abbrev pub Handled : List Callback → List PeerId → Option SwarmEvent × Behaviour → Type 0
Handled known peers (event, b) =
    (map replied b.replies ++ passed_on event ++ map requester b.in_events ≡ known)
    × (b.connected_peers ≡ peers)
    × (elim event [
      | none ↦ Unit
      | some (generate_event ev) ↦ Unit
      | some (notify_handler peer ev) ↦ contains peer peers ≡ true
    ])

abbrev reply_with : Behaviour → Callback → Reply → Behaviour
reply_with b callback reply = record b { replies = b.replies ++ (callback, reply) ∷ [] }

answered :
    (callback : Callback) (reply : Reply) (b : Behaviour) (rest : List InEvent)
    → ((b' : Behaviour)
        → Handled
            (map replied b'.replies ++ map requester rest)
            b'.connected_peers
            (handle_in_events b' rest))
    → Handled
        (map replied b.replies ++ callback ∷ map requester rest)
        b.connected_peers
        (handle_in_events (reply_with b callback reply) rest)
answered callback reply b rest all =
    let r = handle_in_events (reply_with b callback reply) rest in
    subst (λ known. Handled known b.connected_peers r) (simp (map-append, append_assoc))
      (all (reply_with b callback reply))

handle_in_events-Handled :
    (evs : List InEvent) (b : Behaviour)
    → Handled
        (map replied b.replies ++ map requester evs)
        b.connected_peers
        (handle_in_events b evs)
unfolding handle_in_events
handle_in_events-Handled [] b = (simp append-nil, refl, tt)
handle_in_events-Handled (InEvent.list_connected callback ∷ rest) b =
    answered callback (connected b.connected_peers) b rest (handle_in_events-Handled rest)
handle_in_events-Handled (InEvent.send_message peer message callback ∷ rest) b =
    elim (Bool-cases (contains peer b.connected_peers)) [
      | inl e ↦ rw (e, handle_in_events) (simp append_assoc, refl, e)
      | inr e ↦
          rw (e, handle_in_events)
            (answered callback (send_failed (SendError.peer_not_found peer)) b rest
              (handle_in_events-Handled rest))
    ]

poll_queue-Handled :
    (b : Behaviour) (evs : List OutEvent)
    → Handled (callbacks b) b.connected_peers (poll_queue b evs)
unfolding poll_queue
poll_queue-Handled b [] = handle_in_events-Handled b.in_events b
poll_queue-Handled b (ev ∷ evs) = (simp append-nil, refl, tt)

-- A poll takes the requests in order and loses none: the callbacks answered so far, then that of a
-- message that is passed on, then those that wait, are the callbacks from before the poll. A message
-- is passed on only to a connected peer, and a poll leaves the connected peers as they are.
pub poll-Handled : (b : Behaviour) → Handled (callbacks b) b.connected_peers (poll b)
unfolding poll
poll-Handled b = poll_queue-Handled b b.out_events
