-- ===== src/Messaging/Examples.antt =====
-- Runs of protocols/owlnest-messaging at concrete inputs, and its theorems there.
use owl_nest.Base.{
  String, ◌⊎◌, inl, false, contains, ◌≡◌, refl, true, some, List, [], ◌∷◌, nat_key, contains,
}
use owl_nest.Blob.Invariant.Formed.{Ends}
use owl_nest.Messaging.{
  ToBehaviourEvent, Bytes, Config, Message, InEvent, Behaviour, new, poll, poll_queue,
  handle_in_events, post_message, notify_handler, SendError, volatile,
}
use owl_nest.Messaging.Requests.{Handled, poll-Handled}
use owl_nest.Messaging.Peers
use owl_nest.Messaging.Peers.{run-new-after}
use owl_nest.Messaging.Handler.{
  RecvPoll, SendPoll, sent, sent_in, failed, dropped, fully_negotiated_outbound, dial_upgrade_error,
  new as new_handler, on_connection_event, on_dial_upgrade_error, replace_outbound,
  poll as poll_handler, on_behaviour_event, poll_outbound,
}
use owl_nest.Messaging.Handler.Callbacks.{callbacks as handler_callbacks}
use owl_nest.Messaging.Handler.Runs.{Input, request, connected, polled, run, run-new-callbacks}
use owl_nest.Base.Table.{get, insert, empty}
use owl_nest.Messaging.{incoming_message}
use owl_nest.Messaging.Front.{
  Received, messaging, other, lagged, listen, default, get_messages, push_message,
}
use owl_nest.Messaging.History.{heard, messages_from, appended, listen-history}

abbrev config : Config
config = record { timeout_ms = 30000; store = volatile }

abbrev message : Message
message = record { time = 5; from = 1; to = 2; msg = "hi" }

-- A message to a stranger, a question and a message to a connected peer.
abbrev behaviour : Behaviour
behaviour = record (new config) {
  connected_peers = 2 ∷ [];
  in_events =
      InEvent.send_message 3 message 10
      ∷ InEvent.list_connected 11
      ∷ InEvent.send_message 2 message 12
      ∷ InEvent.list_connected 13
      ∷ [];
}

poll_test : (poll behaviour).0 ≡ some (notify_handler 2 (post_message message 12))
unfolding new poll poll_queue handle_in_events contains
poll_test = refl

poll-Handled_example : Handled (10 ∷ 11 ∷ 12 ∷ 13 ∷ []) (2 ∷ []) (poll behaviour)
unfolding new
poll-Handled_example = poll-Handled behaviour

abbrev to_vec : Message → Bytes
to_vec m = m.time ∷ m.from ∷ m.to ∷ []

-- The first message is sent, the second times out, the third breaks off and the fourth waits.
abbrev inputs : List Input
inputs =
    request (post_message message 20)
    ∷ connected (fully_negotiated_outbound 4)
    ∷ request (post_message message 21)
    ∷ polled RecvPoll.waiting (sent 4 9 ∷ SendPoll.waiting true ∷ [])
    ∷ request (post_message message 22)
    ∷ connected (fully_negotiated_outbound 5)
    ∷ polled RecvPoll.waiting []
    ∷ request (post_message message 23)
    ∷ connected (dial_upgrade_error true)
    ∷ []

settled_test :
    Ends
      (λ h. h.settled ≡ (20, sent_in 9) ∷ (21, failed SendError.timeout) ∷ (22, dropped) ∷ [])
      (run to_vec inputs (new_handler config))
unfolding run new_handler on_connection_event on_dial_upgrade_error replace_outbound
    on_behaviour_event poll_handler poll_outbound
settled_test = refl

run-new-callbacks_example :
    Ends
      (λ h. handler_callbacks h ≡ 20 ∷ 21 ∷ 22 ∷ 23 ∷ [])
      (run to_vec inputs (new_handler config))
run-new-callbacks_example = run-new-callbacks to_vec config inputs

abbrev from_slice : Bytes → Message ⊎ String
from_slice bytes = inl message

-- Two connections to peer 2, which close one after the other, and one to peer 3.
abbrev closings : List Peers.Input
closings =
    Peers.reported 2 ToBehaviourEvent.outbound_negotiated
    ∷ Peers.reported 3 ToBehaviourEvent.outbound_negotiated
    ∷ Peers.closed 3 1
    ∷ Peers.polled
    ∷ Peers.closed 2 0
    ∷ []

run-new-after_example :
    (contains 2 (Peers.run from_slice (new config) (Peers.polled ∷ closings)).connected_peers
      ≡ false)
run-new-after_example = run-new-after from_slice config 2 (Peers.polled ∷ closings)

-- Two messages of peer 1, one before the channel has overtaken its listener and one after.
abbrev events : List Received
events =
    other
    ∷ messaging (incoming_message 1 message)
    ∷ messaging (incoming_message 3 message)
    ∷ lagged 5
    ∷ messaging (incoming_message 1 message)
    ∷ []

listen_test : get_messages 1 (listen events default) ≡ some (message ∷ [])
unfolding get_messages listen push_message get insert empty
listen_test = refl

listen-history_example : get_messages 1 (listen events default) ≡ some (message ∷ [])
unfolding get_messages heard messages_from appended get empty
listen-history_example = listen-history events default 1
