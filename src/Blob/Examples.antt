-- ===== src/Blob/Examples.antt =====
-- Runs of the behaviour of protocols/owlnest-blob at concrete inputs, and its theorems there.
use owl_nest.Base.{
  ◌≡◌, refl, some, none, List, [], ◌∷◌, arith, true, nat_key, set_insert, contains, inl, inr, ◌↔◌,
  not, keep,
}
use owl_nest.Base.Table.{empty, get, insert, remove}
use mathlib.Core.Path.{subst}
use owl_nest.Blob.Types.{
  Bytes, World, wrote, done, panicked, default_config, InEvent, ToBehaviourEvent, Returns, OutEvent,
  notify_handler, FromBehaviourEvent,
}
use owl_nest.Blob.State.{Behaviour, new, PendingSend, PendingRecv, OngoingFileRecv, OngoingFileSend}
use owl_nest.Blob.Send.{send_file, pending_send_accepted, progress_ongoing_send}
use owl_nest.Blob.Recv.{on_new_pending_recv, accept_pending_recv, write_loop}
use owl_nest.Blob.Behaviour.{
  Input, pushed, reported, run, step, push_event, on_connection_handler_event, check_expiry,
}
use owl_nest.Blob.Invariant.Formed.{WellFormed, Ends}
use owl_nest.Blob.Invariant.Steps.{run-new-WellFormed}
use owl_nest.Blob.Panics.{AcceptedAgain, handler_event_panics}
use owl_nest.Blob.Expiry.{stale, check_expiry_sends}
use owl_nest.Blob.Transfer.Sending.{SentWhole, send_chunks, send_chunks-SentWhole}
use owl_nest.Blob.Transfer.Writing.{Written, write_loop-Written}
use owl_nest.Blob.Transfer.Receiving.{
  ReceivedWhole, recv_chunks, last_event, recv_chunks-ReceivedWhole,
}
use owl_nest.Blob.Transfer.EndToEnd.{file_arrives}

abbrev pub world : World
world = record {
  now = 100;
  metadata_len = λ file. some 5;
  read = λ file size. some (1 ∷ 2 ∷ 3 ∷ []);
  writes = λ file. wrote 2 ∷ wrote 1 ∷ [];
  file_name = λ path. some path;
  push_path = λ path name. name;
  listening = λ callback. true;
}

-- Peer 7 connects and gets a file; it offers two files and peer 8 offers one, of which the first and
-- the last are accepted.
abbrev inputs : List (World × Input)
inputs =
    (world, reported 7 ToBehaviourEvent.outbound_negotiated)
    ∷ (world, pushed (InEvent.send_file 3 "a" 7 0))
    ∷ (world, reported 7 (ToBehaviourEvent.incoming_file "b" 40 3))
    ∷ (world, pushed (InEvent.accept_file 9 0 "d" 1))
    ∷ (world, reported 7 (ToBehaviourEvent.incoming_file "c" 41 6))
    ∷ (world, reported 8 (ToBehaviourEvent.incoming_file "e" 0 2))
    ∷ (world, pushed (InEvent.accept_file 10 2 "d" 2))
    ∷ []

abbrev sent : PendingSend
sent = record {
  local_send_id = 0;
  remote = 7;
  file_path = "a";
  bytes_total = 5;
  file = 3;
  timestamp = 100;
}

abbrev pub offered : PendingRecv
offered = record {
  local_recv_id = 1;
  remote_send_id = 41;
  bytes_total = 6;
  file_name = "c";
  remote = 7;
  timestamp = 100;
}

abbrev pub first : OngoingFileRecv
first = record {
  remote_send_id = 40;
  local_recv_id = 0;
  remote = 7;
  bytes_received = 0;
  bytes_total = 3;
  file_handle = 9;
  file_path = "b";
  last_active = 100;
}

abbrev pub second : OngoingFileRecv
second = record {
  remote_send_id = 0;
  local_recv_id = 2;
  remote = 8;
  bytes_received = 0;
  bytes_total = 2;
  file_handle = 10;
  file_path = "e";
  last_active = 100;
}

abbrev pub sample : Behaviour
sample = record {
  config = default_config;
  out_events =
      OutEvent.outbound_negotiated 7
      ∷ OutEvent.incoming_file 7 "b" 0 3
      ∷ OutEvent.incoming_file 7 "c" 1 6
      ∷ OutEvent.incoming_file 8 "e" 2 2
      ∷ [];
  pending_handler_event =
      notify_handler 7 (FromBehaviourEvent.new_file_send "a" 0 0 5)
      ∷ notify_handler 7 (FromBehaviourEvent.accept_file 40 1)
      ∷ notify_handler 8 (FromBehaviourEvent.accept_file 0 2)
      ∷ [];
  connected_peers = 7 ∷ [];
  recv_counter = 3;
  send_counter = 1;
  pending_recv = record { entries = (1, offered) ∷ [] };
  pending_send = record { entries = (0, sent) ∷ [] };
  ongoing_recv = record { entries = (0, second) ∷ (40, first) ∷ [] };
  ongoing_send = record { entries = [] };
  replies = [];
  written = [];
}

run-inputs : run (new default_config) inputs ≡ done sample
unfolding run new step push_event on_connection_handler_event send_file on_new_pending_recv
    accept_pending_recv set_insert contains get insert remove empty
run-inputs = refl

run-new-WellFormed_example : Ends WellFormed (run (new default_config) inputs)
run-new-WellFormed_example = run-new-WellFormed default_config inputs (omega arith)

pub sample-WellFormed : WellFormed sample
sample-WellFormed =
    subst (Ends WellFormed) run-inputs (run-new-WellFormed default_config inputs (omega arith))

-- A send that its peer has accepted.
abbrev running : OngoingFileSend
running = record {
  local_send_id = 0;
  remote = 7;
  bytes_sent = 0;
  bytes_total = 3;
  file_handle = 3;
  file_path = "a";
  last_active = 100;
}

abbrev sender : Behaviour
sender = record sample {
  pending_handler_event = [];
  pending_send = record { entries = [] };
  ongoing_send = record { entries = (0, running) ∷ [] };
}

handler_event_panics_example :
    (on_connection_handler_event world sender 7 (ToBehaviourEvent.file_send_accepted 0) ≡ panicked)
    ↔ AcceptedAgain sender (ToBehaviourEvent.file_send_accepted 0)
handler_event_panics_example =
    handler_event_panics world sender 7 (ToBehaviourEvent.file_send_accepted 0)

accepted_again :
    on_connection_handler_event world sender 7 (ToBehaviourEvent.file_send_accepted 0) ≡ panicked
unfolding on_connection_handler_event pending_send_accepted get
accepted_again = refl

check_expiry_sends_example :
    get (check_expiry world sample).pending_send 0
    ≡ keep (λ v. not (stale 100 0 v.timestamp)) (get sample.pending_send 0)
check_expiry_sends_example = (check_expiry_sends world sample sample-WellFormed).0 0

abbrev at_end : World
at_end = record world { read = λ file size. some [] }

abbrev chunk : Bytes
chunk = 1 ∷ 2 ∷ 3 ∷ []

send_chunks-SentWhole_example :
    SentWhole sender 0 running (chunk ∷ []) (send_chunks sender 0 (world ∷ at_end ∷ []))
unfolding get
send_chunks-SentWhole_example =
    send_chunks-SentWhole 0 (world ∷ at_end ∷ []) sender running (chunk ∷ []) refl
      (refl, (refl, tt)) (omega arith)

write_loop-Written_example : Written chunk 0 (write_loop (wrote 2 ∷ wrote 1 ∷ []) chunk 0)
write_loop-Written_example =
    write_loop-Written (wrote 2 ∷ wrote 1 ∷ []) chunk 0 (omega arith)
      (omega arith, omega arith, inr (omega arith, (omega arith, omega arith, inl refl)))

recv_chunks-ReceivedWhole_example :
    Returns
      (ReceivedWhole sample 40 first (chunk ∷ []) (last_event first 3))
      (recv_chunks sample 40 ((world, chunk) ∷ (at_end, []) ∷ []))
unfolding get
recv_chunks-ReceivedWhole_example =
    recv_chunks-ReceivedWhole 40 at_end ((world, chunk) ∷ []) sample first (omega arith) refl
      (omega arith)
      ((omega arith, omega arith, inr (omega arith, (omega arith, omega arith, inl refl))), tt)

file_arrives_example :
    (get (send_chunks sender 0 (world ∷ at_end ∷ [])).ongoing_send 0 ≡ none)
    × Returns
        (ReceivedWhole sample 40 first (chunk ∷ []) (OutEvent.recv_progressed 0 3 3))
        (recv_chunks sample 40 ((world, chunk) ∷ (at_end, []) ∷ []))
unfolding get send_chunks progress_ongoing_send insert remove
file_arrives_example =
    file_arrives 0 (world ∷ at_end ∷ []) sender running (chunk ∷ []) 40
      ((world, chunk) ∷ (at_end, []) ∷ []) sample first refl refl (refl, (refl, tt)) (omega arith)
      (omega arith) refl refl refl refl
      (
        (λ _. (omega arith, omega arith, inr (omega arith, (omega arith, omega arith, inl refl)))),
        ((λ h. absurd (h refl)), tt),
      )
