-- ===== src/Blob/Behaviour.antt =====
-- protocols/owlnest-blob/src/behaviour.rs: what the swarm and the user call.
use owl_nest.Base.{
  ℕ, true, false, not, Bool, Option, none, some, List, [], ◌∷◌, ◌++◌, map, if◌then◌else◌, ◌==◌, ltb,
  nat_key, set_insert, set_remove, select,
}
use owl_nest.Base.Table.{get, retain, bindings, keys_where}
use owl_nest.Blob.Types.{
  PeerId, Callback, wrapping_sub, World, Run, done, ◌>>=◌, InEvent, OutEvent, ToBehaviourEvent,
  ToSwarm, generate_event, RecvInfo, cancelled, cancel_failed, id_not_found, connected, recvs,
  sends,
}
use owl_nest.Blob.State.{
  Behaviour, OngoingFileRecv, emit, reply, pending_recv_info, ongoing_recv_info, pending_send_info,
  ongoing_send_info,
}
use owl_nest.Blob.Send.{
  send_file, progress_ongoing_send, pending_send_accepted, remove_send_record,
  cancel_send_by_local_send_id,
}
use owl_nest.Blob.Recv.{
  on_new_pending_recv, accept_pending_recv, progress_ongoing_recv, cancel_recv_by_local_recv_id,
  remove_recv_by_remote_send_id,
}

-- The answer of a cancellation.
unfoldable pub answer_cancel : Callback → Bool × Behaviour → Behaviour
answer_cancel callback (true, b) = reply b (cancelled callback)
answer_cancel callback (false, b) = reply b (cancel_failed callback id_not_found)

unfoldable pub collect_recv_info :
    World → List (ℕ × OngoingFileRecv) → List RecvInfo → Run (List RecvInfo)
unfolding ongoing_recv_info
collect_recv_info w [] pending = done pending
collect_recv_info w ((k, v) ∷ rest) pending = do
  info ← ongoing_recv_info w v
  infos ← collect_recv_info w rest pending
  done (info ∷ infos)

unfoldable pub push_event : World → Behaviour → InEvent → Run Behaviour
unfolding answer_cancel
push_event w b (InEvent.send_file file file_path to callback) =
    send_file w b file file_path to callback
push_event w b (InEvent.accept_file file recv_id path callback) =
    done (accept_pending_recv w b file path recv_id callback)
push_event w b (InEvent.cancel_recv recv_id callback) =
    done (answer_cancel callback (cancel_recv_by_local_recv_id b recv_id))
push_event w b (InEvent.cancel_send local_send_id callback) =
    done (answer_cancel callback (cancel_send_by_local_send_id b local_send_id))
push_event w b (InEvent.list_connected callback) =
    done (reply b (connected callback b.connected_peers))
push_event w b (InEvent.list_recv callback) = do
  infos ←
      collect_recv_info w (bindings b.ongoing_recv)
        (map (λ e. pending_recv_info e.1) (bindings b.pending_recv))
  done (reply b (recvs callback infos))
push_event w b (InEvent.list_send callback) = done (
    reply b (
      sends callback (
        map (λ e. ongoing_send_info e.1) (bindings b.ongoing_send)
        ++ map (λ e. pending_send_info e.1) (bindings b.pending_send))))

unfoldable pub cancel_sends : Behaviour → List ℕ → Behaviour
cancel_sends b [] = b
cancel_sends b (k ∷ ks) = cancel_sends (cancel_send_by_local_send_id b k).1 ks

unfoldable pub cancel_recvs : Behaviour → List ℕ → Behaviour
cancel_recvs b [] = b
cancel_recvs b (k ∷ ks) = cancel_recvs (cancel_recv_by_local_recv_id b k).1 ks

-- `time_now - then > limit`, on u64.
abbrev pub expired : ℕ → ℕ → ℕ → Bool
expired now then_ limit = ltb limit (wrapping_sub now then_)

unfoldable pub expire_pending_send : World → Behaviour → Behaviour
expire_pending_send w b =
    let limit = b.config.pending_send_timeout_sec in
    if ltb 0 limit
    then cancel_sends b (keys_where (λ _ v. expired w.now v.timestamp limit) b.pending_send)
    else b

unfoldable pub expire_pending_recv : World → Behaviour → Behaviour
expire_pending_recv w b =
    let limit = b.config.pending_recv_timeout_sec in
    if ltb 0 limit
    then cancel_recvs b (keys_where (λ _ v. expired w.now v.timestamp limit) b.pending_recv)
    else b

unfoldable pub expire_ongoing_send : World → Behaviour → Behaviour
expire_ongoing_send w b =
    let limit = b.config.ongoing_send_timeout_sec in
    if ltb 0 limit
    then cancel_sends b (keys_where (λ _ v. expired w.now v.last_active limit) b.ongoing_send)
    else b

unfoldable pub expire_ongoing_recv : World → Behaviour → Behaviour
unfolding select
expire_ongoing_recv w b =
    let limit = b.config.ongoing_recv_timeout_sec in
    if ltb 0 limit
    then cancel_recvs b (
        map (λ e. e.1.local_recv_id)
          (select (λ e. expired w.now e.1.last_active limit) (bindings b.ongoing_recv)))
    else b

unfoldable pub check_expiry : World → Behaviour → Behaviour
check_expiry w b =
    expire_ongoing_recv w (expire_ongoing_send w (expire_pending_recv w (expire_pending_send w b)))

-- libp2p's `FromSwarm`: only the closing of a connection is read.
pub data FromSwarm : Type 0 where
  connection_closed : PeerId → ℕ → FromSwarm
  other : FromSwarm

unfoldable pub on_disconnect : Behaviour → PeerId → ℕ → Behaviour
on_disconnect b peer_id remaining_established =
    if ltb remaining_established 1
    then (record b {
      connected_peers = set_remove peer_id b.connected_peers;
      pending_send = retain (λ _ v. not (v.remote == peer_id)) b.pending_send;
      pending_recv = retain (λ _ v. not (v.remote == peer_id)) b.pending_recv;
      ongoing_send = retain (λ _ v. not (v.remote == peer_id)) b.ongoing_send;
      ongoing_recv = retain (λ _ v. not (v.remote == peer_id)) b.ongoing_recv;
    })
    else b

unfoldable pub on_swarm_event : Behaviour → FromSwarm → Behaviour
on_swarm_event b (connection_closed peer_id remaining) = on_disconnect b peer_id remaining
on_swarm_event b other = b

unfoldable pub on_connection_handler_event :
    World → Behaviour → PeerId → ToBehaviourEvent → Run Behaviour
on_connection_handler_event w b peer (ToBehaviourEvent.recv_progressed remote_send_id content) =
    progress_ongoing_recv w b remote_send_id content
on_connection_handler_event w b peer (ToBehaviourEvent.incoming_file name remote_send_id total) =
    done (on_new_pending_recv w b peer name remote_send_id total)
on_connection_handler_event w b peer (ToBehaviourEvent.error e) = done (emit b (OutEvent.error e))
on_connection_handler_event w b peer ToBehaviourEvent.inbound_negotiated =
    done (emit b (OutEvent.inbound_negotiated peer))
on_connection_handler_event w b peer ToBehaviourEvent.outbound_negotiated = done (
    emit (record b { connected_peers = set_insert peer b.connected_peers })
      (OutEvent.outbound_negotiated peer))
on_connection_handler_event w b peer ToBehaviourEvent.unsupported =
    done (emit b (OutEvent.unsupported peer))
on_connection_handler_event w b peer (ToBehaviourEvent.file_send_pending local_send_id) = done b
on_connection_handler_event w b peer (ToBehaviourEvent.file_send_accepted local_send_id) = do
  (accepted, b') ← pending_send_accepted w b local_send_id
  elim accepted [
    | some bytes_total ↦ done (emit b' (OutEvent.send_progressed local_send_id 0 bytes_total))
    | none ↦ done b'
  ]
on_connection_handler_event w b peer (ToBehaviourEvent.send_progressed local_send_id) =
    let b' : Behaviour = elim (get b.ongoing_send local_send_id) [
      | some v ↦ emit b (OutEvent.send_progressed local_send_id v.bytes_sent v.bytes_total)
      | none ↦ b
    ] in
    done (progress_ongoing_send w b' local_send_id)
on_connection_handler_event w b peer (ToBehaviourEvent.remote_cancel_send local_send_id) =
    done (remove_send_record (emit b (OutEvent.cancelled_send local_send_id)) local_send_id).1
on_connection_handler_event w b peer (ToBehaviourEvent.remote_cancel_recv remote_send_id) =
    let (found, b') = remove_recv_by_remote_send_id b remote_send_id in
    done (elim found [
      | some (_, local_recv_id) ↦ emit b' (OutEvent.cancelled_recv local_recv_id)
      | none ↦ b'
    ])

unfoldable pub pop_handler_event : Behaviour → List ToSwarm → Option ToSwarm × Behaviour
pop_handler_event b (ev ∷ rest) = (some ev, record b { pending_handler_event = rest })
pop_handler_event b [] = (none, b)

unfoldable pub pop_event : Behaviour → List OutEvent → Option ToSwarm × Behaviour
unfolding pop_handler_event
pop_event b (ev ∷ rest) = (some (generate_event ev), record b { out_events = rest })
pop_event b [] = pop_handler_event b b.pending_handler_event

-- `timer_ready` tells whether the throttle of `check_expiry` has run out; `none` is `Pending`.
unfoldable pub poll : World → Bool → Behaviour → Option ToSwarm × Behaviour
unfolding pop_event
poll w timer_ready b =
    let b' = if timer_ready then check_expiry w b else b in pop_event b' b'.out_events

-- Everything that is ever done to a behaviour.
pub data Input : Type 0 where
  pushed : InEvent → Input
  reported : PeerId → ToBehaviourEvent → Input
  swarm : FromSwarm → Input
  polled : Bool → Input

unfoldable pub step : World → Behaviour → Input → Run Behaviour
step w b (pushed ev) = push_event w b ev
step w b (reported peer ev) = on_connection_handler_event w b peer ev
step w b (swarm ev) = done (on_swarm_event b ev)
step w b (polled timer_ready) = done (poll w timer_ready b).1

unfoldable pub run : Behaviour → List (World × Input) → Run Behaviour
run b [] = done b
run b ((w, i) ∷ is) = step w b i >>= λ b'. run b' is
