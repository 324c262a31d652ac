-- ===== src/Blob/Invariant/Steps.antt =====
-- Whatever the user, the connections and the swarm do, the behaviour stays well formed.
use owl_nest.Base.{
  ℕ, ◌+◌, ◌<◌, ◌≡◌, refl, Option, none, some, Bool, true, false, nat_key, arith, List, [], ◌∷◌, ltb,
  Bool-cases, if◌then◌else◌, inl, inr, length,
}
use owl_nest.Base.Table.{get}
use owl_nest.Base.Within.{retain-Within}
use owl_nest.Blob.Types.{
  Config, PeerId, World, Run, done, panicked, stuck, u64_mod, ◌>>=◌, InEvent, OutEvent,
  ToBehaviourEvent, ToSwarm, Callback,
}
use owl_nest.Blob.State.{Behaviour, new, emit, OngoingFileSend}
use owl_nest.Blob.Send.{progress_ongoing_send}
use owl_nest.Blob.Behaviour.{
  answer_cancel, collect_recv_info, push_event, expire_pending_send, expire_pending_recv,
  expire_ongoing_send, expire_ongoing_recv, check_expiry, FromSwarm, connection_closed, other,
  on_disconnect, on_swarm_event, on_connection_handler_event, pop_event, pop_handler_event, poll,
  Input, pushed, reported, swarm, polled, step, run,
}
use owl_nest.Blob.Invariant.Sends.{SendsOk-sub}
use owl_nest.Blob.Invariant.Recvs.{RecvsOk-sub}
use owl_nest.Blob.Invariant.Formed.{
  WellFormed, new-WellFormed, Advances, kept, Advances-refl, Advances-trans, Advances-more, HasRoom,
  Ends,
}
use owl_nest.Blob.Invariant.SendOps.{
  remove_send_record-Advances, cancel_send-Advances, cancel_sends-Advances,
  progress_ongoing_send-Advances, pending_send_accepted-Advances, send_file-Advances,
}
use owl_nest.Blob.Invariant.RecvOps.{
  cancel_recv-Advances, cancel_recvs-Advances, on_new_pending_recv-Advances,
  accept_pending_recv-Advances, progress_ongoing_recv-Advances,
  remove_recv_by_remote_send_id-Advances,
}

-- The queues and the record of effects are no part of what is well formed.
abbrev SameTables : Behaviour → Behaviour → Type 0
SameTables b c =
    (c.send_counter ≡ b.send_counter)
    × (c.recv_counter ≡ b.recv_counter)
    × (c.pending_send ≡ b.pending_send)
    × (c.ongoing_send ≡ b.ongoing_send)
    × (c.pending_recv ≡ b.pending_recv)
    × (c.ongoing_recv ≡ b.ongoing_recv)

same_tables : (n : ℕ) (b c d : Behaviour) → SameTables c d → Advances n b c → Advances n b d
same_tables n b c d (cs, cr, ps, os, pr, or_) x = record {
  formed = record {
    sends = rw (cs, ps, os) x.formed.sends;
    recvs = rw (cr, pr, or_) x.formed.recvs;
  };
  send_counter = rw cs x.send_counter;
  recv_counter = rw cr x.recv_counter;
}

Ends-more : (b : Behaviour) (r : Run Behaviour) → Ends (Advances 0 b) r → Ends (Advances 1 b) r
Ends-more b (done c) x = Advances-more b c x
Ends-more b panicked x = tt
Ends-more b stuck x = tt

Ends-then {ℓ} :
    {A : Type ℓ} (P : Behaviour → Type 0) (r : Run A) (f : A → Behaviour)
    → ((a : A) → P (f a))
    → Ends P (r >>= λ a. done (f a))
Ends-then P (done a) f all = all a
Ends-then P panicked f all = tt
Ends-then P stuck f all = tt

if-Advances :
    (t : Bool) (b c d : Behaviour)
    → Advances 0 b c
    → Advances 0 b d
    → Advances 0 b (if t then c else d)
if-Advances true b c d x y = x
if-Advances false b c d x y = y

answer_cancel-Advances :
    (b : Behaviour) (callback : Callback) (r : Bool × Behaviour)
    → Advances 0 b r.1
    → Advances 0 b (answer_cancel callback r)
unfolding answer_cancel
answer_cancel-Advances b callback (true, c) x =
    same_tables 0 b c _ (refl, refl, refl, refl, refl, refl) x
answer_cancel-Advances b callback (false, c) x =
    same_tables 0 b c _ (refl, refl, refl, refl, refl, refl) x

unchanged : (b c : Behaviour) → WellFormed b → SameTables b c → Advances 0 b c
unchanged b c wf same = same_tables 0 b b c same (Advances-refl 0 b wf)

push_event-Advances :
    (w : World) (b : Behaviour) (ev : InEvent)
    → HasRoom b
    → WellFormed b
    → Ends (Advances 1 b) (push_event w b ev)
unfolding push_event
push_event-Advances w b (InEvent.send_file file path to callback) room wf =
    send_file-Advances w b file path to callback room wf
push_event-Advances w b (InEvent.accept_file file id path callback) room wf =
    Advances-more b _ (accept_pending_recv-Advances w b file path id callback wf)
push_event-Advances w b (InEvent.cancel_recv id callback) room wf =
    Advances-more b _ (answer_cancel-Advances b callback _ (cancel_recv-Advances b id wf))
push_event-Advances w b (InEvent.cancel_send id callback) room wf =
    Advances-more b _ (answer_cancel-Advances b callback _ (cancel_send-Advances b id wf))
push_event-Advances w b (InEvent.list_connected callback) room wf =
    Advances-more b _ (unchanged b _ wf (refl, refl, refl, refl, refl, refl))
push_event-Advances w b (InEvent.list_recv callback) room wf =
    Ends-then (Advances 1 b) (collect_recv_info w _ _) _
      (λ infos. Advances-more b _ (unchanged b _ wf (refl, refl, refl, refl, refl, refl)))
push_event-Advances w b (InEvent.list_send callback) room wf =
    Advances-more b _ (unchanged b _ wf (refl, refl, refl, refl, refl, refl))

module _ (w : World) (b : Behaviour) (wf : WellFormed b) where
  pub expire_pending_send-Advances : Advances 0 b (expire_pending_send w b)
  unfolding expire_pending_send
  expire_pending_send-Advances =
      if-Advances _ b _ b (cancel_sends-Advances b _ wf) (Advances-refl 0 b wf)

  pub expire_pending_recv-Advances : Advances 0 b (expire_pending_recv w b)
  unfolding expire_pending_recv
  expire_pending_recv-Advances =
      if-Advances _ b _ b (cancel_recvs-Advances b _ wf) (Advances-refl 0 b wf)

  expire_ongoing_send-Advances : Advances 0 b (expire_ongoing_send w b)
  unfolding expire_ongoing_send
  expire_ongoing_send-Advances =
      if-Advances _ b _ b (cancel_sends-Advances b _ wf) (Advances-refl 0 b wf)

  expire_ongoing_recv-Advances : Advances 0 b (expire_ongoing_recv w b)
  unfolding expire_ongoing_recv
  expire_ongoing_recv-Advances =
      if-Advances _ b _ b (cancel_recvs-Advances b _ wf) (Advances-refl 0 b wf)

check_expiry-Advances : (w : World) (b : Behaviour) → WellFormed b → Advances 0 b (check_expiry w b)
unfolding check_expiry
check_expiry-Advances w b wf =
    let ps = expire_pending_send-Advances w b wf in
    let pr = expire_pending_recv-Advances w (expire_pending_send w b) ps.formed in
    let os = expire_ongoing_send-Advances w _ pr.formed in
    let or_ = expire_ongoing_recv-Advances w _ os.formed in
    Advances-trans 0 b _ _ ps (Advances-trans 0 _ _ _ pr (Advances-trans 0 _ _ _ os or_))

on_disconnect-Advances :
    (b : Behaviour) (peer : PeerId) (remaining : ℕ)
    → WellFormed b
    → Advances 0 b (on_disconnect b peer remaining)
unfolding on_disconnect
on_disconnect-Advances b peer remaining wf = elim (Bool-cases (ltb remaining 1)) [
  | inl last ↦ rw last (
      kept b _
        (record {
          sends =
              SendsOk-sub wf.sends _ _ (retain-Within _ b.pending_send)
                (retain-Within _ b.ongoing_send);
          recvs =
              RecvsOk-sub wf.recvs _ _ (retain-Within _ b.pending_recv)
                (retain-Within _ b.ongoing_recv);
        })
        refl refl)
  | inr more ↦ rw more (Advances-refl 0 b wf)
]

pop_event-Advances :
    (b c : Behaviour) (outs : List OutEvent) (evs : List ToSwarm)
    → c.pending_handler_event ≡ evs
    → Advances 0 b c
    → Advances 0 b (pop_event c outs).1
unfolding pop_event
pop_event-Advances b c (ev ∷ outs) evs e x =
    same_tables 0 b c _ (refl, refl, refl, refl, refl, refl) x
pop_event-Advances b c [] [] e x = rw (e, pop_handler_event) x
pop_event-Advances b c [] (ev ∷ evs) e x =
    rw (e, pop_handler_event) (same_tables 0 b c _ (refl, refl, refl, refl, refl, refl) x)

poll-Advances :
    (w : World) (ready : Bool) (b : Behaviour) → WellFormed b → Advances 0 b (poll w ready b).1
unfolding poll
poll-Advances w ready b wf =
    pop_event-Advances b _ _ _ refl
      (if-Advances ready b _ b (check_expiry-Advances w b wf) (Advances-refl 0 b wf))

accepted-Advances :
    (b : Behaviour) (k : ℕ) (r : Run (Option ℕ × Behaviour))
    → Ends (λ (x : Option ℕ × Behaviour). Advances 0 b x.1) r
    → Ends (Advances 0 b) (
        r >>= λ (x : Option ℕ × Behaviour). elim x.0 as (λ _. Run Behaviour) [
          | some total ↦ done (emit x.1 (OutEvent.send_progressed k 0 total))
          | none ↦ done x.1
        ])
accepted-Advances b k (done (some total, c)) x =
    same_tables 0 b c _ (refl, refl, refl, refl, refl, refl) x
accepted-Advances b k (done (none, c)) x = x
accepted-Advances b k panicked x = tt
accepted-Advances b k stuck x = tt

report_cancelled-Advances :
    (b : Behaviour) (r : Option (PeerId × ℕ) × Behaviour)
    → Advances 0 b r.1
    → Advances 0 b (elim r.0 as (λ _. Behaviour) [
      | some (_, id) ↦ emit r.1 (OutEvent.cancelled_recv id)
      | none ↦ r.1
    ])
report_cancelled-Advances b (some (peer, id), c) x =
    same_tables 0 b c _ (refl, refl, refl, refl, refl, refl) x
report_cancelled-Advances b (none, c) x = x

progressed-Advances :
    (w : World) (b : Behaviour) (k : ℕ) (o : Option OngoingFileSend)
    → WellFormed b
    → Advances 0 b (
        progress_ongoing_send w
          (elim o as (λ _. Behaviour) [
            | some v ↦ emit b (OutEvent.send_progressed k v.bytes_sent v.bytes_total)
            | none ↦ b
          ])
          k)
progressed-Advances w b k none wf = progress_ongoing_send-Advances w b k wf
progressed-Advances w b k (some v) wf =
    let told =
      unchanged b (emit b (OutEvent.send_progressed k v.bytes_sent v.bytes_total)) wf
        (refl, refl, refl, refl, refl, refl) in
    Advances-trans 0 b _ _ told (progress_ongoing_send-Advances w _ k told.formed)

handler_event-Advances :
    (w : World) (b : Behaviour) (peer : PeerId) (ev : ToBehaviourEvent)
    → HasRoom b
    → WellFormed b
    → Ends (Advances 1 b) (on_connection_handler_event w b peer ev)
unfolding on_connection_handler_event
handler_event-Advances w b peer (ToBehaviourEvent.recv_progressed id content) room wf =
    Ends-more b _ (progress_ongoing_recv-Advances w b id content wf)
handler_event-Advances w b peer (ToBehaviourEvent.incoming_file name id total) room wf =
    on_new_pending_recv-Advances w b peer name id total room wf
handler_event-Advances w b peer (ToBehaviourEvent.file_send_accepted id) room wf =
    Ends-more b _ (accepted-Advances b id _ (pending_send_accepted-Advances w b id wf))
handler_event-Advances w b peer (ToBehaviourEvent.send_progressed id) room wf =
    Advances-more b _ (progressed-Advances w b id (get b.ongoing_send id) wf)
handler_event-Advances w b peer (ToBehaviourEvent.remote_cancel_send id) room wf =
    let told =
      unchanged b (emit b (OutEvent.cancelled_send id)) wf (refl, refl, refl, refl, refl, refl) in
    Advances-more b _ (Advances-trans 0 b _ _ told (remove_send_record-Advances _ id told.formed))
handler_event-Advances w b peer (ToBehaviourEvent.remote_cancel_recv id) room wf =
    Advances-more b _
      (report_cancelled-Advances b _ (remove_recv_by_remote_send_id-Advances b id wf))
handler_event-Advances w b peer (ToBehaviourEvent.file_send_pending id) room wf =
    Advances-refl 1 b wf
handler_event-Advances w b peer _ room wf =
    Advances-more b _ (unchanged b _ wf (refl, refl, refl, refl, refl, refl))

swarm_event-Advances :
    (b : Behaviour) (ev : FromSwarm) → WellFormed b → Advances 0 b (on_swarm_event b ev)
unfolding on_swarm_event
swarm_event-Advances b (connection_closed peer remaining) wf =
    on_disconnect-Advances b peer remaining wf
swarm_event-Advances b other wf = Advances-refl 0 b wf

pub step-Advances :
    (w : World) (b : Behaviour) (i : Input)
    → HasRoom b
    → WellFormed b
    → Ends (Advances 1 b) (step w b i)
unfolding step
step-Advances w b (pushed ev) room wf = push_event-Advances w b ev room wf
step-Advances w b (reported peer ev) room wf = handler_event-Advances w b peer ev room wf
step-Advances w b (swarm ev) room wf = Advances-more b _ (swarm_event-Advances b ev wf)
step-Advances w b (polled ready) room wf = Advances-more b _ (poll-Advances w ready b wf)

-- Ids left before a counter wraps.
abbrev pub Leaves : ℕ → Behaviour → Type 0
Leaves n b = (b.send_counter + n < u64_mod) × (b.recv_counter + n < u64_mod)

rest-WellFormed :
    (b : Behaviour) (is : List (World × Input)) (r : Run Behaviour)
    → Leaves (length is + 1) b
    → ((c : Behaviour) → Leaves (length is) c → WellFormed c → Ends WellFormed (run c is))
    → Ends (Advances 1 b) r
    → Ends WellFormed (r >>= λ c. run c is)
rest-WellFormed b is (done c) room rest x = rest c (omega arith) x.formed
rest-WellFormed b is panicked room rest x = tt
rest-WellFormed b is stuck room rest x = tt

pub run-WellFormed :
    (b : Behaviour) (is : List (World × Input))
    → Leaves (length is) b
    → WellFormed b
    → Ends WellFormed (run b is)
unfolding run
run-WellFormed b [] room wf = wf
run-WellFormed b ((w, i) ∷ is) room wf =
    rest-WellFormed b is (step w b i) (omega arith) (λ c l f. run-WellFormed c is l f)
      (step-Advances w b i (omega arith) wf)

-- From a new behaviour, any fewer than 2 ^ 64 inputs, with whatever answers of the system, end in a
-- panic, in a call that does not return, or in a state where: the entries of the two tables of sends
-- carry their keys, which are ids below the counter, and no id is both pending and ongoing; pending
-- receives carry their keys, ongoing ones the sender's id under which they stand; and local receive
-- ids are below the counter and stand in one entry only.
pub run-new-WellFormed :
    (c : Config) (is : List (World × Input))
    → length is < u64_mod
    → Ends WellFormed (run (new c) is)
unfolding new
run-new-WellFormed c is h = run-WellFormed (new c) is (omega arith) (new-WellFormed c)
