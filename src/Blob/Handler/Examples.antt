-- ===== src/Blob/Handler/Examples.antt =====
-- A concrete encoding of the messages of protocols/owlnest-blob, and the theorems on its handler there.
use Prim.Native.String.{String as Text, [] as end, ◌∷◌ as ◌then◌}
use Prim.Native.Nat.{compare, Ordering}
use Prim.Native.Char.{char, code, IsLt, IsScalar}
use owl_nest.Base.{
  ℕ, ◌≡◌, refl, ap, ◌∙◌, Option, some, none, List, [], ◌∷◌, arith, map, true, false,
}
use mathlib.Core.Option
use owl_nest.Blob.Types.{Bytes, FromBehaviourEvent, ToBehaviourEvent, Returns, default_config, done}
use owl_nest.Blob.Wire.{Prost, IncomingFile, AcceptFile}
use owl_nest.Blob.Invariant.Formed.{Ends}
use owl_nest.Blob.Handler.{
  Handler, new, idle, HandlerEvent, notify_behaviour, RecvPoll, received, SendPoll, sent, encode,
  poll_inbound, poll_outbound, poll, report, dial_upgrade_error, fully_negotiated_inbound,
}
use owl_nest.Blob.Handler.RoundTrip.{poll_inbound-encode}
use owl_nest.Blob.Handler.Queueing.{started_message, messages, poll-messages}
use owl_nest.Blob.Handler.Unsupported.{request, connected, polled, run, unsupported_once}
use owl_nest.Blob.Handler.Flush.{Flushed, succeeded, all_sent_in_order}

abbrev BothLt : Ordering → Ordering → Type 0
BothLt Ordering.lt o = IsLt o
BothLt Ordering.eq _ = ⊥
BothLt Ordering.gt _ = ⊥

abbrev Scalar : Ordering → Ordering → Ordering → Type 0
Scalar Ordering.lt _ _ = Unit
Scalar Ordering.eq o p = BothLt o p
Scalar Ordering.gt o p = BothLt o p

abbrev lt_test : (o : Ordering) → Option (IsLt o)
lt_test Ordering.lt = some tt
lt_test Ordering.eq = none
lt_test Ordering.gt = none

abbrev both_test : (o p : Ordering) → Option (BothLt o p)
both_test Ordering.lt p = lt_test p
both_test Ordering.eq p = none
both_test Ordering.gt p = none

abbrev scalar_test : (o p q : Ordering) → Option (Scalar o p q)
scalar_test Ordering.lt p q = some tt
scalar_test Ordering.eq p q = both_test p q
scalar_test Ordering.gt p q = both_test p q

lt_test_all : (o : Ordering) (x : IsLt o) → lt_test o ≡ some x
lt_test_all Ordering.lt x = refl
lt_test_all Ordering.eq x = absurd x
lt_test_all Ordering.gt x = absurd x

both_test_all : (o p : Ordering) (x : BothLt o p) → both_test o p ≡ some x
both_test_all Ordering.lt p x = lt_test_all p x
both_test_all Ordering.eq p x = absurd x
both_test_all Ordering.gt p x = absurd x

scalar_test_all : (o p q : Ordering) (x : Scalar o p q) → scalar_test o p q ≡ some x
scalar_test_all Ordering.lt p q x = refl
scalar_test_all Ordering.eq p q x = both_test_all p q x
scalar_test_all Ordering.gt p q x = both_test_all p q x

abbrev codes : Text → Bytes
codes end = []
codes (c then s) = code c ∷ codes s

abbrev add_char : (n : ℕ) → Option (IsScalar n) → Option Text → Option Text
add_char n (some x) (some s) = some (char n x then s)
add_char n (some x) none = none
add_char n none o = none

abbrev text : Bytes → Option Text
text [] = some end
text (n ∷ bytes) =
    add_char n (scalar_test (compare n 55296) (compare 57343 n) (compare n 1114112)) (text bytes)

pub text-codes : (s : Text) → text (codes s) ≡ some s
text-codes end = refl
text-codes (char n x then s) =
    ap (λ o. add_char n o (text (codes s))) (scalar_test_all _ _ _ x)
    ∙ ap (add_char n (some x)) (text-codes s)

abbrev one_number : Bytes → Option AcceptFile
one_number (n ∷ []) = some (record { local_send_id = n })
one_number _ = none

abbrev named : ℕ → ℕ → Option Text → Option IncomingFile
named id total (some s) = some (record { remote_send_id = id; bytes_total = total; file_name = s })
named id total none = none

-- Every number is one byte here, and a name is the list of its characters' numbers.
abbrev pub prost : Prost
prost = record {
  encode_incoming_file = λ m. m.remote_send_id ∷ m.bytes_total ∷ codes m.file_name;
  encode_accept_file = λ m. m.local_send_id ∷ [];
  encode_cancel_send = λ m. m.remote_send_id ∷ [];
  encode_cancel_recv = λ m. m.local_send_id ∷ [];
  encode_file_chunk = λ m. m.remote_send_id ∷ m.content;
  decode_incoming_file = λ bytes. elim bytes [
    | [] ↦ none
    | id ∷ rest ↦ elim rest [ [] ↦ none | total ∷ name ↦ named id total (text name) ]
  ];
  decode_accept_file = one_number;
  decode_cancel_send = λ bytes.
      Option.map (λ (m : AcceptFile). record { remote_send_id = m.local_send_id })
        (one_number bytes);
  decode_cancel_recv = λ bytes.
      Option.map (λ (m : AcceptFile). record { local_send_id = m.local_send_id })
        (one_number bytes);
  decode_file_chunk = λ bytes. elim bytes [
    | [] ↦ none
    | id ∷ content ↦ some (record { remote_send_id = id; content = content })
  ];
  incoming_file_back = λ m. ap (named m.remote_send_id m.bytes_total) (text-codes m.file_name);
  accept_file_back = λ m. refl;
  cancel_send_back = λ m. refl;
  cancel_recv_back = λ m. refl;
  file_chunk_back = λ m. refl;
  file_chunk_size_le = λ m h. omega arith;
}

abbrev offer : FromBehaviourEvent
offer = FromBehaviourEvent.new_file_send "a" 3 0 5

abbrev chunk : FromBehaviourEvent
chunk = FromBehaviourEvent.file_chunk 3 (1 ∷ 2 ∷ [])

-- Both streams are open, and an offer and a chunk wait.
abbrev handler : Handler
handler = record (new default_config) {
  inbound = some 2;
  outbound = some (idle 4);
  pending_in_events = offer ∷ chunk ∷ [];
}

poll_test :
    Ends
      (λ x.
        (x.0 ≡ some (notify_behaviour (ToBehaviourEvent.file_send_pending 3)))
        × (x.1.pending_in_events ≡ []))
      (poll prost RecvPoll.waiting (sent 4 9 ∷ SendPoll.waiting false ∷ []) handler)
unfolding poll new poll_outbound
poll_test = (refl, refl)

poll_inbound-encode_example :
    poll_inbound prost (received 2 (3 ∷ 1 ∷ 2 ∷ []) 4) handler
    ≡ done (none, report handler (ToBehaviourEvent.recv_progressed 3 (1 ∷ 2 ∷ [])))
unfolding encode
poll_inbound-encode_example = poll_inbound-encode prost chunk 2 2 handler refl

poll-messages_example :
    Ends
      (λ (x : Option HandlerEvent × Handler).
        messages prost x.1 ≡ (3 ∷ 5 ∷ 97 ∷ [], 0) ∷ (3 ∷ 1 ∷ 2 ∷ [], 4) ∷ [])
      (poll prost RecvPoll.waiting (sent 4 9 ∷ []) handler)
unfolding encode new
poll-messages_example = poll-messages prost RecvPoll.waiting (sent 4 9 ∷ []) handler

all_sent_in_order_example :
    Flushed (poll_outbound prost (map succeeded ((4, 9) ∷ (4, 8) ∷ [])) handler)
    × (map
          (started_message prost)
          (poll_outbound prost (map succeeded ((4, 9) ∷ (4, 8) ∷ [])) handler).1.started
        ≡ (3 ∷ 5 ∷ 97 ∷ [], 0) ∷ (3 ∷ 1 ∷ 2 ∷ [], 4) ∷ [])
unfolding encode new
all_sent_in_order_example = all_sent_in_order prost ((4, 9) ∷ (4, 8) ∷ []) 4 handler refl refl

unsupported_once_example :
    Returns
      (λ (x : List HandlerEvent × Handler).
        x.0 ≡ notify_behaviour ToBehaviourEvent.unsupported ∷ [])
      (run prost
        (connected (dial_upgrade_error true)
          ∷ request chunk
          ∷ polled RecvPoll.waiting []
          ∷ connected (fully_negotiated_inbound 6)
          ∷ polled RecvPoll.waiting []
          ∷ [])
        handler)
unsupported_once_example =
    unsupported_once prost
      (request chunk
        ∷ polled RecvPoll.waiting []
        ∷ connected (fully_negotiated_inbound 6)
        ∷ polled RecvPoll.waiting []
        ∷ [])
      handler (tt, (tt, (tt, (tt, tt))))
