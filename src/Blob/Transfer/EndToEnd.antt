-- ===== src/Blob/Transfer/EndToEnd.antt =====
-- A file from the disk of one peer to the disk of the other: the sender's queue of events is what
-- the receiver is given, as the handlers and connections between them hand it over, in order.
use owl_nest.Base.{
  ℕ, ◌+◌, ◌<◌, ◌≡◌, ◌≢◌, refl, ◌∙◌, ap, none, some, nat_key, List, [], ◌∷◌, ◌++◌, length, arith,
  if◌then◌else◌, ◌==◌,
}
use owl_nest.Base.Table.{get}
use owl_nest.Blob.Types.{
  World, Bytes, FileHandle, Returns, Returns-map, ToSwarm, notify_handler, file_chunk,
  recv_progressed, u64_mod, PeerId,
}
use owl_nest.Blob.State.{Behaviour, OngoingFileSend, OngoingFileRecv}
use owl_nest.Blob.Transfer.Sending.{
  send_chunks, Reads, NonEmpty, total, chunk_events, send_chunks-SentWhole,
}
use owl_nest.Blob.Transfer.Writing.{Accepts}
use owl_nest.Blob.Transfer.Receiving.{
  recv_chunks, payloads, AllAccepted, ReceivedWhole, recv_chunks-ReceivedWhole, last_event,
}

-- The chunks of one send among the events that a behaviour has queued for its handlers.
abbrev pub chunk_of : ℕ → ToSwarm → List Bytes → List Bytes
chunk_of id (notify_handler peer (file_chunk j c)) rest = if j == id then c ∷ rest else rest
chunk_of id _ rest = rest

abbrev pub chunks_in : ℕ → List ToSwarm → List Bytes
chunks_in id [] = []
chunks_in id (ev ∷ evs) = chunk_of id ev (chunks_in id evs)

chunks_in-chunk_events :
    (peer : PeerId) (id : ℕ) (cs : List Bytes) → chunks_in id (chunk_events peer id cs) ≡ cs
chunks_in-chunk_events peer id [] = refl
chunks_in-chunk_events peer id (c ∷ cs) = ground (arith, chunks_in-chunk_events peer id cs)

-- The file system of the receiver takes every chunk that is not empty.
abbrev pub ChunksAccepted : FileHandle → List (World × Bytes) → Type 0
ChunksAccepted file [] = Unit
ChunksAccepted file ((w, c) ∷ rest) =
    (length c ≢ 0 → Accepts (w.writes file) (length c)) × ChunksAccepted file rest

-- What arrived is some chunks and the empty one that ends them.
record Arrival (file : FileHandle) (cs : List Bytes) (arrived : List (World × Bytes)) : Type 0 where
  before : List (World × Bytes)
  last : World
  whole : arrived ≡ before ++ (last, []) ∷ []
  same : payloads before ≡ cs
  accepted : AllAccepted file before

arrival :
    (file : FileHandle) (cs : List Bytes) (arrived : List (World × Bytes))
    → payloads arrived ≡ cs ++ [] ∷ []
    → NonEmpty cs
    → ChunksAccepted file arrived
    → Arrival file cs arrived
arrival file [] [] e ne a = cc
arrival file [] ((w, c) ∷ []) e ne a = record {
  before = [];
  last = w;
  whole = ground arith;
  same = refl;
  accepted = tt;
}
arrival file [] ((w, c) ∷ (x, d) ∷ rest) e ne a = cc
arrival file (c ∷ cs) [] e ne a = cc
arrival file (c ∷ cs) ((w, d) ∷ rest) e ne a =
    let r = arrival file cs rest (ground arith) ne.1 a.1 in
    let head : c ≡ d = ground arith in
    record {
      before = (w, d) ∷ r.before;
      last = r.last;
      whole = ap (◌∷◌ (w, d)) r.whole;
      same = ground (arith, r.same);
      accepted = (a.0 (rw (← head) ne.0), r.accepted);
    }

-- If one peer, with nothing else queued for its handlers, reads a file of fewer than 2 ^ 64 bytes to
-- its end as some non-empty chunks, and the other, with an ongoing receive that has nothing yet and
-- expects that many bytes, is given the chunks that the first has queued, in order, and its file system
-- takes them, then its file has gained exactly the content that was read, the user is told of success,
-- and both ends have closed the transfer.
pub file_arrives :
    (k : ℕ) (ws : List World) (b : Behaviour) (v : OngoingFileSend) (cs : List Bytes) (r : ℕ)
    (arrived : List (World × Bytes)) (c : Behaviour) (u : OngoingFileRecv)
    → get b.ongoing_send k ≡ some v
    → b.pending_handler_event ≡ []
    → Reads v.file_handle ws (cs ++ [] ∷ [])
    → NonEmpty cs
    → total cs < u64_mod
    → get c.ongoing_recv r ≡ some u
    → u.bytes_received ≡ 0
    → u.bytes_total ≡ total cs
    → payloads arrived ≡ chunks_in v.local_send_id (send_chunks b k ws).pending_handler_event
    → ChunksAccepted u.file_handle arrived
    → (get (send_chunks b k ws).ongoing_send k ≡ none)
      × Returns
          (ReceivedWhole c r u cs (recv_progressed u.local_recv_id (total cs) (total cs)))
          (recv_chunks c r arrived)
file_arrives k ws b v cs r arrived c u e quiet reads ne small f zero_ size same a =
    let sent = send_chunks-SentWhole k ws b v cs e reads ne in
    let queue : (send_chunks b k ws).pending_handler_event
        ≡ chunk_events v.remote v.local_send_id (cs ++ [] ∷ []) =
      sent.events ∙ rw quiet in
    let came : payloads arrived ≡ cs ++ [] ∷ [] =
      same ∙ rw queue (chunks_in-chunk_events v.remote v.local_send_id (cs ++ [] ∷ [])) in
    let x = arrival u.file_handle cs arrived came ne a in
    let got =
      recv_chunks-ReceivedWhole r x.last x.before c u (rw (x.same, zero_) (omega arith)) f
        (rw x.same ne) x.accepted in
    let told : last_event u (u.bytes_received + total (payloads x.before))
        ≡ recv_progressed u.local_recv_id (total cs) (total cs) =
      ground (arith, ap total x.same) in
    (
      sent.over,
      rw x.whole (
          Returns-map (recv_chunks c r (x.before ++ (x.last, []) ∷ []))
            (λ c' g. record {
              content = g.content ∙ rw x.same;
              over = g.over;
              told = g.told ∙ rw told;
              others = g.others;
            })
            got),
    )
