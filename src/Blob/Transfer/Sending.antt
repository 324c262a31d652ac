-- ===== src/Blob/Transfer/Sending.antt =====
-- A file is read and sent chunk by chunk: progress_ongoing_send, called again and again.
use mathlib.Core.List.{append_assoc}
use owl_nest.Base.{
  ◌<◌, ℕ, ◌+◌, ◌≡◌, ◌≢◌, refl, none, some, nat_key, List, [], ◌∷◌, ◌++◌, length, arith, ap, ◌∙◌,
  ◌%◌,
}
use owl_nest.Base.Table.{get, insert, remove, get-insert, get-remove}
use owl_nest.Blob.Types.{
  World, Bytes, PeerId, ToSwarm, notify_handler, file_chunk, u64_mod, FileHandle,
}
use owl_nest.Blob.State.{Behaviour, OngoingFileSend, notify}
use owl_nest.Blob.Send.{progress_ongoing_send, file_chunk_size}
use owl_nest.Blob.Cases.{sent_chunk, progress_ongoing_send_cases}

-- One call for each answer of the system.
unfoldable pub send_chunks : Behaviour → ℕ → List World → Behaviour
send_chunks b k [] = b
send_chunks b k (w ∷ ws) = send_chunks (progress_ongoing_send w b k) k ws

-- The successive reads of a file give these chunks.
abbrev pub Reads : FileHandle → List World → List Bytes → Type 0
Reads file [] [] = Unit
Reads file (w ∷ ws) (c ∷ cs) = (w.read file file_chunk_size ≡ some c) × Reads file ws cs
Reads file _ _ = ⊥

-- None of them is empty: the end of the file is not among them.
abbrev pub NonEmpty : List Bytes → Type 0
NonEmpty [] = Unit
NonEmpty (c ∷ cs) = (length c ≢ 0) × NonEmpty cs

abbrev pub total : List Bytes → ℕ
total [] = 0
total (c ∷ cs) = length c + total cs

-- The notifications that carry chunks to a peer.
abbrev pub chunk_events : PeerId → ℕ → List Bytes → List ToSwarm
chunk_events peer id [] = []
chunk_events peer id (c ∷ cs) = notify_handler peer (file_chunk id c) ∷ chunk_events peer id cs

-- A chunk is read, sent and counted.
send_one :
    (k : ℕ) (w : World) (b : Behaviour) (v : OngoingFileSend) (c : Bytes)
    → get b.ongoing_send k ≡ some v
    → w.read v.file_handle file_chunk_size ≡ some c
    → length c ≢ 0
    → progress_ongoing_send w b k ≡ record (notify b v.remote (file_chunk v.local_send_id c)) {
      ongoing_send = insert b.ongoing_send k (sent_chunk w v c);
    }
send_one k w b v c e r ne =
    progress_ongoing_send_cases
      (λ b'. b' ≡ record (notify b v.remote (file_chunk v.local_send_id c)) {
        ongoing_send = insert b.ongoing_send k (sent_chunk w v c);
      })
      w b k (λ f. cc)
      (λ u f g.
        let same : u ≡ v = ground arith in
        cc (ap (λ (x : OngoingFileSend). w.read x.file_handle file_chunk_size) same))
      (λ u d f g z.
        let same : u ≡ v = ground arith in
        let chunk : d ≡ c =
          ground (arith, ap (λ (x : OngoingFileSend). w.read x.file_handle file_chunk_size) same) in
        absurd (ne (rw (← chunk) z)))
      (λ u d f g z.
        let same : u ≡ v = ground arith in
        let chunk : d ≡ c =
          ground (arith, ap (λ (x : OngoingFileSend). w.read x.file_handle file_chunk_size) same) in
        rw (same, chunk))

-- The end of the file is sent as an empty chunk, and the record goes.
send_last :
    (k : ℕ) (w : World) (b : Behaviour) (v : OngoingFileSend)
    → get b.ongoing_send k ≡ some v
    → w.read v.file_handle file_chunk_size ≡ some []
    → progress_ongoing_send w b k ≡ record (notify b v.remote (file_chunk v.local_send_id [])) {
      ongoing_send = remove b.ongoing_send k;
    }
unfolding progress_ongoing_send
send_last k w b v e r = rw (e, progress_ongoing_send) (rw r)

-- All chunks of a file and its end were sent to the peer, in order, and nothing else was queued; the
-- send is over, and no other send was touched.
pub record SentWhole (b : Behaviour) (k : ℕ) (v : OngoingFileSend) (cs : List Bytes)
    (b' : Behaviour) : Type 0 where
  pub events :
      b'.pending_handler_event
      ≡ b.pending_handler_event ++ chunk_events v.remote v.local_send_id (cs ++ [] ∷ [])
  pub over : get b'.ongoing_send k ≡ none
  pub others : (j : ℕ) → k ≢ j → get b'.ongoing_send j ≡ get b.ongoing_send j

-- An ongoing send whose file yields some non-empty chunks and then its end is read and sent whole.
pub send_chunks-SentWhole :
    (k : ℕ) (ws : List World) (b : Behaviour) (v : OngoingFileSend) (cs : List Bytes)
    → get b.ongoing_send k ≡ some v
    → Reads v.file_handle ws (cs ++ [] ∷ [])
    → NonEmpty cs
    → SentWhole b k v cs (send_chunks b k ws)
unfolding send_chunks
send_chunks-SentWhole k [] b v [] e reads ne = absurd reads
send_chunks-SentWhole k [] b v (c ∷ cs) e reads ne = absurd reads
send_chunks-SentWhole k (w ∷ []) b v [] e reads ne = rw (send_last k w b v e reads.0) (record {
  events = refl;
  over = ground (arith, get-remove b.ongoing_send k k);
  others = λ j d. ground (arith, get-remove b.ongoing_send k j);
})
send_chunks-SentWhole k (w ∷ x ∷ ws) b v [] e reads ne = absurd reads.1
send_chunks-SentWhole k (w ∷ ws) b v (c ∷ cs) e reads ne =
    let sent = record (notify b v.remote (file_chunk v.local_send_id c)) {
      ongoing_send = insert b.ongoing_send k (sent_chunk w v c);
    } in
    let there : get sent.ongoing_send k ≡ some (sent_chunk w v c) =
      ground (arith, get-insert b.ongoing_send k k (sent_chunk w v c)) in
    let rest = send_chunks-SentWhole k ws sent (sent_chunk w v c) cs there reads.1 ne.1 in
    rw (send_one k w b v c e reads.0 ne.0) (record {
      events = rest.events ∙ append_assoc b.pending_handler_event _ _;
      over = rest.over;
      others =
          λ j d. rest.others j d ∙ ground (arith, get-insert b.ongoing_send k j (sent_chunk w v c));
    })

-- While the file is being read, the count of bytes sent is that of the chunks, modulo 2 ^ 64, and
-- the record else keeps its peer and its size.
pub send_chunks_counts :
    (k : ℕ) (ws : List World) (b : Behaviour) (v : OngoingFileSend) (cs : List Bytes)
    → v.bytes_sent < u64_mod
    → get b.ongoing_send k ≡ some v
    → Reads v.file_handle ws cs
    → NonEmpty cs
    → (u : OngoingFileSend) × (get (send_chunks b k ws).ongoing_send k ≡ some u)
      × (u.bytes_sent ≡ (v.bytes_sent + total cs) % u64_mod)
      × (u.remote ≡ v.remote)
      × (u.bytes_total ≡ v.bytes_total)
unfolding send_chunks
send_chunks_counts k [] b v [] small e reads ne = (v, e, omega arith, refl, refl)
send_chunks_counts k [] b v (c ∷ cs) small e reads ne = absurd reads
send_chunks_counts k (w ∷ ws) b v [] small e reads ne = absurd reads
send_chunks_counts k (w ∷ ws) b v (c ∷ cs) small e reads ne =
    let sent = record (notify b v.remote (file_chunk v.local_send_id c)) {
      ongoing_send = insert b.ongoing_send k (sent_chunk w v c);
    } in
    let there : get sent.ongoing_send k ≡ some (sent_chunk w v c) =
      ground (arith, get-insert b.ongoing_send k k (sent_chunk w v c)) in
    let (u, g, count, peer, size) =
      send_chunks_counts k ws sent (sent_chunk w v c) cs (omega arith) there reads.1 ne.1 in
    rw (send_one k w b v c e reads.0 ne.0, send_chunks) (u, g, omega arith, peer, size)
