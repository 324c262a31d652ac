-- ===== src/Blob/Transfer/Receiving.antt =====
-- A file is received and written chunk by chunk: progress_ongoing_recv, called again and again.
use mathlib.Core.List.{append_assoc, append-nil}
use native.Mathlib.Nat.{add-zero}
use owl_nest.Base.{
  ℕ, ◌+◌, ◌<◌, ◌≡◌, ◌≢◌, refl, sym, ◌∙◌, ap, none, some, nat_key, List, [], ◌∷◌, ◌++◌, length,
  arith, if◌then◌else◌, ◌==◌, false, ◌-◌, Bool-cases, inl, inr,
}
use owl_nest.Base.Table.{get, insert, remove, get-insert, get-remove}
use owl_nest.Blob.Types.{
  World, Bytes, FileHandle, Run, done, Returns, Returns-map, ◌>>=◌, OutEvent, recv_progressed,
  unexpected_eof, u64_mod,
}
use owl_nest.Blob.State.{Behaviour, OngoingFileRecv, emit}
use owl_nest.Blob.Recv.{progress_ongoing_recv, write_loop, record_writes}
use owl_nest.Blob.Cases.{take_recv, received_chunk}
use owl_nest.Blob.Transfer.Sending.{NonEmpty, total}
use owl_nest.Blob.Transfer.Writing.{join, Accepts, Written, write_loop-Written}

-- One call for each chunk, with the answers of the system to it.
unfoldable pub recv_chunks : Behaviour → ℕ → List (World × Bytes) → Run Behaviour
recv_chunks b k [] = done b
recv_chunks b k ((w, c) ∷ rest) = progress_ongoing_recv w b k c >>= λ b'. recv_chunks b' k rest

abbrev pub payloads : List (World × Bytes) → List Bytes
payloads [] = []
payloads ((w, c) ∷ rest) = c ∷ payloads rest

-- Every chunk finds a file that accepts it.
abbrev pub AllAccepted : FileHandle → List (World × Bytes) → Type 0
AllAccepted file [] = Unit
AllAccepted file ((w, c) ∷ rest) = Accepts (w.writes file) (length c) × AllAccepted file rest

-- What one file took, of everything that was written.
abbrev pub content_of : FileHandle → List (FileHandle × Bytes) → Bytes
content_of file [] = []
content_of file ((f, s) ∷ rest) =
    let later = content_of file rest in if f == file then s ++ later else later

content_of-append :
    (file : FileHandle) (xs ys : List (FileHandle × Bytes))
    → content_of file (xs ++ ys) ≡ content_of file xs ++ content_of file ys
content_of-append file [] ys = refl
content_of-append file ((f, s) ∷ xs) ys =
    ground (
      arith,
      content_of-append file xs ys,
      append_assoc s (content_of file xs) (content_of file ys),
    )

content_of-record_writes :
    (file : FileHandle) (ss : List Bytes) → content_of file (record_writes file ss) ≡ join ss
unfolding record_writes
content_of-record_writes file [] = refl
content_of-record_writes file (s ∷ ss) = ground (arith, content_of-record_writes file ss)

-- The state after one chunk.
abbrev with_chunk : World → Behaviour → ℕ → OngoingFileRecv → Bytes → Behaviour
with_chunk w b k v c = record b {
  ongoing_recv = insert (remove b.ongoing_recv k) k (received_chunk w v (length c));
  written = b.written ++ record_writes v.file_handle (write_loop (w.writes v.file_handle) c 0).0;
}

accepted_slices :
    (w : World) (v : OngoingFileRecv) (c : Bytes)
    → length c ≢ 0
    → Accepts (w.writes v.file_handle) (length c)
    → Written c 0 (write_loop (w.writes v.file_handle) c 0)
accepted_slices w v c ne a =
    let all : length c ≡ length c - 0 = omega arith in
    write_loop-Written (w.writes v.file_handle) c 0 (omega arith) (rw (← all) a)

recv_one :
    (w : World) (b : Behaviour) (k : ℕ) (v : OngoingFileRecv) (c : Bytes)
    → get b.ongoing_recv k ≡ some v
    → length c ≢ 0
    → Accepts (w.writes v.file_handle) (length c)
    → progress_ongoing_recv w b k c ≡ done (with_chunk w b k v c)
unfolding progress_ongoing_recv
recv_one w b k v c e ne a =
    let z : (length c == 0) ≡ false = ground arith in
    rw (e, z, (accepted_slices w v c ne a).end, progress_ongoing_recv)

-- A file is taken in whole: the record is gone, what the file has taken is what it had and then the
-- chunks, and the user is told the event.
pub record ReceivedWhole (b : Behaviour) (k : ℕ) (v : OngoingFileRecv) (cs : List Bytes)
    (ev : OutEvent) (b' : Behaviour) : Type 0 where
  pub content : content_of v.file_handle b'.written ≡ content_of v.file_handle b.written ++ join cs
  pub over : get b'.ongoing_recv k ≡ none
  pub told : b'.out_events ≡ b.out_events ++ ev ∷ []
  pub others : (j : ℕ) → k ≢ j → get b'.ongoing_recv j ≡ get b.ongoing_recv j

-- How the receive ends: well if all bytes came, and else with an error.
abbrev pub last_event : OngoingFileRecv → ℕ → OutEvent
last_event v received =
    if received == v.bytes_total
    then recv_progressed v.local_recv_id v.bytes_total v.bytes_total
    else OutEvent.error (unexpected_eof v.local_recv_id)

recv_last :
    (w : World) (b : Behaviour) (k : ℕ) (v : OngoingFileRecv)
    → get b.ongoing_recv k ≡ some v
    → progress_ongoing_recv w b k [] ≡ done (emit (take_recv b k) (last_event v v.bytes_received))
unfolding progress_ongoing_recv
recv_last w b k v e = elim (Bool-cases (v.bytes_received == v.bytes_total)) [
  | inl q ↦ rw (e, progress_ongoing_recv) (rw q)
  | inr q ↦ rw (e, progress_ongoing_recv) (rw q)
]

written_content :
    (w : World) (b : Behaviour) (k : ℕ) (v : OngoingFileRecv) (c : Bytes)
    → length c ≢ 0
    → Accepts (w.writes v.file_handle) (length c)
    → content_of v.file_handle (with_chunk w b k v c).written
      ≡ content_of v.file_handle b.written ++ c
written_content w b k v c ne a =
    content_of-append v.file_handle b.written _
    ∙ ap (◌++◌ (content_of v.file_handle b.written))
        (content_of-record_writes v.file_handle _ ∙ (accepted_slices w v c ne a).slices)

-- An ongoing receive that is given non-empty chunks, each accepted by the file system, and then the
-- empty chunk, with fewer than 2 ^ 64 bytes in all, writes them all in order to its file and ends: well
-- exactly if the bytes counted make up the size that was announced.
pub recv_chunks-ReceivedWhole :
    (k : ℕ) (last : World) (ws : List (World × Bytes)) (b : Behaviour) (v : OngoingFileRecv)
    → v.bytes_received + total (payloads ws) < u64_mod
    → get b.ongoing_recv k ≡ some v
    → NonEmpty (payloads ws)
    → AllAccepted v.file_handle ws
    → Returns
        (ReceivedWhole b k v (payloads ws) (last_event v (v.bytes_received + total (payloads ws))))
        (recv_chunks b k (ws ++ (last, []) ∷ []))
unfolding recv_chunks
recv_chunks-ReceivedWhole k last [] b v small e ne a = rw (recv_last last b k v e) (record {
  content = sym (append-nil _);
  over = ground (arith, get-remove b.ongoing_recv k k);
  told = rw add-zero;
  others = λ j d. ground (arith, get-remove b.ongoing_recv k j);
})
recv_chunks-ReceivedWhole k last ((w, c) ∷ ws) b v small e ne a =
    let b1 = with_chunk w b k v c in
    let v1 = received_chunk w v (length c) in
    let there : get b1.ongoing_recv k ≡ some v1 =
      ground (arith, get-insert (remove b.ongoing_recv k) k k v1) in
    let count : v1.bytes_received + total (payloads ws)
        ≡ v.bytes_received + (length c + total (payloads ws)) =
      omega arith in
    let rest = recv_chunks-ReceivedWhole k last ws b1 v1 (omega arith) there ne.1 a.1 in
    rw (recv_one w b k v c e ne.0 a.0) (
      Returns-map (recv_chunks b1 k (ws ++ (last, []) ∷ []))
        (λ b' r. record {
          content =
              r.content
              ∙ rw (written_content w b k v c ne.0 a.0)
                  (append_assoc (content_of v.file_handle b.written) c _);
          over = r.over;
          told = r.told ∙ rw count;
          others = λ j d.
              r.others j d
              ∙ ground (
                arith,
                get-insert (remove b.ongoing_recv k) k j v1,
                get-remove b.ongoing_recv k j,
              );
        })
        rest)
