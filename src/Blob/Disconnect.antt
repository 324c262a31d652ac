-- ===== src/Blob/Disconnect.antt =====
-- on_disconnect of protocols/owlnest-blob/src/behaviour.rs.
use owl_nest.Base.{
  ℕ, suc, ◌≡◌, not, ◌&&◌, nat_key, keep, ◌==◌, contains, contains-set_remove, arith,
}
use owl_nest.Base.Table.{get, get-retain}
use owl_nest.Blob.Types.{PeerId}
use owl_nest.Blob.State.{Behaviour}
use owl_nest.Blob.Behaviour.{on_swarm_event, connection_closed, on_disconnect}

-- The peer is not connected any more, and of each table exactly its records are gone.
pub record PeerGone (b : Behaviour) (peer : PeerId) (b' : Behaviour) : Type 0 where
  pub connected :
      (p : PeerId)
      → contains p b'.connected_peers ≡ (not (peer == p) && contains p b.connected_peers)
  pub pending_send :
      (k : ℕ) → get b'.pending_send k ≡ keep (λ v. not (v.remote == peer)) (get b.pending_send k)
  pub ongoing_send :
      (k : ℕ) → get b'.ongoing_send k ≡ keep (λ v. not (v.remote == peer)) (get b.ongoing_send k)
  pub pending_recv :
      (k : ℕ) → get b'.pending_recv k ≡ keep (λ v. not (v.remote == peer)) (get b.pending_recv k)
  pub ongoing_recv :
      (k : ℕ) → get b'.ongoing_recv k ≡ keep (λ v. not (v.remote == peer)) (get b.ongoing_recv k)

-- When the last connection to a peer closes, the peer is dropped with all its transfers and no
-- others; while connections to it remain, the closing of one changes nothing.
pub last_connection_closed :
    (b : Behaviour) (peer : PeerId)
    → PeerGone b peer (on_swarm_event b (connection_closed peer 0))
      × ((n : ℕ) → on_swarm_event b (connection_closed peer (suc n)) ≡ b)
unfolding on_swarm_event on_disconnect
last_connection_closed b peer = (
  record {
    connected = λ p. contains-set_remove peer p b.connected_peers;
    pending_send = λ k. get-retain _ b.pending_send k;
    ongoing_send = λ k. get-retain _ b.ongoing_send k;
    pending_recv = λ k. get-retain _ b.pending_recv k;
    ongoing_recv = λ k. get-retain _ b.ongoing_recv k;
  },
  (λ n. ground arith),
)
