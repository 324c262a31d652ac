-- ===== src/Blob/Invariant/Recvs.antt =====
-- The two tables of receives: a pending receive stands under its local id, an ongoing one under its
-- sender's id, and no local id stands in two entries.
use owl_nest.Base.{ℕ, ◌+◌, ◌<◌, ◌≡◌, ◌≢◌, some, nat_key, arith}
use owl_nest.Base.Table.{Table, get, insert, remove, get-empty, get-insert, get-remove, empty}
use owl_nest.Base.Within.{Within, remove-Within}
use owl_nest.Blob.State.{PendingRecv, OngoingFileRecv}

pub record RecvsOk (n : ℕ) (p : Table ℕ PendingRecv) (o : Table ℕ OngoingFileRecv) : Type 0 where
  pub pending_keyed : (k : ℕ) (v : PendingRecv) → get p k ≡ some v → (v.local_recv_id ≡ k) × (k < n)
  pub ongoing_keyed :
      (k : ℕ) (v : OngoingFileRecv)
      → get o k ≡ some v
      → (v.remote_send_id ≡ k) × (v.local_recv_id < n)
  pub apart :
      (k : ℕ) (v : PendingRecv) (j : ℕ) (u : OngoingFileRecv)
      → get p k ≡ some v
      → get o j ≡ some u
      → u.local_recv_id ≢ k
  pub distinct :
      (i : ℕ) (v : OngoingFileRecv) (j : ℕ) (u : OngoingFileRecv)
      → get o i ≡ some v
      → get o j ≡ some u
      → v.local_recv_id ≡ u.local_recv_id
      → i ≡ j

pub RecvsOk-empty : RecvsOk 0 empty empty
RecvsOk-empty = record {
  pending_keyed = λ k v h. cc (get-empty {V = PendingRecv} k);
  ongoing_keyed = λ k v h. cc (get-empty {V = OngoingFileRecv} k);
  apart = λ k v j u h _. cc (get-empty {V = PendingRecv} k);
  distinct = λ i v j u h _. cc (get-empty {V = OngoingFileRecv} i);
}

module _ {n : ℕ} {p : Table ℕ PendingRecv} {o : Table ℕ OngoingFileRecv} (s : RecvsOk n p o) where
  pub RecvsOk-sub :
      (p' : Table ℕ PendingRecv) (o' : Table ℕ OngoingFileRecv)
      → Within p' p
      → Within o' o
      → RecvsOk n p' o'
  RecvsOk-sub p' o' hp ho = record {
    pending_keyed = λ k v h. s.pending_keyed k v (hp k v h);
    ongoing_keyed = λ k v h. s.ongoing_keyed k v (ho k v h);
    apart = λ k v j u h g. s.apart k v j u (hp k v h) (ho j u g);
    distinct = λ i v j u h g. s.distinct i v j u (ho i v h) (ho j u g);
  }

  pub RecvsOk-queue : (v : PendingRecv) → v.local_recv_id ≡ n → RecvsOk (n + 1) (insert p n v) o
  RecvsOk-queue v own = record {
    pending_keyed = λ k u h. ground (arith, get-insert p n k v, s.pending_keyed k u);
    ongoing_keyed = λ k u h. ground (arith, s.ongoing_keyed k u h);
    apart =
        λ k u j x h g e. ground (arith, get-insert p n k v, s.apart k u j x, s.ongoing_keyed j x g);
    distinct = s.distinct;
  }

  -- Whatever stood under the sender's id before is replaced.
  pub RecvsOk-start :
      (k : ℕ) (v : PendingRecv) (u : OngoingFileRecv)
      → get p k ≡ some v
      → u.local_recv_id ≡ k
      → RecvsOk n (remove p k) (insert o u.remote_send_id u)
  RecvsOk-start k v u e own = record {
    pending_keyed = λ j x h. s.pending_keyed j x (remove-Within p k j x h);
    ongoing_keyed = λ j x h.
        ground
          (arith, get-insert o u.remote_send_id j u, s.ongoing_keyed j x, s.pending_keyed k v e);
    apart = λ j x i y h g q.
        ground (arith, get-remove p k j, get-insert o u.remote_send_id i u, s.apart j x i y);
    distinct = λ i x j y h g q. ground (
      arith,
      get-insert o u.remote_send_id i u,
      get-insert o u.remote_send_id j u,
      s.distinct i x j y,
      s.apart k v i x e,
      s.apart k v j y e,
    );
  }

  pub RecvsOk-progress :
      (k : ℕ) (v u : OngoingFileRecv)
      → get o k ≡ some v
      → u.remote_send_id ≡ v.remote_send_id
      → u.local_recv_id ≡ v.local_recv_id
      → RecvsOk n p (insert (remove o k) k u)
  RecvsOk-progress k v u e own same = record {
    pending_keyed = s.pending_keyed;
    ongoing_keyed = λ j x h. ground (
      arith,
      get-insert (remove o k) k j u,
      get-remove o k j,
      s.ongoing_keyed j x,
      s.ongoing_keyed k v e,
    );
    apart = λ j x i y h g q. ground (
      arith,
      get-insert (remove o k) k i u,
      get-remove o k i,
      s.apart j x i y h,
      s.apart j x k v h e,
    );
    distinct = λ i x j y h g q. ground (
      arith,
      get-insert (remove o k) k i u,
      get-insert (remove o k) k j u,
      get-remove o k i,
      get-remove o k j,
      s.distinct i x j y,
      s.distinct k v j y e,
      s.distinct i x k v,
    );
  }
