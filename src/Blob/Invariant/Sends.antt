-- ===== src/Blob/Invariant/Sends.antt =====
-- The two tables of sends: entries carry their keys, which are ids handed out before, and no id is
-- both pending and ongoing.
use owl_nest.Base.{ℕ, ◌+◌, ◌<◌, ◌≤◌, ◌≡◌, none, some, nat_key, Option-cases, arith, inl, inr}
use owl_nest.Base.Table.{Table, get, insert, remove, get-empty, get-insert, get-remove, empty}
use owl_nest.Base.Within.{Within, remove-Within, Within-none}
use owl_nest.Blob.State.{PendingSend, OngoingFileSend}

pub record SendsOk (n : ℕ) (p : Table ℕ PendingSend) (o : Table ℕ OngoingFileSend) : Type 0 where
  pub pending_keyed : (k : ℕ) (v : PendingSend) → get p k ≡ some v → (v.local_send_id ≡ k) × (k < n)
  pub ongoing_keyed :
      (k : ℕ) (v : OngoingFileSend) → get o k ≡ some v → (v.local_send_id ≡ k) × (k < n)
  pub apart : (k : ℕ) (v : PendingSend) → get p k ≡ some v → get o k ≡ none

pub SendsOk-empty : SendsOk 0 empty empty
SendsOk-empty = record {
  pending_keyed = λ k v h. cc (get-empty {V = PendingSend} k);
  ongoing_keyed = λ k v h. cc (get-empty {V = OngoingFileSend} k);
  apart = λ k v h. get-empty k;
}

module _ {n : ℕ} {p : Table ℕ PendingSend} {o : Table ℕ OngoingFileSend} (s : SendsOk n p o) where
  pub SendsOk-sub :
      (p' : Table ℕ PendingSend) (o' : Table ℕ OngoingFileSend)
      → Within p' p
      → Within o' o
      → SendsOk n p' o'
  SendsOk-sub p' o' hp ho = record {
    pending_keyed = λ k v h. s.pending_keyed k v (hp k v h);
    ongoing_keyed = λ k v h. s.ongoing_keyed k v (ho k v h);
    apart = λ k v h. Within-none o' o k ho (s.apart k v (hp k v h));
  }

  none_above : (k : ℕ) → n ≤ k → get o k ≡ none
  none_above k h = elim (Option-cases (get o k)) [
    | inl e ↦ e
    | inr (v, e) ↦ absurd (omega (arith, s.ongoing_keyed k v e))
  ]

  pub SendsOk-queue : (v : PendingSend) → v.local_send_id ≡ n → SendsOk (n + 1) (insert p n v) o
  SendsOk-queue v own = record {
    pending_keyed = λ k u h. ground (arith, get-insert p n k v, s.pending_keyed k u);
    ongoing_keyed = λ k u h. ground (arith, s.ongoing_keyed k u h);
    apart = λ k u h. ground (arith, get-insert p n k v, s.apart k u, none_above k);
  }

  pub SendsOk-later : (m : ℕ) → n ≤ m → SendsOk m p o
  SendsOk-later m h = record {
    pending_keyed = λ k v e. ground (arith, s.pending_keyed k v e);
    ongoing_keyed = λ k v e. ground (arith, s.ongoing_keyed k v e);
    apart = s.apart;
  }

  pub SendsOk-start :
      (k : ℕ) (v : PendingSend) (u : OngoingFileSend)
      → get p k ≡ some v
      → u.local_send_id ≡ k
      → SendsOk n (remove p k) (insert o u.local_send_id u)
  SendsOk-start k v u e own = record {
    pending_keyed = λ j x h. s.pending_keyed j x (remove-Within p k j x h);
    ongoing_keyed = λ j x h.
        ground
          (arith, get-insert o u.local_send_id j u, s.ongoing_keyed j x, s.pending_keyed k v e);
    apart =
        λ j x h. ground (arith, get-remove p k j, get-insert o u.local_send_id j u, s.apart j x);
  }

  pub SendsOk-progress :
      (k : ℕ) (v u : OngoingFileSend)
      → get o k ≡ some v
      → u.local_send_id ≡ v.local_send_id
      → SendsOk n p (insert o k u)
  SendsOk-progress k v u e own = record {
    pending_keyed = s.pending_keyed;
    ongoing_keyed =
        λ j x h. ground (arith, get-insert o k j u, s.ongoing_keyed j x, s.ongoing_keyed k v e);
    apart = λ j x h. ground (arith, get-insert o k j u, s.apart j x, s.apart k x);
  }
