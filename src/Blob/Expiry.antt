-- ===== src/Blob/Expiry.antt =====
-- check_expiry of protocols/owlnest-blob/src/behaviour.rs.
use owl_nest.Base.{
  ℕ, ◌≡◌, refl, sym, ◌∙◌, not, ◌&&◌, Bool, true, false, Option, none, some, nat_key, keep, holds,
  contains, List, [], ◌∷◌, arith, if◌then◌else◌, ltb, Bool-cases, Option-cases, inl, inr,
}
use owl_nest.Base.Table.{get, keys_where, contains-keys_where}
use owl_nest.Blob.Types.{World}
use owl_nest.Blob.State.{Behaviour, PendingSend, OngoingFileSend}
use owl_nest.Blob.Send.{cancel_send_by_local_send_id}
use owl_nest.Blob.Recv.{cancel_recv_by_local_recv_id}
use owl_nest.Blob.Behaviour.{
  cancel_sends, cancel_recvs, expired, expire_pending_send, expire_pending_recv,
  expire_ongoing_send, expire_ongoing_recv, check_expiry,
}
use owl_nest.Blob.Cases.{cancel_send_cases, cancel_recv_cases}
use owl_nest.Blob.Cancel.{cancel_send_stops}
use owl_nest.Blob.Invariant.Formed.{WellFormed}
use owl_nest.Blob.Invariant.SendOps.{cancel_send-Advances}
use owl_nest.Blob.Invariant.Steps.{expire_pending_send-Advances, expire_pending_recv-Advances}

-- What cancelling sends leaves alone, and what cancelling receives leaves alone.
record SameRecvs (b c : Behaviour) : Type 0 where
  config : c.config ≡ b.config
  pending : c.pending_recv ≡ b.pending_recv
  ongoing : c.ongoing_recv ≡ b.ongoing_recv

record SameSends (b c : Behaviour) : Type 0 where
  config : c.config ≡ b.config
  pending : c.pending_send ≡ b.pending_send
  ongoing : c.ongoing_send ≡ b.ongoing_send

cancel_send-SameRecvs : (b : Behaviour) (k : ℕ) → SameRecvs b (cancel_send_by_local_send_id b k).1
cancel_send-SameRecvs b k =
    cancel_send_cases (λ r. SameRecvs b r.1) b k
      (λ v e. record { config = refl; pending = refl; ongoing = refl })
      (λ v e f. record { config = refl; pending = refl; ongoing = refl })
      (λ e f. record { config = refl; pending = refl; ongoing = refl })

cancel_recv-SameSends : (b : Behaviour) (k : ℕ) → SameSends b (cancel_recv_by_local_recv_id b k).1
cancel_recv-SameSends b k =
    cancel_recv_cases (λ r. SameSends b r.1) b k
      (λ v e. record { config = refl; pending = refl; ongoing = refl })
      (λ v e f. record { config = refl; pending = refl; ongoing = refl })
      (λ e f. record { config = refl; pending = refl; ongoing = refl })

cancel_sends-SameRecvs : (b : Behaviour) (ks : List ℕ) → SameRecvs b (cancel_sends b ks)
unfolding cancel_sends
cancel_sends-SameRecvs b [] = record { config = refl; pending = refl; ongoing = refl }
cancel_sends-SameRecvs b (k ∷ ks) =
    let one = cancel_send-SameRecvs b k in
    let rest = cancel_sends-SameRecvs (cancel_send_by_local_send_id b k).1 ks in
    record {
      config = rest.config ∙ one.config;
      pending = rest.pending ∙ one.pending;
      ongoing = rest.ongoing ∙ one.ongoing;
    }

cancel_recvs-SameSends : (b : Behaviour) (ks : List ℕ) → SameSends b (cancel_recvs b ks)
unfolding cancel_recvs
cancel_recvs-SameSends b [] = record { config = refl; pending = refl; ongoing = refl }
cancel_recvs-SameSends b (k ∷ ks) =
    let one = cancel_recv-SameSends b k in
    let rest = cancel_recvs-SameSends (cancel_recv_by_local_recv_id b k).1 ks in
    record {
      config = rest.config ∙ one.config;
      pending = rest.pending ∙ one.pending;
      ongoing = rest.ongoing ∙ one.ongoing;
    }

-- Cancelling a list of sends removes those and no others.
record SendsWithout (ks : List ℕ) (b c : Behaviour) : Type 0 where
  pending : (j : ℕ) → get c.pending_send j ≡ (if contains j ks then none else get b.pending_send j)
  ongoing : (j : ℕ) → get c.ongoing_send j ≡ (if contains j ks then none else get b.ongoing_send j)

cancel_sends-SendsWithout :
    (b : Behaviour) (ks : List ℕ) → WellFormed b → SendsWithout ks b (cancel_sends b ks)
unfolding cancel_sends contains
cancel_sends-SendsWithout b [] wf = record { pending = λ j. refl; ongoing = λ j. refl }
cancel_sends-SendsWithout b (k ∷ ks) wf =
    let one = cancel_send_stops b k wf in
    let rest =
      cancel_sends-SendsWithout (cancel_send_by_local_send_id b k).1 ks
        (cancel_send-Advances b k wf).formed in
    record {
      pending = λ j. rw (rest.pending j, one.pending j) (ground arith);
      ongoing = λ j. rw (rest.ongoing j, one.ongoing j) (ground arith);
    }

-- `limit` is off, or the time since `then_` exceeds it.
abbrev pub stale : ℕ → ℕ → ℕ → Bool
stale now limit then_ = ltb 0 limit && expired now then_ limit

drop_where {ℓ} :
    {A : Type ℓ} (p : A → Bool) (o : Option A)
    → (if holds p o then none else o) ≡ keep (λ v. not (p v)) o
drop_where p none = refl
drop_where p (some v) = ground arith

keep_all {ℓ} : {A : Type ℓ} (o : Option A) → keep (λ v. not false) o ≡ o
keep_all none = refl
keep_all (some v) = refl

-- What is left of the sends once those that are stale by the two given tests are gone.
record SendsKept (p : PendingSend → Bool) (q : OngoingFileSend → Bool) (b c : Behaviour)
    : Type 0 where
  pending : (j : ℕ) → get c.pending_send j ≡ keep (λ v. not (p v)) (get b.pending_send j)
  ongoing : (j : ℕ) → get c.ongoing_send j ≡ keep (λ v. not (q v)) (get b.ongoing_send j)

module _ (w : World) (b : Behaviour) (wf : WellFormed b) where
  expire_pending_send-SendsKept :
      SendsKept
        (λ v. stale w.now b.config.pending_send_timeout_sec v.timestamp)
        (λ _. false)
        b
        (expire_pending_send w b)
  unfolding expire_pending_send
  expire_pending_send-SendsKept = elim (Bool-cases (ltb 0 b.config.pending_send_timeout_sec)) [
    | inr off ↦ rw off (record { pending = λ j. sym (keep_all _); ongoing = λ j. sym (keep_all _) })
    | inl on ↦ rw on (record { pending = gone; ongoing = other })
  ]
    where
      old : ℕ → PendingSend → Bool
      old _ v = expired w.now v.timestamp b.config.pending_send_timeout_sec

      dropped :
          SendsWithout
            (keys_where old b.pending_send)
            b
            (cancel_sends b (keys_where old b.pending_send))
      dropped = cancel_sends-SendsWithout b (keys_where old b.pending_send) wf

      gone :
          (j : ℕ)
          → get (cancel_sends b (keys_where old b.pending_send)).pending_send j
            ≡ keep (λ v. not (old j v)) (get b.pending_send j)
      gone j =
          rw (dropped.pending j, contains-keys_where old b.pending_send j) (drop_where (old j) _)

      other :
          (j : ℕ)
          → get (cancel_sends b (keys_where old b.pending_send)).ongoing_send j
            ≡ keep (λ v. true) (get b.ongoing_send j)
      other j = elim (Option-cases (get b.pending_send j)) [
        | inl e ↦
            rw (dropped.ongoing j, contains-keys_where old b.pending_send j, e) (sym (keep_all _))
        | inr (v, e) ↦ rw (dropped.ongoing j, wf.sends.apart j v e) (ground arith)
      ]

  expire_ongoing_send-SendsKept :
      SendsKept
        (λ _. false)
        (λ v. stale w.now b.config.ongoing_send_timeout_sec v.last_active)
        b
        (expire_ongoing_send w b)
  unfolding expire_ongoing_send
  expire_ongoing_send-SendsKept = elim (Bool-cases (ltb 0 b.config.ongoing_send_timeout_sec)) [
    | inr off ↦ rw off (record { pending = λ j. sym (keep_all _); ongoing = λ j. sym (keep_all _) })
    | inl on ↦ rw on (record { pending = other; ongoing = gone })
  ]
    where
      old : ℕ → OngoingFileSend → Bool
      old _ v = expired w.now v.last_active b.config.ongoing_send_timeout_sec

      dropped :
          SendsWithout
            (keys_where old b.ongoing_send)
            b
            (cancel_sends b (keys_where old b.ongoing_send))
      dropped = cancel_sends-SendsWithout b (keys_where old b.ongoing_send) wf

      gone :
          (j : ℕ)
          → get (cancel_sends b (keys_where old b.ongoing_send)).ongoing_send j
            ≡ keep (λ v. not (old j v)) (get b.ongoing_send j)
      gone j =
          rw (dropped.ongoing j, contains-keys_where old b.ongoing_send j) (drop_where (old j) _)

      other :
          (j : ℕ)
          → get (cancel_sends b (keys_where old b.ongoing_send)).pending_send j
            ≡ keep (λ v. true) (get b.pending_send j)
      other j = elim (Option-cases (get b.pending_send j)) [
        | inl e ↦ rw (dropped.pending j, e) (ground arith)
        | inr (v, e) ↦
            rw (dropped.pending j, contains-keys_where old b.ongoing_send j, wf.sends.apart j v e)
              (sym (keep_all _))
      ]

if-SameSends : (t : Bool) (b c : Behaviour) → SameSends b c → SameSends b (if t then c else b)
if-SameSends true b c same = same
if-SameSends false b c same = record { config = refl; pending = refl; ongoing = refl }

if-SameRecvs : (t : Bool) (b c : Behaviour) → SameRecvs b c → SameRecvs b (if t then c else b)
if-SameRecvs true b c same = same
if-SameRecvs false b c same = record { config = refl; pending = refl; ongoing = refl }

module _ (w : World) (b : Behaviour) where
  expire_pending_recv-SameSends : SameSends b (expire_pending_recv w b)
  unfolding expire_pending_recv
  expire_pending_recv-SameSends = if-SameSends _ b _ (cancel_recvs-SameSends b _)

  expire_ongoing_recv-SameSends : SameSends b (expire_ongoing_recv w b)
  unfolding expire_ongoing_recv
  expire_ongoing_recv-SameSends = if-SameSends _ b _ (cancel_recvs-SameSends b _)

  expire_pending_send-SameRecvs : SameRecvs b (expire_pending_send w b)
  unfolding expire_pending_send
  expire_pending_send-SameRecvs = if-SameRecvs _ b _ (cancel_sends-SameRecvs b _)

-- In a well formed state, a check for expiry removes exactly these sends: the pending ones whose age
-- exceeds the limit for pending sends, and the ongoing ones that were idle for longer than the limit
-- for ongoing sends; a limit of 0 keeps all. Ages are differences on u64.
pub check_expiry_sends :
    (w : World) (b : Behaviour)
    → WellFormed b
    → ((j : ℕ)
        → get (check_expiry w b).pending_send j
          ≡ keep
              (λ v. not (stale w.now b.config.pending_send_timeout_sec v.timestamp))
              (get b.pending_send j))
      × ((j : ℕ)
          → get (check_expiry w b).ongoing_send j
            ≡ keep
                (λ v. not (stale w.now b.config.ongoing_send_timeout_sec v.last_active))
                (get b.ongoing_send j))
unfolding check_expiry
check_expiry_sends w b wf =
    let one = expire_pending_send w b in
    let two = expire_pending_recv w one in
    let three = expire_ongoing_send w two in
    let ps = expire_pending_send-SendsKept w b wf in
    let pr = expire_pending_recv-SameSends w one in
    let wf2 = expire_pending_recv-Advances w one (expire_pending_send-Advances w b wf).formed in
    let os = expire_ongoing_send-SendsKept w two wf2.formed in
    let or_ = expire_ongoing_recv-SameSends w three in
    let config = pr.config ∙ (expire_pending_send-SameRecvs w b).config in
    (
      (λ j. rw (or_.pending, os.pending j, pr.pending, ps.pending j) (keep_all _)),
      (λ j.
          rw (or_.ongoing, os.ongoing j, config, pr.ongoing, ps.ongoing j)
            (rw (keep_all (get b.ongoing_send j)))),
    )
