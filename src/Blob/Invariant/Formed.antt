-- ===== src/Blob/Invariant/Formed.antt =====
-- When the behaviour of protocols/owlnest-blob is well formed, and how far its counters move.
use owl_nest.Base.{ℕ, ◌+◌, ◌<◌, ◌≤◌, ◌≡◌, arith}
use owl_nest.Blob.Types.{u64_mod, Config, Run, done, panicked, stuck}
use owl_nest.Blob.State.{Behaviour, new}
use owl_nest.Blob.Invariant.Sends.{SendsOk, SendsOk-empty}
use owl_nest.Blob.Invariant.Recvs.{RecvsOk, RecvsOk-empty}

-- Both halves of the state are in order, with ids below the counters.
pub record WellFormed (b : Behaviour) : Type 0 where
  pub sends : SendsOk b.send_counter b.pending_send b.ongoing_send
  pub recvs : RecvsOk b.recv_counter b.pending_recv b.ongoing_recv

-- A result that is well formed, with counters that no more than the given steps have moved.
pub record Advances (n : ℕ) (b b' : Behaviour) : Type 0 where
  pub formed : WellFormed b'
  pub send_counter : b'.send_counter ≤ b.send_counter + n
  pub recv_counter : b'.recv_counter ≤ b.recv_counter + n

pub new-WellFormed : (c : Config) → WellFormed (new c)
unfolding new
new-WellFormed c = record { sends = SendsOk-empty; recvs = RecvsOk-empty }

module _ (b : Behaviour) (b' : Behaviour) where
  pub kept :
      WellFormed b'
      → b'.send_counter ≡ b.send_counter
      → b'.recv_counter ≡ b.recv_counter
      → Advances 0 b b'
  kept wf s r = record { formed = wf; send_counter = omega arith; recv_counter = omega arith }

pub Advances-refl : (n : ℕ) (b : Behaviour) → WellFormed b → Advances n b b
Advances-refl n b wf = record {
  formed = wf;
  send_counter = omega arith;
  recv_counter = omega arith;
}

pub Advances-trans : (n : ℕ) (b c d : Behaviour) → Advances 0 b c → Advances n c d → Advances n b d
Advances-trans n b c d x y = record {
  formed = y.formed;
  send_counter = omega arith;
  recv_counter = omega arith;
}

pub Advances-more : (b c : Behaviour) → Advances 0 b c → Advances 1 b c
Advances-more b c x = record {
  formed = x.formed;
  send_counter = omega arith;
  recv_counter = omega arith;
}

-- The next ids do not wrap.
pub record HasRoom (b : Behaviour) : Type 0 where
  pub send_counter : b.send_counter + 1 < u64_mod
  pub recv_counter : b.recv_counter + 1 < u64_mod

-- Of a run that ends normally; a panic or a call that never returns leaves no state to speak of.
abbrev pub Ends {ℓ κ} : {A : Type ℓ} → (A → Type κ) → Run A → Type κ
Ends P (done a) = P a
Ends P panicked = Unit
Ends P stuck = Unit
