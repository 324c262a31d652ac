-- ===== src/Swarm/Node/Channels.antt =====
-- The order of the requests that come out of the bundle of channels which owlnest-proc/src/lib.rs
-- generates.
use mathlib.Core.List.{append_assoc, append-nil}
use owl_nest.Base.{◌≡◌, refl, sym, ◌∙◌, ap, Option, none, some, List, [], ◌∷◌, ◌++◌}
use owl_nest.Swarm.Node.{Rx, RxBundle, poll_recv, poll_next}

abbrev pub no_messages : RxBundle
no_messages = record {
  swarm = [];
  messaging = [];
  advertise = [];
  blob = [];
  kad = [];
  autonat = [];
  mdns = [];
  gossipsub = [];
}

-- What is in the channels of one and then in those of the other.
abbrev pub then_also : RxBundle → RxBundle → RxBundle
then_also a b = record {
  swarm = a.swarm ++ b.swarm;
  messaging = a.messaging ++ b.messaging;
  advertise = a.advertise ++ b.advertise;
  blob = a.blob ++ b.blob;
  kad = a.kad ++ b.kad;
  autonat = a.autonat ++ b.autonat;
  mdns = a.mdns ++ b.mdns;
  gossipsub = a.gossipsub ++ b.gossipsub;
}

-- One request in its channel.
abbrev pub alone : Rx → RxBundle
alone (Rx.swarm ev) = record no_messages { swarm = ev ∷ [] }
alone (Rx.messaging ev) = record no_messages { messaging = ev ∷ [] }
alone (Rx.advertise ev) = record no_messages { advertise = ev ∷ [] }
alone (Rx.blob ev) = record no_messages { blob = ev ∷ [] }
alone (Rx.kad ev) = record no_messages { kad = ev ∷ [] }
alone (Rx.auto_nat ev) = record no_messages { autonat = ev ∷ [] }
alone (Rx.mdns ev) = record no_messages { mdns = ev ∷ [] }
alone (Rx.gossipsub ev) = record no_messages { gossipsub = ev ∷ [] }

abbrev pub sorted : List Rx → RxBundle
sorted [] = no_messages
sorted (ev ∷ evs) = then_also (alone ev) (sorted evs)

-- Handles send requests, and the task takes one if there is any.
pub data Turn : Type 0 where
  sent : Rx → Turn
  taken : Turn

abbrev pub turn : RxBundle → Turn → Option Rx × RxBundle
turn rx (sent ev) = (none, then_also rx (alone ev))
turn rx taken = poll_next rx

abbrev received_one : Option Rx → List Rx → List Rx
received_one none evs = evs
received_one (some ev) evs = ev ∷ evs

-- The requests that the task took, in order, and the channels in the end.
unfoldable pub run : RxBundle → List Turn → List Rx × RxBundle
unfolding poll_next
run rx [] = ([], rx)
run rx (t ∷ ts) =
    let (ev, rx') = turn rx t in let (evs, rx'') = run rx' ts in (received_one ev evs, rx'')

abbrev pub requests : List Turn → List Rx
requests [] = []
requests (sent ev ∷ ts) = ev ∷ requests ts
requests (taken ∷ ts) = requests ts

then_also_assoc : (a b c : RxBundle) → then_also (then_also a b) c ≡ then_also a (then_also b c)
then_also_assoc a b c i = record {
  swarm = append_assoc a.swarm b.swarm c.swarm i;
  messaging = append_assoc a.messaging b.messaging c.messaging i;
  advertise = append_assoc a.advertise b.advertise c.advertise i;
  blob = append_assoc a.blob b.blob c.blob i;
  kad = append_assoc a.kad b.kad c.kad i;
  autonat = append_assoc a.autonat b.autonat c.autonat i;
  mdns = append_assoc a.mdns b.mdns c.mdns i;
  gossipsub = append_assoc a.gossipsub b.gossipsub c.gossipsub i;
}

then_also_nothing : (a : RxBundle) → then_also a no_messages ≡ a
then_also_nothing a i = record {
  swarm = append-nil a.swarm i;
  messaging = append-nil a.messaging i;
  advertise = append-nil a.advertise i;
  blob = append-nil a.blob i;
  kad = append-nil a.kad i;
  autonat = append-nil a.autonat i;
  mdns = append-nil a.mdns i;
  gossipsub = append-nil a.gossipsub i;
}

-- What a poll took and what it left are what there was.
abbrev Split : RxBundle → Option Rx × RxBundle → Type 0
Split rx (none, rx') = rx' ≡ rx
Split rx (some ev, rx') = then_also (alone ev) rx' ≡ rx

poll_recv-Split :
    {A : Type 0} (rx : RxBundle) (messages : List A) (wrap : A → Rx) (rest : List A → RxBundle)
    (later : Option Rx × RxBundle)
    → rest messages ≡ rx
    → ((m : A) (ms : List A) → then_also (alone (wrap m)) (rest ms) ≡ rest (m ∷ ms))
    → Split rx later
    → Split rx (poll_recv messages wrap rest later)
poll_recv-Split rx [] wrap rest later whole first split = split
poll_recv-Split rx (m ∷ ms) wrap rest later whole first split = first m ms ∙ whole

poll_next-Split : (rx : RxBundle) → Split rx (poll_next rx)
unfolding poll_next
poll_next-Split rx =
    poll_recv-Split rx rx.swarm _ _ _ refl (λ m ms. refl)
      (poll_recv-Split rx rx.messaging _ _ _ refl (λ m ms. refl)
        (poll_recv-Split rx rx.advertise _ _ _ refl (λ m ms. refl)
          (poll_recv-Split rx rx.blob _ _ _ refl (λ m ms. refl)
            (poll_recv-Split rx rx.kad _ _ _ refl (λ m ms. refl)
              (poll_recv-Split rx rx.autonat _ _ _ refl (λ m ms. refl)
                (poll_recv-Split rx rx.mdns _ _ _ refl (λ m ms. refl)
                  (poll_recv-Split rx rx.gossipsub _ _ (none, rx) refl (λ m ms. refl) refl)))))))

after_take :
    (ts : List Turn) (rx : RxBundle) (r : Option Rx × RxBundle)
    → ((rx' : RxBundle)
        → then_also (sorted (run rx' ts).0) (run rx' ts).1 ≡ then_also rx' (sorted (requests ts)))
    → Split rx r
    → then_also (sorted (received_one r.0 (run r.1 ts).0)) (run r.1 ts).1
      ≡ then_also rx (sorted (requests ts))
after_take ts rx (none, rx') ih split = ih rx' ∙ ap (λ a. then_also a (sorted (requests ts))) split
after_take ts rx (some ev, rx') ih split =
    then_also_assoc (alone ev) (sorted (run rx' ts).0) (run rx' ts).1
    ∙ ap (then_also (alone ev)) (ih rx')
    ∙ sym (then_also_assoc (alone ev) rx' (sorted (requests ts)))
    ∙ ap (λ a. then_also a (sorted (requests ts))) split

-- Whatever is sent when, the requests that the task took from a channel, in order, and then those that
-- are still in it are those that it held at first and then those that were sent to it: none is lost,
-- doubled or overtaken by another of its channel.
pub run-sorted :
    (ts : List Turn) (rx : RxBundle)
    → then_also (sorted (run rx ts).0) (run rx ts).1 ≡ then_also rx (sorted (requests ts))
unfolding run
run-sorted [] rx = sym (then_also_nothing rx)
run-sorted (sent ev ∷ ts) rx =
    run-sorted ts (then_also rx (alone ev)) ∙ then_also_assoc rx (alone ev) (sorted (requests ts))
run-sorted (taken ∷ ts) rx = after_take ts rx (poll_next rx) (run-sorted ts) (poll_next-Split rx)

poll_recv-none :
    {A : Type 0} (messages : List A) (wrap : A → Rx) (rest : List A → RxBundle)
    (later : Option Rx × RxBundle)
    → (poll_recv messages wrap rest later).0 ≡ none
    → (messages ≡ []) × (later.0 ≡ none)
poll_recv-none [] wrap rest later e = (refl, e)
poll_recv-none (m ∷ ms) wrap rest later e = absurd (cc)

-- The task finds nothing to do only when there is no request in any channel.
pub poll_next-none : (rx : RxBundle) → (poll_next rx).0 ≡ none → rx ≡ no_messages
unfolding poll_next
poll_next-none rx e =
    let (swarm, e1) = poll_recv-none rx.swarm _ _ _ e in
    let (messaging, e2) = poll_recv-none rx.messaging _ _ _ e1 in
    let (advertise, e3) = poll_recv-none rx.advertise _ _ _ e2 in
    let (blob, e4) = poll_recv-none rx.blob _ _ _ e3 in
    let (kad, e5) = poll_recv-none rx.kad _ _ _ e4 in
    let (autonat, e6) = poll_recv-none rx.autonat _ _ _ e5 in
    let (mdns, e7) = poll_recv-none rx.mdns _ _ _ e6 in
    let (gossipsub, _) = poll_recv-none rx.gossipsub _ _ (none, rx) e7 in
    λ i. record {
      swarm = swarm i;
      messaging = messaging i;
      advertise = advertise i;
      blob = blob i;
      kad = kad i;
      autonat = autonat i;
      mdns = mdns i;
      gossipsub = gossipsub i;
    }
