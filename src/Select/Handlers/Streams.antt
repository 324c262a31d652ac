-- ===== src/Select/Handlers/Streams.antt =====
-- The streams that the handlers ask for, and what becomes of a handler's report of the protocols of its
-- peer: owlnest-macro/src/connection_handler_select.rs.
use owl_nest.Base.{◌≡◌, refl, ◌∙◌, ap, Option, none, some, List, [], ◌∷◌, inr}
use owl_nest.Blob.Types.{Run, done, panicked, stuck, ◌>>=◌}
use owl_nest.Select.{Member, here, there, field, inject, replace}
use owl_nest.Select.Handlers.{
  HandlerEvent, notify_behaviour, outbound_substream_request, report_remote_protocols, other_event,
  fully_negotiated_outbound, ConnectionHandler, States, SelectEvent, later_event, after_first, poll,
  on_full_outbound, on_connection_event,
}

-- What a handler's event may be: a stream that some handler asked for, which comes to that handler with
-- the handler's own information when it is negotiated; or an event for a behaviour.
abbrev pub Delivered : (hs : List ConnectionHandler) → States hs → Option (SelectEvent hs) → Type 1
Delivered hs all none = Unit
Delivered hs all (some (notify_behaviour ev)) = Unit
Delivered hs all (some (outbound_substream_request protocol info)) =
    (h : ConnectionHandler) × (m : Member h hs) × (p : h.OutProtocol) × (i : h.OutInfo) × ((h.poll
        (field ConnectionHandler.State m all)).0
      ≡ some (outbound_substream_request p i))
    × (protocol ≡ inject ConnectionHandler.OutProtocol m p)
    × ((stream : h.OutStream) (later : States hs)
        → on_connection_event hs
            (fully_negotiated_outbound (inject ConnectionHandler.OutStream m stream) info) later
          ≡ (h.on_connection_event (fully_negotiated_outbound stream i)
                (field ConnectionHandler.State m later)
              >>= λ s. done (replace ConnectionHandler.State m s later)))
Delivered hs all (some (report_remote_protocols ps)) = (h : ConnectionHandler) × ⊥
Delivered hs all (some other_event) = (h : ConnectionHandler) × ⊥

-- To bring a value into place among the later fields.
bind_there :
    {A B C : Type 0} (r : Run A) (f : A → B) (g : B → C)
    → ((r >>= λ a. done (f a)) >>= λ b. done (g b)) ≡ (r >>= λ a. done (g (f a)))
bind_there (done a) f g = refl
bind_there panicked f g = refl
bind_there stuck f g = refl

later-Delivered :
    (h : ConnectionHandler) (hs : List ConnectionHandler) (s : h.State) (rest : States hs)
    (r : Option (SelectEvent hs))
    → Delivered hs rest r
    → Delivered (h ∷ hs) (s, rest) (later_event h hs r)
unfolding on_connection_event on_full_outbound
later-Delivered h hs s rest none d = tt
later-Delivered h hs s rest (some (notify_behaviour ev)) d = tt
later-Delivered h hs s rest (some (outbound_substream_request protocol info)) d =
    let (k, m, p, i, asked, e, comes) = d in
    (
      k,
      there m,
      p,
      i,
      asked,
      ap (λ x. inr x) e,
      λ stream later.
          ap (λ r. r >>= λ rest'. done (later.0, rest')) (comes stream later.1)
          ∙ bind_there
              (k.on_connection_event (fully_negotiated_outbound stream i)
                (field ConnectionHandler.State m later.1))
              (λ s'. replace ConnectionHandler.State m s' later.1) (λ rest'. (later.0, rest')),
    )
later-Delivered h hs s rest (some (report_remote_protocols ps)) d = (d.0, d.1)
later-Delivered h hs s rest (some other_event) d = (d.0, d.1)

after_first-Delivered :
    (h : ConnectionHandler) (hs : List ConnectionHandler) (s : h.State) (rest : States hs)
    (first : Option (HandlerEvent h.OutProtocol h.OutInfo h.ToBehaviour) × h.State)
    (others : Option (SelectEvent hs) × States hs)
    → h.poll s ≡ first
    → Delivered hs rest others.0
    → Delivered (h ∷ hs) (s, rest) (after_first h hs first rest others).0
unfolding after_first on_connection_event on_full_outbound
after_first-Delivered h hs s rest (some (notify_behaviour ev), s') others asked d = tt
after_first-Delivered h hs s rest (some (outbound_substream_request p i), s') others asked d =
    (h, here, p, i, ap (λ r. r.0) asked, refl, λ stream later. refl)
after_first-Delivered h hs s rest (some (report_remote_protocols ps), s') others asked d =
    later-Delivered h hs s rest others.0 d
after_first-Delivered h hs s rest (some other_event, s') others asked d =
    later-Delivered h hs s rest others.0 d
after_first-Delivered h hs s rest (none, s') others asked d = later-Delivered h hs s rest others.0 d

-- What a poll of the connection's handler asks for was asked for by the handler of one protocol, and the
-- stream that is negotiated for it reaches that handler, with that handler's information, whatever has
-- happened meanwhile, and no other. Reports of the protocols that a peer supports do not come out.
pub poll-Delivered :
    (hs : List ConnectionHandler) (all : States hs) → Delivered hs all (poll hs all).0
unfolding poll
poll-Delivered [] all = tt
poll-Delivered (h ∷ hs) (s, rest) =
    after_first-Delivered h hs s rest (h.poll s) (poll hs rest) refl (poll-Delivered hs rest)
