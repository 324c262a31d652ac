-- ===== src/Select/Handlers.antt =====
-- owlnest-macro/src/connection_handler_select.rs: the implementation of ConnectionHandler that it
-- generates. How a stream is negotiated is left out: libp2p gives back the stream of the protocol that
-- was asked for, with the information of the request.
pub mod Streams
use owl_nest.Base.{ℕ, Bool, true, ◌||◌, Option, none, some, List, [], ◌∷◌, ◌⊎◌, inl, inr}
use owl_nest.Blob.Types.{Run, done, panicked, ◌>>=◌}
use owl_nest.Select.{OneOf, AllOf}

-- `ConnectionHandlerEvent`. The variants that libp2p has got since are `other_event`.
pub data HandlerEvent (Protocol Info ToBehaviour : Type 0) : Type 0 where
  notify_behaviour : ToBehaviour → HandlerEvent Protocol Info ToBehaviour
  outbound_substream_request : Protocol → Info → HandlerEvent Protocol Info ToBehaviour
  report_remote_protocols : List ℕ → HandlerEvent Protocol Info ToBehaviour
  other_event : HandlerEvent Protocol Info ToBehaviour

pub data StreamUpgradeError (E : Type 0) : Type 0 where
  timeout negotiation_failed : StreamUpgradeError E
  apply : E → StreamUpgradeError E
  io : ℕ → StreamUpgradeError E

-- `ConnectionEvent`. The variants that libp2p has got since are `uncovered`.
pub data ConnectionEvent (OutStream OutInfo InStream InInfo InError OutError : Type 0)
    : Type 0 where
  fully_negotiated_outbound :
      OutStream → OutInfo → ConnectionEvent OutStream OutInfo InStream InInfo InError OutError
  fully_negotiated_inbound :
      InStream → InInfo → ConnectionEvent OutStream OutInfo InStream InInfo InError OutError
  address_change local_protocols_change remote_protocols_change :
      ℕ → ConnectionEvent OutStream OutInfo InStream InInfo InError OutError
  dial_upgrade_error :
      OutInfo
      → StreamUpgradeError OutError
      → ConnectionEvent OutStream OutInfo InStream InInfo InError OutError
  listen_upgrade_error :
      InInfo → InError → ConnectionEvent OutStream OutInfo InStream InInfo InError OutError
  uncovered : ConnectionEvent OutStream OutInfo InStream InInfo InError OutError

pub record ConnectionHandler : Type 1 where
  pub State : Type 0
  pub FromBehaviour : Type 0
  pub ToBehaviour : Type 0
  pub OutProtocol : Type 0
  pub OutInfo : Type 0
  pub OutStream : Type 0
  pub OutError : Type 0
  pub InInfo : Type 0
  pub InStream : Type 0
  pub InError : Type 0
  pub connection_keep_alive : State → Bool
  pub poll : State → Option (HandlerEvent OutProtocol OutInfo ToBehaviour) × State
  pub on_behaviour_event : FromBehaviour → State → State
  pub on_connection_event :
      ConnectionEvent OutStream OutInfo InStream InInfo InError OutError → State → Run State

abbrev pub States : List ConnectionHandler → Type 0
States hs = AllOf ConnectionHandler.State hs

abbrev pub OutInfos : List ConnectionHandler → Type 0
OutInfos hs = OneOf ConnectionHandler.OutInfo hs

abbrev pub SelectEvent : List ConnectionHandler → Type 0
SelectEvent hs =
    HandlerEvent (OneOf ConnectionHandler.OutProtocol hs) (OutInfos hs)
      (OneOf ConnectionHandler.ToBehaviour hs)

abbrev pub SelectConnectionEvent : List ConnectionHandler → Type 0
SelectConnectionEvent hs =
    ConnectionEvent (OneOf ConnectionHandler.OutStream hs) (OutInfos hs)
      (OneOf ConnectionHandler.InStream hs) (AllOf ConnectionHandler.InInfo hs)
      (OneOf ConnectionHandler.InError hs) (OneOf ConnectionHandler.OutError hs)

-- The connection is kept alive if one of the handlers wants it, or if there is none.
any_alive : (hs : List ConnectionHandler) → States hs → Bool
any_alive [] all = Bool.false
any_alive (h ∷ hs) (s, rest) = h.connection_keep_alive s || any_alive hs rest

unfoldable pub connection_keep_alive : (hs : List ConnectionHandler) → States hs → Bool
unfolding any_alive
connection_keep_alive [] all = true
connection_keep_alive (h ∷ hs) all = any_alive (h ∷ hs) all

-- The events of the other handlers, in the variants of all.
abbrev pub later_event :
    (h : ConnectionHandler) (hs : List ConnectionHandler)
    → Option (SelectEvent hs)
    → Option (SelectEvent (h ∷ hs))
later_event h hs none = none
later_event h hs (some (notify_behaviour ev)) = some (notify_behaviour (inr ev))
later_event h hs (some (outbound_substream_request protocol info)) =
    some (outbound_substream_request (inr protocol) (inr info))
later_event h hs (some (report_remote_protocols ps)) = some (report_remote_protocols ps)
later_event h hs (some other_event) = some other_event

-- What a poll of the first handler decides: for `_ => ()` the next one is polled.
unfoldable pub after_first :
    (h : ConnectionHandler) (hs : List ConnectionHandler)
    → Option (HandlerEvent h.OutProtocol h.OutInfo h.ToBehaviour) × h.State
    → States hs
    → Option (SelectEvent hs) × States hs
    → Option (SelectEvent (h ∷ hs)) × States (h ∷ hs)
after_first h hs (some (notify_behaviour ev), s) rest others =
    (some (notify_behaviour (inl ev)), (s, rest))
after_first h hs (some (outbound_substream_request protocol info), s) rest others =
    (some (outbound_substream_request (inl protocol) (inl info)), (s, rest))
after_first h hs (_, s) rest others = (later_event h hs others.0, (s, others.1))

unfoldable pub poll :
    (hs : List ConnectionHandler) → States hs → Option (SelectEvent hs) × States hs
unfolding after_first
poll [] all = (none, all)
poll (h ∷ hs) (s, rest) = after_first h hs (h.poll s) rest (poll hs rest)

unfoldable pub on_behaviour_event :
    (hs : List ConnectionHandler) → OneOf ConnectionHandler.FromBehaviour hs → States hs → States hs
on_behaviour_event [] one all = all
on_behaviour_event (h ∷ hs) (inl ev) (s, rest) = (h.on_behaviour_event ev s, rest)
on_behaviour_event (h ∷ hs) (inr ev) (s, rest) = (s, on_behaviour_event hs ev rest)

-- `transpose_full_outbound` and the event to the handler of both; it panics if the stream and the
-- information are not of one protocol.
unfoldable pub on_full_outbound :
    (hs : List ConnectionHandler)
    → OneOf ConnectionHandler.OutStream hs
    → OutInfos hs
    → States hs
    → Run (States hs)
on_full_outbound [] stream info all = done all
on_full_outbound (h ∷ hs) (inl stream) (inl info) (s, rest) =
    h.on_connection_event (fully_negotiated_outbound stream info) s >>= λ s'. done (s', rest)
on_full_outbound (h ∷ hs) (inr stream) (inr info) (s, rest) =
    on_full_outbound hs stream info rest >>= λ rest'. done (s, rest')
on_full_outbound (h ∷ hs) _ _ all = panicked

-- `transpose_full_inbound`: the information of the stream's protocol.
unfoldable pub on_full_inbound :
    (hs : List ConnectionHandler)
    → OneOf ConnectionHandler.InStream hs
    → AllOf ConnectionHandler.InInfo hs
    → States hs
    → Run (States hs)
on_full_inbound [] stream info all = done all
on_full_inbound (h ∷ hs) (inl stream) (info, infos) (s, rest) =
    h.on_connection_event (fully_negotiated_inbound stream info) s >>= λ s'. done (s', rest)
on_full_inbound (h ∷ hs) (inr stream) (info, infos) (s, rest) =
    on_full_inbound hs stream infos rest >>= λ rest'. done (s, rest')

-- `on_listen_upgrade_error`.
unfoldable pub on_listen_upgrade_error :
    (hs : List ConnectionHandler)
    → AllOf ConnectionHandler.InInfo hs
    → OneOf ConnectionHandler.InError hs
    → States hs
    → Run (States hs)
on_listen_upgrade_error [] info error all = done all
on_listen_upgrade_error (h ∷ hs) (info, infos) (inl error) (s, rest) =
    h.on_connection_event (listen_upgrade_error info error) s >>= λ s'. done (s', rest)
on_listen_upgrade_error (h ∷ hs) (info, infos) (inr error) (s, rest) =
    on_listen_upgrade_error hs infos error rest >>= λ rest'. done (s, rest')

-- The error of the first protocol, or of one of the others, that an upgrade ended with.
abbrev pub of_first : {E F : Type 0} → StreamUpgradeError (E ⊎ F) → Run (StreamUpgradeError E)
of_first timeout = done timeout
of_first negotiation_failed = done negotiation_failed
of_first (io e) = done (io e)
of_first (apply (inl e)) = done (apply e)
of_first (apply (inr e)) = panicked

abbrev pub of_others : {E F : Type 0} → StreamUpgradeError (E ⊎ F) → Run (StreamUpgradeError F)
of_others timeout = done timeout
of_others negotiation_failed = done negotiation_failed
of_others (io e) = done (io e)
of_others (apply (inl e)) = panicked
of_others (apply (inr e)) = done (apply e)

-- `transpose_upgr_error`: the information says whose error it is; it panics if an error of an upgrade
-- is another protocol's.
unfoldable pub on_upgr_error :
    (hs : List ConnectionHandler)
    → OutInfos hs
    → StreamUpgradeError (OneOf ConnectionHandler.OutError hs)
    → States hs
    → Run (States hs)
on_upgr_error [] info error all = done all
on_upgr_error (h ∷ hs) (inl info) error (s, rest) = do
  e ← of_first error
  s' ← h.on_connection_event (dial_upgrade_error info e) s
  done (s', rest)
on_upgr_error (h ∷ hs) (inr info) error (s, rest) = do
  e ← of_others error
  rest' ← on_upgr_error hs info e rest
  done (s, rest')

-- An event for every handler, one after the other.
unfoldable pub broadcast :
    (hs : List ConnectionHandler)
    → ((h : ConnectionHandler) → h.State → Run h.State)
    → States hs
    → Run (States hs)
broadcast [] tell all = done all
broadcast (h ∷ hs) tell (s, rest) = do
  s' ← tell h s
  rest' ← broadcast hs tell rest
  done (s', rest')

unfoldable pub on_connection_event :
    (hs : List ConnectionHandler) → SelectConnectionEvent hs → States hs → Run (States hs)
unfolding on_full_outbound on_full_inbound on_listen_upgrade_error on_upgr_error broadcast
on_connection_event hs (fully_negotiated_outbound stream info) all =
    on_full_outbound hs stream info all
on_connection_event hs (fully_negotiated_inbound stream info) all =
    on_full_inbound hs stream info all
on_connection_event hs (address_change address) all =
    broadcast hs (λ h s. h.on_connection_event (address_change address) s) all
on_connection_event hs (dial_upgrade_error info error) all = on_upgr_error hs info error all
on_connection_event hs (listen_upgrade_error info error) all =
    on_listen_upgrade_error hs info error all
on_connection_event hs (local_protocols_change protocols) all =
    broadcast hs (λ h s. h.on_connection_event (local_protocols_change protocols) s) all
on_connection_event hs (remote_protocols_change protocols) all =
    broadcast hs (λ h s. h.on_connection_event (remote_protocols_change protocols) s) all
on_connection_event hs uncovered all = panicked
