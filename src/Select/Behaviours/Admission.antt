-- ===== src/Select/Behaviours/Admission.antt =====
-- Which connections the behaviour of the node lets through, with the answers of its protocols:
-- owlnest-macro/src/behaviour_select.rs.
use owl_nest.Base.{◌≡◌, refl, ap, List, [], ◌∷◌, Result, ok, err}
use owl_nest.Select.{Member, here, there, field}
use owl_nest.Select.Behaviours.{
  NetworkBehaviour, Connection, ConnectionDenied, States, Handlers, admitted,
  handle_established_inbound_connection,
}

-- The connection got a handler of each protocol, each given by its own behaviour; or one behaviour has
-- denied it.
abbrev pub Established :
    (bs : List NetworkBehaviour)
    → Connection
    → States bs
    → Result ConnectionDenied (Handlers bs) × States bs
    → Type 1
Established bs connection all (ok handlers, all') =
    (b : NetworkBehaviour) (m : Member b bs)
    → b.established_inbound connection (field NetworkBehaviour.State m all)
      ≡ (ok (field NetworkBehaviour.Handler m handlers), field NetworkBehaviour.State m all')
Established bs connection all (err e, all') =
    (b : NetworkBehaviour) × (m : Member b bs) × ((b.established_inbound connection
        (field NetworkBehaviour.State m all)).0
      ≡ err e)

admitted-Established :
    (b : NetworkBehaviour) (bs : List NetworkBehaviour) (connection : Connection) (s : b.State)
    (rest : States bs) (first : Result ConnectionDenied b.Handler × b.State)
    (others : Result ConnectionDenied (Handlers bs) × States bs)
    → b.established_inbound connection s ≡ first
    → Established bs connection rest others
    → Established (b ∷ bs) connection (s, rest) (admitted (λ x y. (x, y)) first rest others)
admitted-Established b bs connection s rest (err e, s') others asked later =
    (b, here, ap (λ r. r.0) asked)
admitted-Established b bs connection s rest (ok handler, s') (err e, rest') asked later =
    let (c, m, denied) = later in (c, there m, denied)
admitted-Established b bs connection s rest (ok handler, s') (ok handlers, rest') asked later = both
  where
    both :
        (c : NetworkBehaviour) (m : Member c (b ∷ bs))
        → c.established_inbound connection (field NetworkBehaviour.State m (s, rest)) ≡ (
          ok (field NetworkBehaviour.Handler m (handler, handlers)),
          field NetworkBehaviour.State m (s', rest'),
        )
    both c here = asked
    both c (there m) = later c m

-- A connection from outside is let through only if the behaviour of every protocol lets it through, and
-- then has the handler that each of them gave for it, with each behaviour as that left it; it is denied
-- only for the reason of one of them.
pub handle_established_inbound_connection-Established :
    (bs : List NetworkBehaviour) (connection : Connection) (all : States bs)
    → Established bs connection all (handle_established_inbound_connection bs connection all)
unfolding handle_established_inbound_connection
handle_established_inbound_connection-Established [] connection all = λ b m. elim m [ ]
handle_established_inbound_connection-Established (b ∷ bs) connection (s, rest) =
    admitted-Established b bs connection s rest (b.established_inbound connection s)
      (handle_established_inbound_connection bs connection rest) refl
      (handle_established_inbound_connection-Established bs connection rest)
