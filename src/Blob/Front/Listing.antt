-- ===== src/Blob/Front/Listing.antt =====
-- The listing of sends by the command line, `handle_blob` of
-- owlnest/src/net/p2p/protocols/blob.rs, with the behaviour's answer that it shows. How the table is
-- printed is left out.
use owl_nest.Base.{ℕ, ◌≡◌, refl, ◌∙◌, ap, not, List, [], ◌∷◌, ◌++◌, map, select, nat_key}
use owl_nest.Base.Table.{bindings}
use owl_nest.Blob.Types.{Callback, SendInfo, sends, World, done, InEvent}
use owl_nest.Blob.State.{
  Behaviour, PendingSend, OngoingFileSend, reply, pending_send_info, ongoing_send_info,
}
use owl_nest.Blob.Behaviour.{push_event}

-- The columns "Pending Send" and "Ongoing Send".
unfoldable pub handle_list_send : List SendInfo → List SendInfo × List SendInfo
handle_list_send list = (select (λ v. not v.started) list, select (λ v. not v.started) list)

select-ongoing :
    (xs : List (ℕ × OngoingFileSend)) (ys : List SendInfo)
    → select (λ v. not v.started) (map (λ e. ongoing_send_info e.1) xs ++ ys)
      ≡ select (λ v. not v.started) ys
unfolding select ongoing_send_info
select-ongoing [] ys = refl
select-ongoing (x ∷ xs) ys = select-ongoing xs ys

select-pending :
    (xs : List (ℕ × PendingSend))
    → select (λ v. not v.started) (map (λ e. pending_send_info e.1) xs)
      ≡ map (λ e. pending_send_info e.1) xs
unfolding select pending_send_info
select-pending [] = refl
select-pending ((k, x) ∷ xs) = ap (◌∷◌ (pending_send_info x)) (select-pending xs)

-- Both columns show the pending sends, and no send that is under way is shown in either.
pub handle_list_send-columns :
    (w : World) (b : Behaviour) (callback : Callback)
    → (list : List SendInfo) × (push_event w b (InEvent.list_send callback)
        ≡ done (reply b (sends callback list)))
      × (handle_list_send list ≡ (
        map (λ e. pending_send_info e.1) (bindings b.pending_send),
        map (λ e. pending_send_info e.1) (bindings b.pending_send),
      ))
unfolding push_event handle_list_send
handle_list_send-columns w b callback =
    let shown =
      select-ongoing (bindings b.ongoing_send)
        (map (λ e. pending_send_info e.1) (bindings b.pending_send))
      ∙ select-pending (bindings b.pending_send) in
    (
      map (λ e. ongoing_send_info e.1) (bindings b.ongoing_send)
          ++ map (λ e. pending_send_info e.1) (bindings b.pending_send),
      refl,
      rw shown refl,
    )
