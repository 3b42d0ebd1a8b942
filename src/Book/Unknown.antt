-- ===== src/Book/Unknown.antt =====
-- The operations of engine/core/order_book.py put no id but the incoming order's into the cancel map.
use mini_hft_system.Prelude.{
  ◌≡◌, ◌≢◌, ◌∙◌, sym, ap, Option, none, some, Bool, true, false, inl, inr, Option-cases,
}
use mini_hft_system.Prelude.Dict
use mini_hft_system.Prelude.Tests.{nat_eq}
use mini_hft_system.Types.{OrderSide, OrderId, Price, TimeInForce, gtc, gtd, ioc, fok}
use mini_hft_system.Order.{Order}
use mini_hft_system.Book.{
  Book, submit, cancel, cancel_at, cancel_entry, finish, residual, apply_tif, rest_order,
  rest_priced, opened, has_residual, side_book,
}
use mini_hft_system.Book.Fill.{Readings, CancelMap}
use mini_hft_system.Book.Index.{get-del_none}
use mini_hft_system.Book.Level.{PriceLevel}
use mini_hft_system.Book.Prices.{SortedDict}
use mini_hft_system.Book.Residual.{cancel_map-rest_at, opened_same}
use mini_hft_system.Book.Sides.{key_order}
use mini_hft_system.Book.State.{IsBook, cancel_map-with_side}
use mini_hft_system.Book.Submit.{
  IsSubmittable, matched-Indexed, settled, settled_facts, after, cancel_map-after,
}

abbrev Unknown : OrderId → CancelMap → Type 0
Unknown i cm = Dict.get i cm ≡ none

module _ (S : SortedDict PriceLevel) (i : OrderId) where
  rest-Unknown :
      (b : Book S) (o : Order) (p : Option Price)
      → o.order_id ≢ i
      → Unknown i b.cancel_map
      → Unknown i (rest_priced S b o p).0.cancel_map
  rest-Unknown b o none d h = h
  rest-Unknown b o (some p) d h =
      ap (Dict.get i) (cancel_map-rest_at S b (opened o) p)
      ∙ Dict.get-put_ne (opened o).order_id i ((opened o).side, p) b.cancel_map
          (λ e. d (sym (opened_same S b o p).2 ∙ e))
      ∙ h

  tif-Unknown :
      (b : Book S) (o : Order) (t : TimeInForce)
      → o.order_id ≢ i
      → Unknown i b.cancel_map
      → Unknown i (apply_tif S b o t).0.cancel_map
  unfolding apply_tif rest_order
  tif-Unknown b o gtc d h = rest-Unknown b o o.price d h
  tif-Unknown b o gtd d h = rest-Unknown b o o.price d h
  tif-Unknown b o ioc d h = h
  tif-Unknown b o fok d h = h

  residual-Unknown :
      (b : Book S) (o : Order) (t : Bool)
      → o.order_id ≢ i
      → Unknown i b.cancel_map
      → Unknown i (residual S b o t).0.cancel_map
  residual-Unknown b o false d h = h
  residual-Unknown b o true d h = tif-Unknown b o o.time_in_force d h

  pub submit-Unknown :
      (env : Readings) (b : Book S) (o : Order)
      → IsBook S b
      → IsSubmittable S b o
      → o.order_id ≢ i
      → Dict.get i b.cancel_map ≡ none
      → Dict.get i (submit S env b o).book.cancel_map ≡ none
  unfolding submit finish
  submit-Unknown env b o v w d h =
      let t = settled S env b o in
      residual-Unknown (after S env b o) t (has_residual S t)
        (λ e. d (sym (settled_facts S env b o v w).2 ∙ e))
        (ap (Dict.get i) (cancel_map-after S env b o) ∙ (matched-Indexed S env b o i v h).fresh)

  entry-Unknown :
      (b : Book S) (j : OrderId) (e : OrderSide × Price)
      → Unknown i b.cancel_map
      → Unknown i (cancel_entry S b j e).1.cancel_map
  unfolding cancel_entry cancel_at
  entry-Unknown b j (s, p) h = elim (Option-cases (S.get (key_order s) p (side_book S s b))) [
    | inl g ↦ rw (g, cancel_entry) h
    | inr (l, g) ↦ rw (g, cancel_entry) (ap (Dict.get i) (cancel_map-with_side S s b _) ∙ h)
  ]

  pub cancel-Unknown :
      (b : Book S) (j : OrderId)
      → Dict.get i b.cancel_map ≡ none
      → Dict.get i (cancel S b j).1.cancel_map ≡ none
  unfolding cancel
  cancel-Unknown b j h = elim (Option-cases (Dict.get j b.cancel_map)) [
    | inl g ↦ rw (g, cancel) h
    | inr (e, g) ↦ rw (g, cancel) (entry-Unknown _ j e (get-del_none i j b.cancel_map h))
  ]
