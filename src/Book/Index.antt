-- ===== src/Book/Index.antt =====
-- The cancel map of engine/core/order_book.py against the resting orders: each of them is found
-- there, under its own id, with its side and price.
use mini_hft_system.Prelude.{
  ◌≡◌, ◌≢◌, sym, ap, ◌∙◌, List, [], ◌∷◌, Option, none, some, inl, inr, All, All-imp, All-imp₂,
  arith, Bool-cases, ◌==◌, subst,
}
use mini_hft_system.Prelude.Dict
use mini_hft_system.Prelude.Tests.{nat_eq}
use mini_hft_system.Types.{OrderSide, buy, sell, OrderId, Price}
use mini_hft_system.Order.{Order, price_of}
use mini_hft_system.Book.Fill.{CancelMap}
use mini_hft_system.Book.Level.{delete}
use mini_hft_system.Book.Prices.{KeyOrder, before}
use mini_hft_system.Book.Sides.{opposite}
use mini_hft_system.Book.Rest.{enqueue}
use mini_hft_system.Book.Withdraw.{Other, Only, delete-All}

abbrev pub KnownAt : OrderSide → CancelMap → Order → Type 0
KnownAt side cm o = Dict.get o.order_id cm ≡ some (side, price_of o)

abbrev pub Known : OrderSide → CancelMap → List Order → Type 0
Known side cm = All (KnownAt side cm)

-- No id occurs twice in a queue.
abbrev pub Distinct : List Order → Type 0
Distinct [] = Unit {0}
Distinct (o ∷ os) = All (Other o.order_id) os × Distinct os

pub Known-del :
    (side : OrderSide) (i : OrderId) (cm : CancelMap) (q : List Order)
    → All (Other i) q
    → Known side cm q
    → Known side (Dict.del i cm) q
Known-del side i cm q =
    All-imp₂ (Other i) (KnownAt side cm) (KnownAt side (Dict.del i cm)) q
      λ o d h. Dict.get-del_ne i o.order_id cm (λ e. d (sym e)) ∙ h

pub Known-put :
    (side : OrderSide) (i : OrderId) (v : OrderSide × Price) (cm : CancelMap) (q : List Order)
    → All (Other i) q
    → Known side cm q
    → Known side (Dict.put i v cm) q
Known-put side i v cm q =
    All-imp₂ (Other i) (KnownAt side cm) (KnownAt side (Dict.put i v cm)) q
      λ o d h. Dict.get-put_ne i o.order_id v cm (λ e. d (sym e)) ∙ h

abbrev entry : OrderSide → Price → Option (OrderSide × Price)
entry s p = some (s, p)

some_side : (s : OrderSide) (p q : Price) → entry (opposite s) p ≢ entry s q
some_side buy p q e = cc
some_side sell p q e = cc

-- An id that is known on one side is not one of the other side's.
pub Known-apart :
    (side : OrderSide) (i : OrderId) (p : Price) (cm : CancelMap) (q : List Order)
    → Dict.get i cm ≡ some (side, p)
    → Known (opposite side) cm q
    → All (Other i) q
Known-apart side i p cm q e =
    All-imp (KnownAt (opposite side) cm) (Other i) q
      λ o h d. some_side side (price_of o) p (sym h ∙ ap (λ j. Dict.get j cm) d ∙ e)

-- An id that is not known is none of the resting orders'.
pub Known-fresh :
    (side : OrderSide) (i : OrderId) (cm : CancelMap) (q : List Order)
    → Dict.get i cm ≡ none
    → Known side cm q
    → All (Other i) q
Known-fresh side i cm q e = All-imp (KnownAt side cm) (Other i) q λ o h d.
    absurd
      (let c : none ≡ some (side, price_of o) = sym e ∙ ap (λ j. Dict.get j cm) (sym d) ∙ h in cc)

-- A known id stands at its price only.
pub Known-Only :
    (side : OrderSide) (i : OrderId) (p : Price) (cm : CancelMap) (q : List Order)
    → Dict.get i cm ≡ some (side, p)
    → Known side cm q
    → All (Only i p) q
Known-Only side i p cm q e = All-imp (KnownAt side cm) (Only i p) q at_p
  where
    at_p : (o : Order) → KnownAt side cm o → Only i p o
    at_p o h = ground (arith, e, h)

pub get-del_none :
    (i j : OrderId) (cm : CancelMap) → Dict.get i cm ≡ none → Dict.get i (Dict.del j cm) ≡ none
get-del_none i j cm h = elim (Bool-cases (i == j)) [
  | inl e ↦ let same : j ≡ i = ground arith in rw same (Dict.get-del_self i cm)
  | inr e ↦ Dict.get-del_ne j i cm (ground arith) ∙ h
]

module _ (k : KeyOrder) (p : Price) (o : Order) where
  pub enqueue-All {κ} :
      (P : Order → Type κ) (q : List Order) → P o → All P q → All P (enqueue k p o q)
  unfolding enqueue
  enqueue-All P [] h a = (h, tt)
  enqueue-All P (r ∷ rs) h a = elim (Bool-cases (before k p (price_of r))) [
    | inl e ↦ rw e (h, a)
    | inr e ↦ rw e (a.0, enqueue-All P rs h a.1)
  ]

  pub enqueue-Distinct :
      (q : List Order) → All (Other o.order_id) q → Distinct q → Distinct (enqueue k p o q)
  unfolding enqueue
  enqueue-Distinct [] a d = (tt, tt)
  enqueue-Distinct (r ∷ rs) a d = elim (Bool-cases (before k p (price_of r))) [
    | inl e ↦ rw e (a, d)
    | inr e ↦
        rw e (enqueue-All (Other r.order_id) rs (λ c. a.0 (sym c)) d.0, enqueue-Distinct rs a.1 d.1)
  ]

pub delete-Distinct : (i : OrderId) (q : List Order) → Distinct q → Distinct (delete i q)
unfolding delete
delete-Distinct i [] d = tt
delete-Distinct i (o ∷ os) d = elim (Bool-cases (o.order_id == i)) [
  | inl e ↦ rw e d.1
  | inr e ↦ rw e (delete-All i (Other o.order_id) os d.0, delete-Distinct i os d.1)
]

-- Once an order is deleted, no other has its id.
pub delete-Other : (i : OrderId) (q : List Order) → Distinct q → All (Other i) (delete i q)
unfolding delete
delete-Other i [] d = tt
delete-Other i (o ∷ os) d = elim (Bool-cases (o.order_id == i)) [
  | inl e ↦
      let same : o.order_id ≡ i = ground arith in rw e (subst (λ j. All (Other j) os) same d.0)
  | inr e ↦ rw e (ground arith, delete-Other i os d.1)
]
