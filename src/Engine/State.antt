-- ===== src/Engine/State.antt =====
-- The invariant of `MatchingEngine` (engine/core/matching_engine.py) between two calls.
use mini_hft_system.Prelude.{
  ◌+◌, ◌≡◌, ◌≢◌, ◌∙◌, refl, sym, ap, List, [], ◌∷◌, none, some, Bool, inl, inr, All, All-imp,
  length, arith, Option-cases,
}
use mini_hft_system.Prelude.Dict
use mini_hft_system.Prelude.Tests.{nat_eq, text_eq}
use mini_hft_system.Types.{OrderId, Symbol}
use mini_hft_system.Order.{Order}
use mini_hft_system.Book.{Book, new_book}
use mini_hft_system.Book.Fill.{CancelMap}
use mini_hft_system.Book.History.{new_book-IsBook}
use mini_hft_system.Book.Level.{PriceLevel}
use mini_hft_system.Book.Prices.{SortedDict}
use mini_hft_system.Book.State.{IsBook}
use mini_hft_system.Engine.{Engine, new_engine, register_symbol, write_back, refill}

abbrev pub OrderMap : Type 0
OrderMap = List (OrderId × Order)

-- What can be cancelled is in the order map.
abbrev pub Covered : OrderMap → CancelMap → Type 0
Covered m cm = (i : OrderId) → Dict.get i m ≡ none → Dict.get i cm ≡ none

pub record IsEngineBook (S : SortedDict PriceLevel) (m : OrderMap) (b : Book S) : Type 0 where
  pub valid : IsBook S b
  pub covered : Covered m b.cancel_map

pub record IsEngine (S : SortedDict PriceLevel) (e : Engine S) : Type 0 where
  pub books : All (λ x. IsEngineBook S e.order_map x.1) e.books
  -- Every order received is rejected, or is in the order map.
  pub counted : e.stats.orders_received ≡ e.stats.orders_rejected + length e.order_map

-- A larger order map still covers.
pub books_mono :
    (S : SortedDict PriceLevel) (m m' : OrderMap) (bs : List (Symbol × Book S))
    → ((i : OrderId) → Dict.get i m' ≡ none → Dict.get i m ≡ none)
    → All (λ x. IsEngineBook S m x.1) bs
    → All (λ x. IsEngineBook S m' x.1) bs
books_mono S m m' bs f =
    All-imp (λ (x : Symbol × Book S). IsEngineBook S m x.1) (λ x. IsEngineBook S m' x.1) bs
      λ x v. record { valid = v.valid; covered = λ i h. v.covered i (f i h) }

-- The fills of the makers are written to entries that are there already.
pub write_back-none :
    (ms : List Order) (m : OrderMap) (i : OrderId)
    → Dict.get i (write_back ms m) ≡ none
    → Dict.get i m ≡ none
unfolding write_back
write_back-none [] m i h = h
write_back-none (x ∷ ms) m i h = elim (Option-cases (Dict.get x.order_id m)) [
  | inl e ↦ write_back-none ms m i (rw e at h)
  | inr (o, e) ↦
      (Dict.get-put-none x.order_id i (refill x o) m
        (write_back-none ms (Dict.put x.order_id (refill x o) m) i (rw e at h))).1
]

pub write_back-new :
    (ms : List Order) (m : OrderMap) (i : OrderId)
    → Dict.get i m ≡ none
    → Dict.get i (write_back ms m) ≡ none
unfolding write_back
write_back-new [] m i h = h
write_back-new (x ∷ ms) m i h = elim (Option-cases (Dict.get x.order_id m)) [
  | inl e ↦ rw e (write_back-new ms m i h)
  | inr (o, e) ↦ rw e (
      write_back-new ms (Dict.put x.order_id (refill x o) m) i
        (Dict.get-put_ne x.order_id i (refill x o) m (held x o e) ∙ h))
]
  where
    held : (y : Order) (o : Order) → Dict.get y.order_id m ≡ some o → y.order_id ≢ i
    held y o e d = let c : none ≡ some o = sym h ∙ ap (λ j. Dict.get j m) (sym d) ∙ e in cc

pub length-write_back : (ms : List Order) (m : OrderMap) → length (write_back ms m) ≡ length m
unfolding write_back
length-write_back [] m = refl
length-write_back (x ∷ ms) m = elim (Option-cases (Dict.get x.order_id m)) [
  | inl e ↦ rw e (length-write_back ms m)
  | inr (o, e) ↦ rw e (
      length-write_back ms (Dict.put x.order_id (refill x o) m)
      ∙ Dict.length-put_old x.order_id (refill x o) o m e)
]

module _ (S : SortedDict PriceLevel) where
  pub new_engine-IsEngine : (l : Bool) → IsEngine S (new_engine S l)
  unfolding new_engine
  new_engine-IsEngine l = record { books = tt; counted = omega arith }

  new_book-Unknown : (i : OrderId) (name : Symbol) → Dict.get i (new_book S name).cancel_map ≡ none
  unfolding new_book Dict.get
  new_book-Unknown i name = refl

  -- Registering a symbol keeps the invariant; a symbol that is registered already keeps its book.
  pub register_symbol-IsEngine :
      (e : Engine S) (name : Symbol) → IsEngine S e → IsEngine S (register_symbol S e name)
  unfolding register_symbol
  register_symbol-IsEngine e name v = elim (Option-cases (Dict.get name e.books)) [
    | inl g ↦
        rw (g, register_symbol)
          (record {
            books =
                Dict.put-All (IsEngineBook S e.order_map) name (new_book S name) e.books
                  (record {
                    valid = new_book-IsBook S name;
                    covered = λ i h. new_book-Unknown i name;
                  })
                  v.books;
            counted = v.counted;
          })
    | inr (b, g) ↦ rw (g, register_symbol) v
  ]
