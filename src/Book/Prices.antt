-- ===== src/Book/Prices.antt =====
-- What engine/core/order_book.py uses of `sortedcontainers.SortedDict`, which is not code of the
-- repository: the operations, and their documented behaviour on the list of items in key order.
use mini_hft_system.Prelude.{
  ℕ, ◌≡◌, refl, List, [], ◌∷◌, Option, none, some, Bool, ltb, ◌==◌, if◌then◌else◌,
}

-- `SortedDict()` and `SortedDict(lambda k: -k)`.
pub data KeyOrder : Type 0 where
  ascending negated : KeyOrder

abbrev pub before : KeyOrder → ℕ → ℕ → Bool
before ascending a b = ltb a b
before negated a b = ltb b a

module _ {V : Type 0} where
  unfoldable pub lookup : ℕ → List (ℕ × V) → Option V
  lookup k [] = none
  lookup k ((j, v) ∷ m) = if j == k then some v else lookup k m

  unfoldable pub upsert : KeyOrder → ℕ → V → List (ℕ × V) → List (ℕ × V)
  upsert o k v [] = (k, v) ∷ []
  upsert o k v ((j, w) ∷ m) =
      if j == k
      then (k, v) ∷ m
      else if before o k j
      then (k, v) ∷ (j, w) ∷ m
      else (j, w) ∷ upsert o k v m

  unfoldable pub erase : ℕ → List (ℕ × V) → List (ℕ × V)
  erase k [] = []
  erase k ((j, w) ∷ m) = if j == k then m else (j, w) ∷ erase k m

  abbrev pub head? : List (ℕ × V) → Option (ℕ × V)
  head? [] = none
  head? (b ∷ m) = some b

pub record SortedDict (V : Type 0) : Type 1 where
  pub Table : KeyOrder → Type 0
  pub empty : (o : KeyOrder) → Table o
  -- `d.items()`
  pub items : (o : KeyOrder) → Table o → List (ℕ × V)
  -- `d[k]` where `k in d`
  pub get : (o : KeyOrder) → ℕ → Table o → Option V
  -- `d[k] = v`
  pub set : (o : KeyOrder) → ℕ → V → Table o → Table o
  -- `del d[k]`
  pub del : (o : KeyOrder) → ℕ → Table o → Table o
  -- `d.peekitem(0)` where `d` is not empty
  pub peekitem : (o : KeyOrder) → Table o → Option (ℕ × V)
  pub items-empty : (o : KeyOrder) → items o (empty o) ≡ []
  pub items-set :
      (o : KeyOrder) (k : ℕ) (v : V) (d : Table o)
      → items o (set o k v d) ≡ upsert o k v (items o d)
  pub items-del : (o : KeyOrder) (k : ℕ) (d : Table o) → items o (del o k d) ≡ erase k (items o d)
  pub get_lem : (o : KeyOrder) (k : ℕ) (d : Table o) → get o k d ≡ lookup k (items o d)
  pub peekitem_lem : (o : KeyOrder) (d : Table o) → peekitem o d ≡ head? (items o d)

-- The list of items itself is such a dictionary.
abbrev pub item_list : (V : Type 0) → SortedDict V
item_list V = record {
  Table = λ o. List (ℕ × V);
  empty = λ o. [];
  items = λ o d. d;
  get = λ o k d. lookup k d;
  set = λ o k v d. upsert o k v d;
  del = λ o k d. erase k d;
  peekitem = λ o d. head? d;
  items-empty = λ o. refl;
  items-set = λ o k v d. refl;
  items-del = λ o k d. refl;
  get_lem = λ o k d. refl;
  peekitem_lem = λ o d. refl;
}
