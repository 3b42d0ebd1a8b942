-- ===== src/Book/Fill/Index.antt =====
-- The inner loop of `submit` keeps the cancel map in step with the queue.
use mini_hft_system.Prelude.{
  suc, ◌≡◌, ◌∙◌, refl, sym, ap, List, [], ◌∷◌, ◌++◌, none, min, inl, inr, true, false, length, All,
  subst, Bool-cases, ◌==◌, Bool, subst₂,
}
use mini_hft_system.Prelude.Loops.{while_keeps}
use mini_hft_system.Prelude.Dict
use mini_hft_system.Prelude.Tests.{nat_eq}
use mini_hft_system.Types.{OrderSide, OrderId, Symbol}
use mini_hft_system.Order.{Order, remaining_quantity, price_of}
use mini_hft_system.Book.Fill.{
  Filling, Readings, fill_front, fill_one, fill_test, fill_level, fill_orders,
}
use mini_hft_system.Book.Sweep.{fill_by}
use mini_hft_system.Book.Index.{Known, Distinct, Known-del, Known-apart, get-del_none}
use mini_hft_system.Book.Sides.{opposite}
use mini_hft_system.Book.Withdraw.{Other}

-- The maker after a fill, and whether that is its last.
abbrev filled_maker : Filling → Order → Order
filled_maker s r = fill_by (min (remaining_quantity s.order) (remaining_quantity r)) r

abbrev uses_up : Filling → Order → Bool
uses_up s r = remaining_quantity (filled_maker s r) == 0

module _ (env : Readings) (name : Symbol) (s : Filling) (r : Order) (rs : List Order) where
  front_gone :
      uses_up s r ≡ true
      → let t = fill_front env name s r rs in
        (t.level.orders ≡ rs) × (t.cancel_map ≡ Dict.del r.order_id s.cancel_map)
  unfolding fill_front
  front_gone g = (rw g, rw g)

  front_stays :
      uses_up s r ≡ false
      → let t = fill_front env name s r rs in
        (t.level.orders ≡ filled_maker s r ∷ rs) × (t.cancel_map ≡ s.cancel_map)
  unfolding fill_front
  front_stays g = (rw g, rw g)

module _ (env : Readings) (name : Symbol) (side : OrderSide) (behind own : List Order)
    (i : OrderId) where
  pub record Tracks (s : Filling) : Type 0 where
    pub theirs : Known side s.cancel_map (s.level.orders ++ behind)
    pub ours : Known (opposite side) s.cancel_map own
    pub distinct : Distinct (s.level.orders ++ behind)
    pub fresh : Dict.get i s.cancel_map ≡ none

  module _ (s : Filling) (r : Order) (rs : List Order) (e : s.level.orders ≡ r ∷ rs)
      (f : Tracks s) where
    theirs : Known side s.cancel_map (r ∷ (rs ++ behind))
    theirs = subst (λ q. Known side s.cancel_map (q ++ behind)) e f.theirs

    distinct : Distinct (r ∷ (rs ++ behind))
    distinct = subst (λ q. Distinct (q ++ behind)) e f.distinct

    -- The maker is used up: its order and its entry go together.
    popped :
        (s' : Filling)
        → s'.level.orders ≡ rs
        → s'.cancel_map ≡ Dict.del r.order_id s.cancel_map
        → Tracks s'
    popped s' g h = record {
      theirs =
          rw (g, h) (Known-del side r.order_id s.cancel_map (rs ++ behind) distinct.0 theirs.1);
      ours = rw h (
          Known-del (opposite side) r.order_id s.cancel_map own
            (Known-apart side r.order_id (price_of r) s.cancel_map own theirs.0 f.ours) f.ours);
      distinct = rw g distinct.1;
      fresh = rw h (get-del_none i r.order_id s.cancel_map f.fresh);
    }

    -- The maker stays at the front.
    kept :
        (s' : Filling) (r' : Order)
        → s'.level.orders ≡ r' ∷ rs
        → s'.cancel_map ≡ s.cancel_map
        → r'.order_id ≡ r.order_id
        → price_of r' ≡ price_of r
        → Tracks s'
    kept s' r' g h same price = record {
      theirs =
          subst₂ (λ q cm. Known side cm (q ++ behind)) (sym g) (sym h)
            (ap (λ j. Dict.get j s.cancel_map) same ∙ rw price theirs.0, theirs.1);
      ours = rw h f.ours;
      distinct = rw g (subst (λ j. All (Other j) (rs ++ behind)) (sym same) distinct.0, distinct.1);
      fresh = rw h f.fresh;
    }

    fill_front-Tracks : Tracks (fill_front env name s r rs)
    fill_front-Tracks =
        let t = fill_front env name s r rs in
        elim (Bool-cases (uses_up s r)) [
          | inl g ↦ popped t (front_gone env name s r rs g).0 (front_gone env name s r rs g).1
          | inr g ↦
              let stays = front_stays env name s r rs g in
              kept t (filled_maker s r) stays.0 stays.1 refl refl
        ]

  fill_one-Tracks :
      (s : Filling) (q : List Order)
      → s.level.orders ≡ q
      → Tracks s
      → Tracks (fill_orders env name s q)
  fill_one-Tracks s [] e f = f
  fill_one-Tracks s (r ∷ rs) e f = fill_front-Tracks s r rs e f

  pub fill_level-Tracks : (s : Filling) → Tracks s → Tracks (fill_level env name s)
  unfolding fill_level fill_one
  fill_level-Tracks s f =
      while_keeps Tracks fill_test (fill_one env name) (λ t. fill_one-Tracks t t.level.orders refl)
        (suc (suc (length s.level.orders))) s f
