-- ===== src/Book/Match/Index.antt =====
-- The outer loop of `submit` keeps the cancel map in step with the opposite side.
use mini_hft_system.Prelude.{ℕ, suc, ◌≡◌, ◌∙◌, refl, List, [], ◌∷◌, none, some, length, subst}
use mini_hft_system.Prelude.Loops.{while_keeps}
use mini_hft_system.Prelude.Dict
use mini_hft_system.Prelude.Tests.{nat_eq}
use mini_hft_system.Types.{OrderSide, OrderId, Price, Symbol}
use mini_hft_system.Order.{Order}
use mini_hft_system.Book.Level.{PriceLevel}
use mini_hft_system.Book.Prices.{SortedDict, KeyOrder}
use mini_hft_system.Book.Fill.{Filling, Readings, fill_level}
use mini_hft_system.Book.Fill.Index.{Tracks, fill_level-Tracks}
use mini_hft_system.Book.Match.{Matching, match_test, match_one, match_all, enter, leave}
use mini_hft_system.Book.Match.Refine.{queue-leave}
use mini_hft_system.Book.Index.{Known, Distinct}
use mini_hft_system.Book.Sides.{queue, opposite}

module _ (S : SortedDict PriceLevel) (k : KeyOrder) (env : Readings) (name : Symbol)
    (side : OrderSide) (own : List Order) (i : OrderId) where
  open S use {items, peekitem, peekitem_lem}

  pub record Indexed (m : Matching S k) : Type 0 where
    pub theirs : Known side m.cancel_map (queue (items k m.opposite))
    pub ours : Known (opposite side) m.cancel_map own
    pub distinct : Distinct (queue (items k m.opposite))
    pub fresh : Dict.get i m.cancel_map ≡ none

  entered :
      (m : Matching S k) (best : Price) (l : PriceLevel) (rest : List (ℕ × PriceLevel))
      → items k m.opposite ≡ (best, l) ∷ rest
      → Indexed m
      → Tracks env name side (queue rest) own i (enter S k env name m l)
  unfolding enter
  entered m best l rest e f = record {
    theirs = subst (λ q. Known side m.cancel_map (queue q)) e f.theirs;
    ours = f.ours;
    distinct = subst (λ q. Distinct (queue q)) e f.distinct;
    fresh = f.fresh;
  }

  left :
      (m : Matching S k) (best : Price) (l : PriceLevel) (rest : List (ℕ × PriceLevel))
      (s : Filling)
      → items k m.opposite ≡ (best, l) ∷ rest
      → Tracks env name side (queue rest) own i s
      → Indexed (leave S k env name m best s)
  unfolding leave
  left m best l rest s e t = record {
    theirs = rw (queue-leave S k env name m best l rest s e) t.theirs;
    ours = t.ours;
    distinct = rw (queue-leave S k env name m best l rest s e) t.distinct;
    fresh = t.fresh;
  }

  match_one_cases :
      (m : Matching S k) (q : List (ℕ × PriceLevel))
      → items k m.opposite ≡ q
      → Indexed m
      → Indexed (match_one S k env name m)
  unfolding match_one
  match_one_cases m [] e f =
      let first : peekitem k m.opposite ≡ none = peekitem_lem k m.opposite ∙ rw e refl in
      rw (first, match_one) f
  match_one_cases m ((best, l) ∷ rest) e f =
      let first : peekitem k m.opposite ≡ some (best, l) = peekitem_lem k m.opposite ∙ rw e refl in
      let s = fill_level env name (enter S k env name m l) in
      rw (first, match_one)
        (left m best l rest s e
          (fill_level-Tracks env name side (queue rest) own i _ (entered m best l rest e f)))

  pub match_all-Indexed : (m : Matching S k) → Indexed m → Indexed (match_all S k env name m)
  unfolding match_all
  match_all-Indexed m f =
      while_keeps Indexed (match_test S k) (match_one S k env name)
        (λ t. match_one_cases t (items k t.opposite) refl) (suc (suc (length (items k m.opposite))))
        m f
