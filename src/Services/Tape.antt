-- ===== src/Services/Tape.antt =====
-- `TradeTapeService` of api/services/trade_tape_service.py: the latest trades of each symbol.
use mini_hft_system.Prelude.{
  ℕ, zero, suc, ◌≡◌, ◌≢◌, ◌∙◌, refl, sym, ap, List, [], ◌∷◌, Option, none, some, true, false, take,
  min, if◌then◌else◌, Bool-cases, inl, inr, arith,
}
use mini_hft_system.Prelude.Dict
use mini_hft_system.Prelude.Tests.{text_eq, text_beq, text_beq_iff}
use mini_hft_system.Types.{Symbol}
use mini_hft_system.Order.{Trade}

abbrev pub Tape : Type 0
Tape = List (Symbol × List Trade)

-- `defaultdict`: a missing symbol has an empty deque.
abbrev pub deque_or_empty : Option (List Trade) → List Trade
deque_or_empty none = []
deque_or_empty (some ts) = ts

abbrev pub deque_of : Tape → Symbol → List Trade
deque_of m s = deque_or_empty (Dict.get s m)

-- `appendleft` on a deque with a largest length drops the oldest trade.
unfoldable pub record_trade : ℕ → Tape → Trade → Tape
record_trade max_trades m t = Dict.put t.symbol (take max_trades (t ∷ deque_of m t.symbol)) m

-- A query makes the empty deque of a symbol that it does not find. `upper` is `str.upper`.
unfoldable pub recent : (Symbol → Symbol) → Tape → Symbol → ℕ → List Trade × Tape
recent upper m s limit =
    (take limit (deque_of m (upper s)), Dict.put (upper s) (deque_of m (upper s)) m)

-- All trades that were recorded, newest first.
unfoldable pub record_all : ℕ → List Trade → Tape
record_all max_trades [] = []
record_all max_trades (t ∷ older) = record_trade max_trades (record_all max_trades older) t

abbrev pub trades_of : Symbol → List Trade → List Trade
trades_of s [] = []
trades_of s (t ∷ older) =
    let rest = trades_of s older in if text_beq t.symbol s then t ∷ rest else rest

take-take : (m n : ℕ) (xs : List Trade) → take m (take n xs) ≡ take (min m n) xs
take-take zero n xs = let e : 0 ≡ min 0 n = omega arith in ap (λ k. take k xs) e
take-take (suc m) zero xs = let e : 0 ≡ min (suc m) 0 = omega arith in ap (λ k. take k xs) e
take-take (suc m) (suc n) [] =
    let e : suc (min m n) ≡ min (suc m) (suc n) = omega arith in ap (λ k. take {A = Trade} k []) e
take-take (suc m) (suc n) (x ∷ xs) =
    let e : suc (min m n) ≡ min (suc m) (suc n) = omega arith in
    ap (◌∷◌ x) (take-take m n xs) ∙ ap (λ k. take k (x ∷ xs)) e

-- A window of a list whose tail was cut already.
take-cut : (n : ℕ) (x : Trade) (xs : List Trade) → take n (x ∷ take n xs) ≡ take n (x ∷ xs)
take-cut zero x xs = refl
take-cut (suc n) x xs =
    let e : min n (suc n) ≡ n = omega arith in
    ap (◌∷◌ x) (take-take n (suc n) xs ∙ ap (λ k. take k xs) e)

deque_lem :
    (n : ℕ) (s : Symbol) (ts : List Trade) → deque_of (record_all n ts) s ≡ take n (trades_of s ts)
unfolding record_all record_trade Dict.get
deque_lem zero s [] = refl
deque_lem (suc n) s [] = refl
deque_lem n s (t ∷ older) = elim (Bool-cases (text_beq t.symbol s)) [
  | inl e ↦
      let same : t.symbol ≡ s = (text_beq_iff t.symbol s).0 e in
      let m = record_all n older in
      ap (λ k. deque_of (Dict.put t.symbol (take n (t ∷ deque_of m t.symbol)) m) k) (sym same)
      ∙ ap deque_or_empty (Dict.get-put_self t.symbol (take n (t ∷ deque_of m t.symbol)) m)
      ∙ ap (λ k. take n (t ∷ deque_of m k)) same
      ∙ ap (λ xs. take n (t ∷ xs)) (deque_lem n s older)
      ∙ take-cut n t (trades_of s older)
      ∙ rw e refl
  | inr e ↦
      let apart : t.symbol ≢ s =
        λ h. let c : true ≡ false = sym ((text_beq_iff t.symbol s).1 h) ∙ e in cc in
      let m = record_all n older in
      ap deque_or_empty (Dict.get-put_ne t.symbol s (take n (t ∷ deque_of m t.symbol)) m apart)
      ∙ deque_lem n s older
      ∙ rw e refl
]

-- After any sequence of trades, a query gets the newest trades of the symbol, newest first: as many as
-- asked for, or as the tape keeps. It holds of every case conversion.
pub recent-record_all :
    (upper : Symbol → Symbol) (n : ℕ) (ts : List Trade) (s : Symbol) (limit : ℕ)
    → (recent upper (record_all n ts) s limit).0 ≡ take (min limit n) (trades_of (upper s) ts)
unfolding recent
recent-record_all upper n ts s limit =
    ap (take limit) (deque_lem n (upper s) ts) ∙ take-take limit n (trades_of (upper s) ts)
