-- ===== src/Ring/Slices.antt =====
-- What the slice assignment of engine/core/ring_buffer.py does to the slots of the buffer.
use mini_hft_system.Prelude.{
  ℕ, zero, suc, ◌+◌, ◌-◌, ◌*◌, ◌/◌, ◌%◌, ◌≤◌, ◌<◌, ◌≡◌, ◌≢◌, ◌∙◌, refl, ap, sym, List, [], ◌∷◌,
  ◌++◌, length, take, drop, arith, ◌⊎◌, inl, inr, Bool-cases, leb, leb→le,
}
use native.Mathlib.Omega.{div_any}
use native.Mathlib.Nat.{mul-le-mul_left, mul-suc}
use mini_hft_system.Ring.{slice, overwrite}

take-append : (xs ys : List ℕ) (n : ℕ) → length xs ≡ n → take n (xs ++ ys) ≡ xs
take-append [] ys zero h = refl
take-append [] ys (suc n) h = absurd (omega arith)
take-append (x ∷ xs) ys zero h = absurd (omega arith)
take-append (x ∷ xs) ys (suc n) h = ap (◌∷◌ x) (take-append xs ys n (omega arith))

-- Far enough into a join, only its second part is left.
drop-append : (xs ys : List ℕ) (n : ℕ) → length xs ≤ n → drop n (xs ++ ys) ≡ drop (n - length xs) ys
drop-append [] ys n h = ap (λ k. drop k ys) (omega arith)
drop-append (x ∷ xs) ys zero h = absurd (omega arith)
drop-append (x ∷ xs) ys (suc n) h =
    drop-append xs ys n (omega arith) ∙ ap (λ k. drop k ys) (omega arith)

drop_nothing : (n : ℕ) → drop {A = ℕ} n [] ≡ []
drop_nothing zero = refl
drop_nothing (suc n) = refl

drop-drop : (m n : ℕ) (xs : List ℕ) → drop n (drop m xs) ≡ drop (m + n) xs
drop-drop zero n xs = ap (λ k. drop k xs) (omega arith)
drop-drop (suc m) n [] = drop_nothing n ∙ sym (drop_nothing (suc m + n))
drop-drop (suc m) n (x ∷ xs) =
    let e : suc (m + n) ≡ suc m + n = omega arith in drop-drop m n xs ∙ ap (λ k. drop k (x ∷ xs)) e

length-cut : (n : ℕ) (xs : List ℕ) → n ≤ length xs → length (take n xs) ≡ n
length-cut zero xs h = refl
length-cut (suc n) [] h = absurd (omega arith)
length-cut (suc n) (x ∷ xs) h = ap suc (length-cut n xs (omega arith))

-- A slice that ends before the cut does not see what follows it.
slice-before :
    (s n c : ℕ) (b y : List ℕ) → s + n ≤ c → c ≤ length b → slice s n (take c b ++ y) ≡ slice s n b
slice-before zero zero c b y h g = refl
slice-before zero (suc n) zero b y h g = absurd (omega arith)
slice-before zero (suc n) (suc c) [] y h g = absurd (omega arith)
slice-before zero (suc n) (suc c) (x ∷ b) y h g =
    ap (◌∷◌ x) (slice-before zero n c b y (omega arith) (omega arith))
slice-before (suc s) n zero b y h g = absurd (omega arith)
slice-before (suc s) n (suc c) [] y h g = absurd (omega arith)
slice-before (suc s) n (suc c) (x ∷ b) y h g = slice-before s n c b y (omega arith) (omega arith)

module _ (start n : ℕ) (item b : List ℕ) (l : length item ≡ n) (fits : start + n ≤ length b) where
  cut : length (take start b) ≡ start
  cut = length-cut start b (omega arith)

  here : drop start (overwrite start n item b) ≡ item ++ drop (start + n) b
  here =
      let rest = item ++ drop (start + n) b in
      let none_left : start - length (take start b) ≡ 0 = omega (arith, cut) in
      drop-append (take start b) rest start (omega (arith, cut)) ∙ ap (λ k. drop k rest) none_left

  pub slice-overwrite : slice start n (overwrite start n item b) ≡ item
  slice-overwrite = ap (take n) here ∙ take-append item (drop (start + n) b) n l

  later : (s : ℕ) → start + n ≤ s → drop s (overwrite start n item b) ≡ drop s b
  later s h =
      let rest = item ++ drop (start + n) b in
      let first : s - length (take start b) ≡ s - start = omega (arith, cut) in
      let all : start + n + (s - start - length item) ≡ s = omega arith in
      drop-append (take start b) rest s (omega (arith, cut))
      ∙ ap (λ k. drop k rest) first
      ∙ drop-append item (drop (start + n) b) (s - start) (omega arith)
      ∙ drop-drop (start + n) (s - start - length item) b
      ∙ ap (λ k. drop k b) all

  pub slice-apart :
      (s : ℕ)
      → (s + n ≤ start) ⊎ (start + n ≤ s)
      → slice s n (overwrite start n item b) ≡ slice s n b
  slice-apart s (inl h) = slice-before s n start b (item ++ drop (start + n) b) h (omega arith)
  slice-apart s (inr h) = ap (take n) (later s h)

-- Counters less than a round apart stand at different slots.
pub slots_apart : (c i j : ℕ) → i < j → j < i + c → i % c ≢ j % c
slots_apart c i j h g e = elim (Bool-cases (leb (j / c) (i / c))) [
  | inl d ↦
      let few : c * (j / c) ≤ c * (i / c) = mul-le-mul_left c (leb→le (j / c) (i / c) d) in
      absurd (omega (arith, div_any i c, div_any j c))
  | inr d ↦
      let more : c * suc (i / c) ≤ c * (j / c) = mul-le-mul_left c (ground (arith, d)) in
      absurd (omega (arith, div_any i c, div_any j c, mul-suc c (i / c)))
]
