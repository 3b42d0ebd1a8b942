-- ===== src/Strategy/Balance.antt =====
-- One fill of strategy/base.py against the cash that it moves: what is received for sold shares, less what
-- is paid for bought ones.
use mini_hft_system.Prelude.{
  ℕ, zero, suc, ◌+◌, ◌-◌, ◌*◌, ◌<◌, ◌≡◌, refl, ap, min, Bool, true, false, ◌==◌, leb, if◌then◌else◌,
  arith, Bool-cases, inl, inr, subst,
}
use mini_hft_system.Types.{Price, Quantity}
use mini_hft_system.Order.{Ratio}
use mini_hft_system.Strategy.Ledger.{
  ℤ, pos, negsuc, magnitude, shift, Amount, add, whole, difference_times, adds, average, closing,
  left_average,
}

-- The amount `(u - v) / w`, less the cost of `k` shares at `n / d` each, is `got - paid`.
abbrev pub Held : ℕ → Ratio → ℕ → ℕ → ℕ → ℕ → ℕ → Type 0
Held k a u v w got paid =
    u * a.denominator + paid * (w * a.denominator)
    ≡ v * a.denominator + k * a.numerator * w + got * (w * a.denominator)

-- The same for a long and for a short position.
abbrev pub Balance : ℤ → Ratio → Amount → ℕ → ℕ → Type 0
Balance (pos k) a r got paid = Held k a r.gain r.loss r.over got paid
Balance (negsuc k) a r got paid = Held (suc k) a r.loss r.gain r.over paid got

pub record Balances (x : ℤ) (a : Ratio) (r : Amount) (got paid : ℕ) : Type 0 where
  pub divides : 0 < a.denominator
  pub over : 0 < r.over
  pub balance : Balance x a r got paid

pub pos_times : (a b : ℕ) → 0 < a → 0 < b → 0 < a * b
pos_times zero b h k = elim h [ ]
pos_times (suc a) zero h k = elim k [ ]
pos_times (suc a) (suc b) h k = omega arith

abbrev pub closed : Amount → Ratio → Price → ℤ → Amount
closed r a p c = add r (difference_times (whole p) a c)

module _ (a : Ratio) (u v w q : ℕ) (p got paid : ℕ) where
  adds-Held :
      (k : ℕ)
      → Held k a u v w got paid
      → Held
          (k + q)
          (record {
            numerator = k * a.numerator + q * p * a.denominator;
            denominator = a.denominator * (k + q);
          })
          u
          v
          w
          got
          (paid + q * p)
  adds-Held k e = omega (arith, ap (λ x. x * (k + q)) e)

  closes-Held :
      (k : ℕ)
      → Held (k + q) a u v w got paid
      → Held k a
          (u * (1 * a.denominator) + p * a.denominator * q * w)
          (v * (1 * a.denominator) + a.numerator * 1 * q * w)
          (w * (1 * a.denominator))
          (got + q * p)
          paid
  closes-Held k e = omega (arith, ap (λ x. x * a.denominator) e)

  ends-Held :
      Held q a u v w got paid
      → Held 0
          (whole 0)
          (u * (1 * a.denominator) + p * a.denominator * q * w)
          (v * (1 * a.denominator) + a.numerator * 1 * q * w)
          (w * (1 * a.denominator))
          (got + q * p)
          paid
  ends-Held e = omega (arith, e)

  turns-Held :
      (j : ℕ)
      → Held q a u v w got paid
      → Held j
          (whole p)
          (v * (1 * a.denominator) + a.numerator * 1 * q * w)
          (u * (1 * a.denominator) + p * a.denominator * q * w)
          (w * (1 * a.denominator))
          paid
          (got + (q + j) * p)
  turns-Held j e = omega (arith, e)

-- The cash that the sales and the purchases move.
abbrev pub received : Bool → ℕ → ℕ → ℕ
received true amount got = got
received false amount got = got + amount

abbrev pub spent : Bool → ℕ → ℕ → ℕ
spent true amount paid = paid + amount
spent false amount paid = paid

abbrev pub next_average : Bool → Quantity → Price → ℤ → Ratio → Ratio
next_average b q p x a =
    if adds x b q then average x a q p (shift x b q) else left_average x (shift x b q) a p

abbrev pub next_realised : Bool → Quantity → Price → ℤ → Ratio → Amount → Amount
next_realised b q p x a r = if adds x b q then r else closed r a p (closing x q)

module _ (a : Ratio) (r : Amount) (q : Quantity) (p : Price) (got paid : ℕ)
    (some_shares : 0 < q) where
  adds_long :
      (k : ℕ)
      → Balances (pos k) a r got paid
      → Balances (pos (k + q)) (average (pos k) a q p (pos (k + q))) r got (paid + q * p)
  adds_long k h = record {
    divides = pos_times a.denominator (k + q) h.divides (omega (arith, some_shares));
    over = h.over;
    balance = adds-Held a r.gain r.loss r.over q p got paid k h.balance;
  }

  -- A short position of `k` shares, which may be 0, that grows to `suc j` shares.
  adds_short :
      (k j : ℕ) (x : ℤ)
      → suc j ≡ k + q
      → magnitude x ≡ k
      → 0 < a.denominator
      → 0 < r.over
      → Held k a r.loss r.gain r.over paid got
      → Balances (negsuc j) (average x a q p (negsuc j)) r (got + q * p) paid
  adds_short k j x size m d w h = rw m (record {
    divides = pos_times a.denominator (suc j) d (omega arith);
    over = w;
    balance = rw size (adds-Held a r.loss r.gain r.over q p paid got k h);
  })

module _ (a : Ratio) (r : Amount) (p got paid : ℕ) where
  -- A sale, or a purchase, that leaves `y` shares of the position, or none.
  closes_long :
      (n y q : ℕ)
      → suc n ≡ y + q
      → Balances (pos (suc n)) a r got paid
      → Balances
          (pos y)
          (left_average (pos (suc n)) (pos y) a p)
          (closed r a p (pos q))
          (got + q * p)
          paid
  closes_long n zero q size h =
      let all : suc n ≡ q = omega (arith, size) in
      record {
        divides = omega arith;
        over = pos_times r.over (1 * a.denominator) h.over (omega (arith, h.divides));
        balance =
            ends-Held a r.gain r.loss r.over q p got paid
              (subst (λ z. Held z a r.gain r.loss r.over got paid) all h.balance);
      }
  closes_long n (suc y) q size h = record {
    divides = h.divides;
    over = pos_times r.over (1 * a.denominator) h.over (omega (arith, h.divides));
    balance =
        closes-Held a r.gain r.loss r.over q p got paid (suc y)
          (subst (λ z. Held z a r.gain r.loss r.over got paid) size h.balance);
  }

  closes_short :
      (n y c : ℕ)
      → suc n ≡ suc y + suc c
      → Balances (negsuc n) a r got paid
      → Balances
          (negsuc y)
          (left_average (negsuc n) (negsuc y) a p)
          (closed r a p (negsuc c))
          got
          (paid + suc c * p)
  closes_short n y c size h = record {
    divides = h.divides;
    over = pos_times r.over (1 * a.denominator) h.over (omega (arith, h.divides));
    balance =
        closes-Held a r.loss r.gain r.over (suc c) p paid got (suc y)
          (subst (λ z. Held z a r.loss r.gain r.over paid got) size h.balance);
  }

  -- A sale, or a purchase, of more than the position, which is turned over.
  turns_long :
      (n j : ℕ)
      → Balances (pos (suc n)) a r got paid
      → Balances
          (negsuc j)
          (left_average (pos (suc n)) (negsuc j) a p)
          (closed r a p (pos (suc n)))
          (got + (suc n + suc j) * p)
          paid
  turns_long n j h = record {
    divides = omega arith;
    over = pos_times r.over (1 * a.denominator) h.over (omega (arith, h.divides));
    balance = turns-Held a r.gain r.loss r.over (suc n) p got paid (suc j) h.balance;
  }

  turns_short :
      (n y : ℕ)
      → Balances (negsuc n) a r got paid
      → Balances
          (pos y)
          (left_average (negsuc n) (pos y) a p)
          (closed r a p (negsuc n))
          got
          (paid + (suc n + y) * p)
  turns_short n zero h = record {
    divides = omega arith;
    over = pos_times r.over (1 * a.denominator) h.over (omega (arith, h.divides));
    balance = omega (arith, ends-Held a r.loss r.gain r.over (suc n) p paid got h.balance);
  }
  turns_short n (suc y) h = record {
    divides = omega arith;
    over = pos_times r.over (1 * a.denominator) h.over (omega (arith, h.divides));
    balance = turns-Held a r.loss r.gain r.over (suc n) p paid got (suc y) h.balance;
  }

-- A fill keeps the balance, once its own cash is counted.
pub next-Balances :
    (a : Ratio) (r : Amount) (p got paid : ℕ) (b : Bool) (m : ℕ) (x : ℤ)
    → Balances x a r got paid
    → let q = suc m in
      Balances
        (shift x b q)
        (next_average b q p x a)
        (next_realised b q p x a r)
        (received b (q * p) got)
        (spent b (q * p) paid)
next-Balances a r p got paid true m (pos zero) h =
    adds_long a r (suc m) p got paid (omega arith) 0 h
next-Balances a r p got paid true m (pos (suc n)) h =
    let some_shares : (suc m == 0) ≡ false = ground arith in
    rw some_shares (adds_long a r (suc m) p got paid (omega arith) (suc n) h)
next-Balances a r p got paid false m (pos zero) h =
    let t : leb (suc m) 0 ≡ false = ground arith in
    rw t (
      adds_short a r (suc m) p got paid (omega arith) 0 (suc m - 1) (pos 0) (omega arith) refl
        h.divides h.over (omega (arith, h.balance)))
next-Balances a r p got paid false m (negsuc n) h =
    let some_shares : (suc m == 0) ≡ false = ground arith in
    rw some_shares (
      adds_short a r (suc m) p got paid (omega arith) (suc n) (n + suc m) (negsuc n) (omega arith)
        refl h.divides h.over h.balance)
next-Balances a r p got paid false m (pos (suc n)) h = elim (Bool-cases (leb (suc m) (suc n))) [
  | inl t ↦
      let some_closed : min (suc n) (suc m) ≡ suc m = ground arith in
      rw (t, some_closed) (closes_long a r p got paid n (suc n - suc m) (suc m) (ground arith) h)
  | inr t ↦
      let all_closed : min (suc n) (suc m) ≡ suc n = ground arith in
      let rest : suc n + suc (suc m - suc (suc n)) ≡ suc m = ground arith in
      rw (t, all_closed)
        (subst
          (λ z.
            Balances (negsuc (suc m - suc (suc n))) (whole p) (closed r a p (pos (suc n)))
              (got + z * p) paid)
          rest (turns_long a r p got paid n (suc m - suc (suc n)) h))
]
next-Balances a r p got paid true m (negsuc n) h =
    let some_shares : (suc m == 0) ≡ false = ground arith in
    elim (Bool-cases (leb (suc m) n)) [
      | inl t ↦
          let some_closed : min (suc n) (suc m) - 1 ≡ m = ground arith in
          rw (some_shares, t, some_closed)
            (closes_short a r p got paid n (n - suc m) m (ground arith) h)
      | inr t ↦
          let all_closed : min (suc n) (suc m) - 1 ≡ n = ground arith in
          let rest : suc n + (suc m - suc n) ≡ suc m = ground arith in
          rw (some_shares, t, all_closed)
            (subst
              (λ z.
                Balances (pos (suc m - suc n)) (left_average (negsuc n) (pos (suc m - suc n)) a p)
                  (closed r a p (negsuc n)) got (paid + z * p))
              rest (turns_short a r p got paid n (suc m - suc n) h))
    ]
