-- ===== src/Prelude/Dict.antt =====
-- A Python `dict` as an association list in insertion order; `set` on a present key keeps its place.
use Prim.Native.Nat.{suc}
use mathlib.Core.Path.{◌≡◌, refl, sym, subst, ap, ◌∙◌}
use mathlib.Core.Logic.{◌≢◌, inl, inr}
use mathlib.Core.List.{List, [], ◌∷◌, map}
use mathlib.Core.Option.{Option, none, some}
use mathlib.Core.Bool.{true, false}
use native.Mathlib.Omega.{arith}
use mini_hft_system.Prelude.Tests.{Eq, if◌then◌else◌, Bool-cases}
use mini_hft_system.Prelude.Lists.{All, length}

module _ {ℓ κ} {K : Type ℓ} {V : Type κ} ⦃e : Eq K⦄ where
  unfoldable pub get : K → List (K × V) → Option V
  get k [] = none
  get k ((j, v) ∷ m) = if e.beq j k then some v else get k m

  unfoldable pub put : K → V → List (K × V) → List (K × V)
  put k v [] = (k, v) ∷ []
  put k v ((j, w) ∷ m) = if e.beq j k then (j, v) ∷ m else (j, w) ∷ put k v m

  -- Every binding of the key goes; `put` makes one at most.
  unfoldable pub del : K → List (K × V) → List (K × V)
  del k [] = []
  del k ((j, w) ∷ m) = let rest = del k m in if e.beq j k then rest else (j, w) ∷ rest

  abbrev pub keys : List (K × V) → List K
  keys m = map (λ b. b.0) m

  pub get-put_self : (k : K) (v : V) (m : List (K × V)) → get k (put k v m) ≡ some v
  unfolding get put
  get-put_self k v [] = ground (arith, e.beq_iff k k)
  get-put_self k v ((j, w) ∷ m) = ground (arith, get-put_self k v m)

  pub get-put_ne : (k j : K) (v : V) (m : List (K × V)) → k ≢ j → get j (put k v m) ≡ get j m
  unfolding get put
  get-put_ne k j v [] h = ground (arith, e.beq_iff k j)
  get-put_ne k j v ((i, w) ∷ m) h = ground (arith, e.beq_iff i k, e.beq_iff i j, get-put_ne k j v m)

  pub get-del_self : (k : K) (m : List (K × V)) → get k (del k m) ≡ none
  unfolding get del
  get-del_self k [] = refl
  get-del_self k ((j, w) ∷ m) = ground (arith, get-del_self k m)

  pub get-del_ne : (k j : K) (m : List (K × V)) → k ≢ j → get j (del k m) ≡ get j m
  unfolding get del
  get-del_ne k j [] h = refl
  get-del_ne k j ((i, w) ∷ m) h = ground (arith, e.beq_iff i k, e.beq_iff i j, get-del_ne k j m)

  -- A property of the values.
  pub put-All {μ} :
      (P : V → Type μ) (k : K) (v : V) (m : List (K × V))
      → P v
      → All (λ b. P b.1) m
      → All (λ b. P b.1) (put k v m)
  unfolding put
  put-All P k v [] h a = (h, tt)
  put-All P k v ((j, w) ∷ m) h a = elim (Bool-cases (e.beq j k)) [
    | inl t ↦ rw t (h, a.1)
    | inr t ↦ rw t (a.0, put-All P k v m h a.1)
  ]

  pub get-All {μ} :
      (P : V → Type μ) (k : K) (v : V) (m : List (K × V))
      → All (λ b. P b.1) m
      → get k m ≡ some v
      → P v
  unfolding get
  get-All P k v [] a h = absurd (cc)
  get-All P k v ((j, w) ∷ m) a h = elim (Bool-cases (e.beq j k)) [
    | inl t ↦ let it : w ≡ v = ground arith in subst P it a.0
    | inr t ↦ get-All P k v m a.1 (ground arith)
  ]

  pub length-put_new :
      (k : K) (v : V) (m : List (K × V)) → get k m ≡ none → length (put k v m) ≡ suc (length m)
  unfolding get put
  length-put_new k v [] h = refl
  length-put_new k v ((j, w) ∷ m) h = ground (arith, length-put_new k v m)

  pub length-put_old :
      (k : K) (v w : V) (m : List (K × V)) → get k m ≡ some w → length (put k v m) ≡ length m
  unfolding get put
  length-put_old k v w [] h = absurd (cc)
  length-put_old k v w ((j, x) ∷ m) h = ground (arith, length-put_old k v w m)

  pub get-put-none :
      (k i : K) (v : V) (m : List (K × V)) → get i (put k v m) ≡ none → (k ≢ i) × (get i m ≡ none)
  get-put-none k i v m h = (apart, sym (get-put_ne k i v m apart) ∙ h)
    where
      apart : k ≢ i
      apart t =
          let c : some v ≡ none = sym (get-put_self k v m) ∙ ap (λ x. get x (put k v m)) t ∙ h in cc

  -- The laws in the form of a conditional.
  pub get-put :
      (k j : K) (v : V) (m : List (K × V))
      → get j (put k v m) ≡ (if e.beq k j then some v else get j m)
  get-put k j v m = elim (Bool-cases (e.beq k j)) [
    | inl t ↦ rw (t, sym ((e.beq_iff k j).0 t)) (get-put_self k v m)
    | inr t ↦
        rw t (get-put_ne k j v m (λ h. let c : true ≡ false = sym ((e.beq_iff k j).1 h) ∙ t in cc))
  ]

  pub get-del :
      (k j : K) (m : List (K × V)) → get j (del k m) ≡ (if e.beq k j then none else get j m)
  get-del k j m = elim (Bool-cases (e.beq k j)) [
    | inl t ↦ rw (t, sym ((e.beq_iff k j).0 t)) (get-del_self k m)
    | inr t ↦
        rw t (get-del_ne k j m (λ h. let c : true ≡ false = sym ((e.beq_iff k j).1 h) ∙ t in cc))
  ]
