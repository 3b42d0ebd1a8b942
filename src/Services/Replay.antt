-- ===== src/Services/Replay.antt =====
-- A client that applies the messages of api/services/book_stream_service.py has the levels of the latest
-- snapshot. A level with quantity 0 deletes, as the code's comment on deltas says.
use mini_hft_system.Prelude.{
  ℕ, ◌≡◌, ◌≢◌, ◌∙◌, refl, sym, ap, List, [], ◌∷◌, ◌++◌, Option, none, some, true, false, ◌==◌,
  if◌then◌else◌, All, arith, Bool-cases, Option-cases, inl, inr, subst,
}
use mini_hft_system.Prelude.Dict
use mini_hft_system.Prelude.Tests.{nat_eq, text_eq, ==_iff}
use mini_hft_system.Types.{Price, Quantity, Symbol}
use mini_hft_system.Book.{BookSnapshot}
use mini_hft_system.Services.Delta.{
  Row, Levels, BookLevel, levels_of, same_level, changed, absent, gone, changes, project,
}

abbrev pub apply_level : Levels → BookLevel → Levels
apply_level m r =
    if r.quantity == 0 then Dict.del r.price m else Dict.put r.price (r.quantity, r.order_count) m

unfoldable pub apply : Levels → List BookLevel → Levels
apply m [] = m
apply m (r ∷ rs) = apply (apply_level m r) rs

abbrev pub HasShares : Row → Type 0
HasShares r = r.1 ≢ 0

-- One binding for each key, and none with quantity 0.
abbrev IsLevels : Levels → Type 0
IsLevels [] = Unit
IsLevels ((p, v) ∷ m) = ((Dict.get p m ≡ none) × (v.0 ≢ 0)) × IsLevels m

put-IsLevels :
    (p : Price) (v : Quantity × ℕ) (m : Levels) → v.0 ≢ 0 → IsLevels m → IsLevels (Dict.put p v m)
unfolding Dict.get Dict.put
put-IsLevels p v [] h l = ((refl, h), tt)
put-IsLevels p v ((j, w) ∷ m) h l = elim (Bool-cases (j == p)) [
  | inl e ↦ rw e ((l.0.0, h), l.1)
  | inr e ↦
      let apart : p ≢ j = ground (arith, e) in
      rw e ((Dict.get-put_ne p j v m apart ∙ l.0.0, l.0.1), put-IsLevels p v m h l.1)
]

levels_of-IsLevels :
    (rows : List Row) (m : Levels) → All HasShares rows → IsLevels m → IsLevels (levels_of m rows)
unfolding levels_of
levels_of-IsLevels [] m a l = l
levels_of-IsLevels ((p, q, c) ∷ rows) m a l =
    levels_of-IsLevels rows (Dict.put p (q, c) m) a.1 (put-IsLevels p (q, c) m a.0 l)

module _ (p : Price) where
  abbrev Elsewhere : BookLevel → Type 0
  Elsewhere r = r.price ≢ p

  get-apply_level :
      (m : Levels) (r : BookLevel) → Elsewhere r → Dict.get p (apply_level m r) ≡ Dict.get p m
  get-apply_level m r h = elim (Bool-cases (r.quantity == 0)) [
    | inl e ↦ rw e (Dict.get-del_ne r.price p m h)
    | inr e ↦ rw e (Dict.get-put_ne r.price p (r.quantity, r.order_count) m h)
  ]

  -- Levels at other prices do not matter.
  get-apply :
      (m : Levels) (rs : List BookLevel) → All Elsewhere rs → Dict.get p (apply m rs) ≡ Dict.get p m
  unfolding apply
  get-apply m [] a = refl
  get-apply m (r ∷ rs) a = get-apply (apply_level m r) rs a.1 ∙ get-apply_level m r a.0

  apply-append : (m : Levels) (xs ys : List BookLevel) → apply m (xs ++ ys) ≡ apply (apply m xs) ys
  unfolding apply
  apply-append m [] ys = refl
  apply-append m (x ∷ xs) ys = apply-append (apply_level m x) xs ys

  changed-Elsewhere : (prior c : Levels) → Dict.get p c ≡ none → All Elsewhere (changed prior c)
  unfolding changed Dict.get
  changed-Elsewhere prior [] h = tt
  changed-Elsewhere prior ((j, w) ∷ c) h = elim (Bool-cases (j == p)) [
    | inl e ↦ absurd (let x : some w ≡ none = rw e at h in cc)
    | inr e ↦ elim (Bool-cases (same_level (Dict.get j prior) w)) [
      | inl s ↦ rw s (changed-Elsewhere prior c (rw e at h))
      | inr s ↦ rw s (ground (arith, e), changed-Elsewhere prior c (rw e at h))
    ]
  ]

  gone-Elsewhere :
      (prior c : Levels) (v : Quantity × ℕ) → Dict.get p c ≡ some v → All Elsewhere (gone prior c)
  unfolding gone
  gone-Elsewhere [] c v h = tt
  gone-Elsewhere ((j, w) ∷ prior) c v h = elim (Bool-cases (absent (Dict.get j c))) [
    | inl e ↦ rw e (
      λ d.
          let x : absent (some v) ≡ true =
            subst (λ y. absent y ≡ true) (ap (λ k. Dict.get k c) d ∙ h) e in
          cc,
      gone-Elsewhere prior c v h,
    )
    | inr e ↦ rw e (gone-Elsewhere prior c v h)
  ]

  same_level_eq :
      (x : Option (Quantity × ℕ)) (v : Quantity × ℕ) → same_level x v ≡ true → x ≡ some v
  same_level_eq none v h = absurd (cc)
  same_level_eq (some (q, c)) (q', c') h =
      let a : q ≡ q' = ground (arith, h) in let b : c ≡ c' = ground (arith, h) in cc

  -- After the changed levels, the price has what the current levels have.
  changed-some :
      (prior c : Levels) (v : Quantity × ℕ) (m : Levels)
      → IsLevels c
      → Dict.get p c ≡ some v
      → Dict.get p m ≡ Dict.get p prior
      → Dict.get p (apply m (changed prior c)) ≡ some v
  unfolding changed apply Dict.get
  changed-some prior [] v m l h g = absurd (cc)
  changed-some prior ((j, w) ∷ c) v m l h g = elim (Bool-cases (j == p)) [
    | inl e ↦
        let k : j ≡ p = (==_iff j p).0 e in
        let same : some w ≡ some v = rw e at h in
        let none_later : Dict.get p c ≡ none = ap (λ x. Dict.get x c) (sym k) ∙ l.0.0 in
        elim (Bool-cases (same_level (Dict.get j prior) w)) [
          | inl s ↦
              let old : Dict.get p prior ≡ some w =
                ap (λ x. Dict.get x prior) (sym k) ∙ same_level_eq (Dict.get j prior) w s in
              rw s (
                get-apply m (changed prior c) (changed-Elsewhere prior c none_later)
                ∙ g
                ∙ old
                ∙ same)
          | inr s ↦
              let kept : (w.0 == 0) ≡ false = ground (arith, l.0.1) in
              rw s (
                get-apply (apply_level m (record { price = j; quantity = w.0; order_count = w.1 }))
                  (changed prior c) (changed-Elsewhere prior c none_later)
                ∙ rw (kept, k) (Dict.get-put_self p w m)
                ∙ same)
        ]
    | inr e ↦
        let apart : j ≢ p = ground (arith, e) in
        elim (Bool-cases (same_level (Dict.get j prior) w)) [
          | inl s ↦ rw s (changed-some prior c v m l.1 (rw e at h) g)
          | inr s ↦ rw s (
              changed-some prior c v
                (apply_level m (record { price = j; quantity = w.0; order_count = w.1 })) l.1
                (rw e at h)
                (get-apply_level m (record { price = j; quantity = w.0; order_count = w.1 }) apart
                  ∙ g))
        ]
  ]

  -- A level that is gone is deleted, and stays deleted.
  gone-none :
      (q c m : Levels)
      → Dict.get p c ≡ none
      → (Dict.get p q ≡ none → Dict.get p m ≡ none)
      → Dict.get p (apply m (gone q c)) ≡ none
  unfolding gone apply Dict.get
  gone-none [] c m h f = f refl
  gone-none ((j, w) ∷ q) c m h f = elim (Bool-cases (j == p)) [
    | inl e ↦
        let k : j ≡ p = (==_iff j p).0 e in
        let lost : absent (Dict.get j c) ≡ true = ap absent (ap (λ x. Dict.get x c) k ∙ h) in
        rw lost (
          gone-none q c (Dict.del j m) h
            (λ g. ap (λ x. Dict.get p (Dict.del x m)) k ∙ Dict.get-del_self p m))
    | inr e ↦
        let apart : j ≢ p = ground (arith, e) in
        let below : Dict.get p q ≡ none → Dict.get p m ≡ none = λ g. f (rw e g) in
        elim (Bool-cases (absent (Dict.get j c))) [
          | inl s ↦
              rw s (gone-none q c (Dict.del j m) h (λ g. Dict.get-del_ne j p m apart ∙ below g))
          | inr s ↦ rw s (gone-none q c m h below)
        ]
  ]

  -- A client that holds the levels of the previous snapshot and applies the changes of a side has, at
  -- every price, the level of the current snapshot. It holds where each current row has shares.
  pub apply-changes :
      (previous current : List Row)
      → All HasShares current
      → Dict.get p (apply (levels_of [] previous) (changes previous current))
        ≡ Dict.get p (levels_of [] current)
  unfolding changes
  apply-changes previous current a =
      let prior = levels_of [] previous in
      let now = levels_of [] current in
      let l = levels_of-IsLevels current [] a tt in
      ap (Dict.get p) (apply-append prior (changed prior now) (gone prior now))
      ∙ elim (Option-cases (Dict.get p now)) [
        | inr (v, e) ↦
            get-apply (apply prior (changed prior now)) (gone prior now)
              (gone-Elsewhere prior now v e)
            ∙ changed-some prior now v prior l e refl
            ∙ sym e
        | inl e ↦
            gone-none prior now (apply prior (changed prior now)) e
              (λ g. get-apply prior (changed prior now) (changed-Elsewhere prior now e) ∙ g)
            ∙ sym e
      ]

-- The message for a snapshot of a symbol that has been seen names the sequence of the snapshot before it,
-- takes a client at every price of both sides from the levels of that snapshot to the current ones, and
-- the projector remembers the current snapshot. It holds where each current row has shares.
pub project-follows :
    (memory : List (Symbol × BookSnapshot)) (prior s : BookSnapshot) (p : Price)
    → Dict.get s.symbol memory ≡ some prior
    → All HasShares s.bids
    → All HasShares s.asks
    → ((project memory s).0.previous_sequence ≡ some prior.sequence)
      × (Dict.get p (apply (levels_of [] prior.bids) (project memory s).0.bids)
          ≡ Dict.get p (levels_of [] s.bids))
      × (Dict.get p (apply (levels_of [] prior.asks) (project memory s).0.asks)
          ≡ Dict.get p (levels_of [] s.asks))
      × (Dict.get s.symbol (project memory s).1 ≡ some s)
unfolding project
project-follows memory prior s p g bids asks =
    rw (g, project)
      (
        refl,
        apply-changes p prior.bids s.bids bids,
        apply-changes p prior.asks s.asks asks,
        Dict.get-put_self s.symbol s memory,
      )
