-- ===== src/Verify/Registry/Order.antt =====
-- The choice of an adapter does not depend on the order of registration.
use rom_m_swarm.Common.{
  text_lt_trans, text_lt_total, text_lt_irrefl, ◌==◌, ltb, ◌≡◌, ◌⊎◌, inl, inr, refl, sym, ap, ◌∙◌,
  subst, Bool, true, false, not, ◌&&◌, ◌||◌, List, [], ◌∷◌, Option, none, some, In, All, In-All,
  Bool-cases, arith,
}
use rom_m_swarm.Verify.{Confidence, confidence_none}
use rom_m_swarm.Verify.Genesis.{Peek}
use rom_m_swarm.Verify.Registry.{
  Adapter, Choice, ref_text, precedes, consider, consider_all, select_adapter,
}

module _ (p : Peek) where
  -- The adapter claims the payload more strongly than the choice, or as strongly and precedes it.
  abbrev beats : Adapter → Choice → Bool
  beats a c =
      not (a.detect p == confidence_none)
      && (ltb c.confidence (a.detect p) || (a.detect p == c.confidence && precedes a c.adapter))

  -- The choice is no adapter with no confidence, or one of the list with its own.
  abbrev From : List Adapter → Choice → Type 0
  From adapters c =
      (c ≡ record { adapter = none; confidence = confidence_none })
      ⊎ ((a : Adapter) × In a adapters
          × (c ≡ record { adapter = some a; confidence = a.detect p })
          × ((a.detect p == confidence_none) ≡ false))

  consider-cases :
      (a : Adapter) (best : Choice)
      → ((consider p a best ≡ best) × (beats a best ≡ false))
        ⊎ ((consider p a best ≡ record { adapter = some a; confidence = a.detect p })
            × (beats a best ≡ true))
  unfolding consider
  consider-cases a best = elim (Bool-cases (beats a best)) [
    | inl e ↦ inr (ground arith, e)
    | inr e ↦ inl (ground arith, e)
  ]

  beats_before :
      (a b : Adapter) (o : Option Adapter) (c : Confidence)
      → beats a (record { adapter = o; confidence = c }) ≡ true
      → beats b (record { adapter = o; confidence = c }) ≡ false
      → beats b (record { adapter = some a; confidence = a.detect p }) ≡ false
  beats_before a b none c h k = ground arith
  beats_before a b (some d) c h k =
      ground (arith, text_lt_trans (ref_text b.ref) (ref_text a.ref) (ref_text d.ref))

  -- What does not beat a choice does not beat a choice that beats it.
  beats_step :
      (a b : Adapter) (best : Choice)
      → beats a best ≡ true
      → beats b best ≡ false
      → beats b (record { adapter = some a; confidence = a.detect p }) ≡ false
  beats_step a b best = beats_before a b best.adapter best.confidence

  beats_self :
      (a : Adapter) → beats a (record { adapter = some a; confidence = a.detect p }) ≡ false
  beats_self a = ground (arith, text_lt_irrefl (ref_text a.ref))

  claims :
      (a : Adapter) (best : Choice) → beats a best ≡ true → (a.detect p == confidence_none) ≡ false
  claims a best h = ground arith

  -- The loop ends with an adapter of the list, or the choice before, and none beats it.
  consider_all-From :
      (adapters : List Adapter) (best : Choice)
      → ((consider_all p adapters best ≡ best)
          ⊎ ((a : Adapter) × In a adapters
              × (consider_all p adapters best
                  ≡ record { adapter = some a; confidence = a.detect p })
              × ((a.detect p == confidence_none) ≡ false)))
        × All (λ b. beats b (consider_all p adapters best) ≡ false) adapters
        × ((b : Adapter) → beats b best ≡ false → beats b (consider_all p adapters best) ≡ false)
  unfolding consider_all
  consider_all-From [] best = (inl refl, tt, λ b h. h)
  consider_all-From (a ∷ adapters) best =
      let (from, unbeaten, keeps) = consider_all-From adapters (consider p a best) in
      elim (consider-cases a best) [
        | inl (same, lost) ↦ (
          elim from [ inl e ↦ inl (e ∙ same) | inr (x, i, e, c) ↦ inr (x, inr i, e, c) ],
          (keeps a (subst (λ c. beats a c ≡ false) (sym same) lost), unbeaten),
          λ b h. keeps b (subst (λ c. beats b c ≡ false) (sym same) h),
        )
        | inr (same, won) ↦ (
          elim from [
            | inl e ↦ inr (a, inl refl, e ∙ same, claims a best won)
            | inr (x, i, e, c) ↦ inr (x, inr i, e, c)
          ],
          (keeps a (subst (λ c. beats a c ≡ false) (sym same) (beats_self a)), unbeaten),
          λ b h. keeps b (subst (λ c. beats b c ≡ false) (sym same) (beats_step a b best won h)),
        )
      ]

  idle :
      (y : Adapter) (c : Choice)
      → c ≡ record { adapter = none; confidence = confidence_none }
      → beats y c ≡ false
      → (y.detect p == confidence_none) ≡ false
      → ⊥
  idle y c e lost n =
      let now : beats y (record { adapter = none; confidence = confidence_none }) ≡ false =
        subst (λ z. beats y z ≡ false) e lost in
      ground arith

  tied :
      (x y : Adapter)
      → (x.detect p == confidence_none) ≡ false
      → (y.detect p == confidence_none) ≡ false
      → beats y (record { adapter = some x; confidence = x.detect p }) ≡ false
      → beats x (record { adapter = some y; confidence = y.detect p }) ≡ false
      → ref_text x.ref ≡ ref_text y.ref
  tied x y m n h k = text_lt_total (ref_text x.ref) (ref_text y.ref) (ground arith) (ground arith)

  -- Two choices from the same adapters, neither of which is beaten.
  same_choice :
      (as' bs : List Adapter) (c d : Choice)
      → ((x : Adapter) → In x as' → In x bs)
      → ((x : Adapter) → In x bs → In x as')
      → ((x y : Adapter) → In x as' → In y as' → ref_text x.ref ≡ ref_text y.ref → x ≡ y)
      → From as' c
      → From bs d
      → All (λ b. beats b c ≡ false) as'
      → All (λ b. beats b d ≡ false) bs
      → c ≡ d
  same_choice as' bs c d sub sup apart (inl e) (inl f) h k = e ∙ sym f
  same_choice as' bs c d sub sup apart (inl e) (inr (y, j, f, n)) h k =
      let lost = In-All (λ b. beats b c ≡ false) y as' (sup y j) h in absurd (idle y c e lost n)
  same_choice as' bs c d sub sup apart (inr (x, i, e, m)) (inl f) h k =
      let lost = In-All (λ b. beats b d ≡ false) x bs (sub x i) k in absurd (idle x d f lost m)
  same_choice as' bs c d sub sup apart (inr (x, i, e, m)) (inr (y, j, f, n)) h k =
      let left =
        subst (λ z. beats y z ≡ false) e (In-All (λ b. beats b c ≡ false) y as' (sup y j) h) in
      let right =
        subst (λ z. beats x z ≡ false) f (In-All (λ b. beats b d ≡ false) x bs (sub x i) k) in
      let refs = tied x y m n left right in
      let equal : x ≡ y = apart x y i (sup y j) refs in
      e ∙ ap (λ z. record { adapter = some z; confidence = z.detect p }) equal ∙ sym f

-- Two registries that hold the same adapters, in whatever order, no two of the adapters having
-- one reference as a text, choose the same adapter for a payload with the same confidence.
pub select_adapter_same :
    (p : Peek) (as' bs : List Adapter)
    → ((x : Adapter) → In x as' → In x bs)
    → ((x : Adapter) → In x bs → In x as')
    → ((x y : Adapter) → In x as' → In y as' → ref_text x.ref ≡ ref_text y.ref → x ≡ y)
    → select_adapter p as' ≡ select_adapter p bs
unfolding select_adapter
select_adapter_same p as' bs sub sup apart =
    let start : Choice = record { adapter = none; confidence = confidence_none } in
    let (from, unbeaten, keeps) = consider_all-From p as' start in
    let (from', unbeaten', keeps') = consider_all-From p bs start in
    same_choice p as' bs _ _ sub sup apart from from' unbeaten unbeaten'
