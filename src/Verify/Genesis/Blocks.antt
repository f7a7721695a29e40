-- ===== src/Verify/Genesis/Blocks.antt =====
-- A block that was interleaved comes back.
use rom_m_swarm.Common.{
  ℕ, zero, suc, ◌+◌, Text, ◌≡◌, refl, sym, ap, ◌∙◌, [], ◌∷◌, ◌++◌, length, take, drop,
  length-append, drop-append, arith, ap₂,
}
use rom_m_swarm.Verify.Genesis.{weave, deinterleave_block, evens, odds, interleave_block}

weave_lem : (s : Text) (h : ℕ) → length s ≡ h + h → weave (evens s) (odds s) ≡ s
unfolding weave evens odds
weave_lem [] h e = refl
weave_lem (c ∷ []) h e = absurd (omega arith)
weave_lem (c ∷ d ∷ s) zero e = absurd (omega arith)
weave_lem (c ∷ d ∷ s) (suc h) e = ap (λ t. c ∷ d ∷ t) (weave_lem s h (omega arith))

odds-length : (s : Text) (h : ℕ) → length s ≡ h + h → length (odds s) ≡ h
unfolding odds
odds-length [] h e = omega arith
odds-length (c ∷ []) h e = absurd (omega arith)
odds-length (c ∷ d ∷ s) zero e = absurd (omega arith)
odds-length (c ∷ d ∷ s) (suc h) e = omega (arith, odds-length s h (omega arith))

evens-length : (s : Text) (h : ℕ) → length s ≡ h + h → length (evens s) ≡ h
unfolding evens
evens-length [] h e = omega arith
evens-length (c ∷ []) h e = absurd (omega arith)
evens-length (c ∷ d ∷ s) zero e = absurd (omega arith)
evens-length (c ∷ d ∷ s) (suc h) e = omega (arith, evens-length s h (omega arith))

pub take-append : (s t : Text) (n : ℕ) → length s ≡ n → take n (s ++ t) ≡ s
take-append [] t zero e = refl
take-append [] t (suc n) e = absurd (omega arith)
take-append (c ∷ s) t zero e = absurd (omega arith)
take-append (c ∷ s) t (suc n) e = ap (λ u. c ∷ u) (take-append s t n (omega arith))

pub drop_append : (s t : Text) (n : ℕ) → length s ≡ n → drop n (s ++ t) ≡ t
drop_append s t n e = ap (λ k. drop k (s ++ t)) (sym e) ∙ drop-append s t

pub interleave_block-length :
    (s : Text) (h : ℕ) → length s ≡ h + h → length (interleave_block s) ≡ h + h
unfolding interleave_block
interleave_block-length s h e =
    omega (arith, length-append (odds s) (evens s), odds-length s h e, evens-length s h e)

pub deinterleave-interleave :
    (s : Text) (h : ℕ) → length s ≡ h + h → deinterleave_block h (interleave_block s) ≡ s
unfolding deinterleave_block interleave_block
deinterleave-interleave s h e =
    let half = odds-length s h e in
    ap₂ weave (drop_append (odds s) (evens s) h half) (take-append (odds s) (evens s) h half)
    ∙ weave_lem s h e

pub length-take : (s : Text) (n m : ℕ) → length s ≡ n + m → length (take n s) ≡ n
length-take s zero m e = omega arith
length-take [] (suc n) m e = absurd (omega arith)
length-take (c ∷ s) (suc n) m e = omega (arith, length-take s n m (omega arith))

pub length-drop : (s : Text) (n m : ℕ) → length s ≡ n + m → length (drop n s) ≡ m
length-drop s zero m e = omega arith
length-drop [] (suc n) m e = absurd (omega arith)
length-drop (c ∷ s) (suc n) m e = length-drop s n m (omega arith)

pub take-drop : (s : Text) (n : ℕ) → take n s ++ drop n s ≡ s
take-drop s zero = refl
take-drop [] (suc n) = refl
take-drop (c ∷ s) (suc n) = ap (λ t. c ∷ t) (take-drop s n)
