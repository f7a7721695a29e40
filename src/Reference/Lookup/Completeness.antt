-- ===== src/Reference/Lookup/Completeness.antt =====
-- That `Lookup` misses no entry that agrees strongly.
use rom_m_swarm.Common.{
  ℕ, ◌≤◌, Text, text_eq, text_eq_iff, ltb, ◌≡◌, inl, inr, refl, sym, ap, ap₂, subst, ◌∙◌, true,
  false, List, [], ◌∷◌, some, length, get_elem?, All, In, In-All, All-In, tabulate_lem, Sorter,
  Ordered, arith,
}
use rom_m_swarm.Protocol.Ids.{to_lower, lower_byte}
use rom_m_swarm.Protocol.Digest.{Digest, normalized, compare, strength_strong}
use rom_m_swarm.Protocol.Digest.Agreement.{compare_bound, compare_strong, confirmed}
use rom_m_swarm.Reference.{Entry, Set, known_sum, index}
use rom_m_swarm.Reference.Lookup.{Match, has_bucket, candidates, comes_before, lookup}
use rom_m_swarm.Reference.Lookup.Soundness.{
  Confirmed, recheck_total, recheck-Confirmed, recheck_finds, indexed_lem, candidates-InRange,
  sum_key, lookup_sorted,
}

lower_idem : (s : Text) → to_lower (to_lower s) ≡ to_lower s
unfolding to_lower lower_byte
lower_idem [] = refl
lower_idem (c ∷ cs) = ap₂ (λ x y. x ∷ y) (ground arith) (lower_idem cs)

normalized_idem : (d : Digest) → normalized (normalized d) ≡ normalized d
unfolding normalized
normalized_idem d =
    rw (lower_idem d.crc32, lower_idem d.md5, lower_idem d.sha1, lower_idem d.sha256) refl

compare-normalized : (d e : Digest) → compare (normalized d) e ≡ compare d e
unfolding compare
compare-normalized d e = rw (normalized_idem d) refl

In-length : (i : ℕ) (is : List ℕ) → In i is → ltb 0 (length is) ≡ true
In-length i [] h = absurd h
In-length i (j ∷ is) h = ground arith

-- Two known sums that are equal up to case: the index has the entry under the digest's sum.
known_lem : (x y : Text) → confirmed x y ≡ true → (known_sum y ≡ some x) × (text_eq x [] ≡ false)
unfolding confirmed known_sum
known_lem x y h = (ground (arith, text_eq_iff x y), ground arith)

strong_candidate :
    (d : Digest) (s : Set) (i : ℕ) (e : Entry)
    → get_elem? s.entries i ≡ some e
    → compare d e.digest ≡ (strength_strong, true)
    → In i (candidates (normalized d) (index s))
unfolding candidates has_bucket normalized
strong_candidate d s i e at agrees =
    let (known, nonempty) =
      known_lem (to_lower d.sha256) (to_lower e.digest.sha256)
        ((compare_strong d e.digest).0 agrees).4 in
    let here =
      (tabulate_lem (sum_key Digest.sha256) (to_lower d.sha256) i s.entries).1 (e, at, known) in
    rw (indexed_lem s, nonempty, In-length i _ here) here

strength_bound :
    (d : Digest) (x : Match)
    → compare d x.entry.digest ≡ (x.strength, true)
    → x.strength ≤ strength_strong
strength_bound d x e = ground (arith, compare_bound d x.entry.digest)

-- The first of the ordered matches is as strong as any of them.
strongest_first :
    (m : Match) (ms : List Match)
    → m.strength ≡ strength_strong
    → In m ms
    → All (λ x. x.strength ≤ strength_strong) ms
    → Ordered comes_before ms
    → (first : Match) × (rest : List Match) × (ms ≡ first ∷ rest)
      × (first.strength ≡ strength_strong)
unfolding comes_before
strongest_first m [] s i b o = absurd i
strongest_first m (x ∷ xs) s (inl e) b o = (x, xs, refl, ap Match.strength (sym e) ∙ s)
strongest_first m (x ∷ xs) s (inr i) b o =
    let last = In-All (λ y. comes_before y x ≡ false) m xs i o.0 in (x, xs, refl, ground arith)

-- In a catalogue that was indexed, an entry whose digest agrees strongly with the canonical one
-- is among the matches of the lookup, with this strength, and the first match agrees strongly.
pub lookup_strong :
    (sorter : Sorter comes_before) (d : Digest) (s : Set) (i : ℕ) (e : Entry)
    → get_elem? s.entries i ≡ some e
    → compare d e.digest ≡ (strength_strong, true)
    → (first : Match) × (rest : List Match) × (lookup sorter d (index s) ≡ some (first ∷ rest))
      × In (record { index = i; entry = e; strength = strength_strong }) (first ∷ rest)
      × (first.strength ≡ strength_strong)
lookup_strong sorter d s i e at agrees =
    let n = normalized d in
    let (out, h) = recheck_total n s.entries (candidates n (index s)) (candidates-InRange n s) in
    let m : Match = record { index = i; entry = e; strength = strength_strong } in
    let confirmed_match : Confirmed n s.entries m =
      (at, compare-normalized d e.digest ∙ agrees, refl) in
    let found =
      recheck_finds n s.entries _ out m h (strong_candidate d s i e at agrees) confirmed_match in
    let all : All (λ x. x.strength ≤ strength_strong) (sorter.sort out) =
      All-In (λ x. x.strength ≤ strength_strong) (sorter.sort out)
        (λ x k.
          let c = recheck-Confirmed n s.entries _ out x h ((sorter.keeps x out).0 k) in
          strength_bound n x c.1) in
    let (first, rest, e', f) =
      strongest_first m (sorter.sort out) refl ((sorter.keeps m out).1 found) all
        (sorter.sorted out) in
    (
      first,
      rest,
      lookup_sorted sorter d s out h ∙ ap some e',
      subst (In m) e' ((sorter.keeps m out).1 found),
      f,
    )
