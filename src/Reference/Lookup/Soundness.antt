-- ===== src/Reference/Lookup/Soundness.antt =====
-- What `Lookup` finds, and that it does not panic on a catalogue that was indexed.
use rom_m_swarm.Common.{
  ℕ, suc, Text, ◌==◌, ◌≡◌, ◌↔◌, ◌⊎◌, inl, inr, refl, sym, ap, subst, ◌∙◌, Bool, true, false, List,
  [], ◌∷◌, Option, none, some, get_elem?, All, In, All-In, Table, bucket, tabulate, tabulate_lem,
  Sorter, Ordered, Bool-cases, arith,
}
use rom_m_swarm.Protocol.Digest.{Digest, normalized, compare, strength_none}
use rom_m_swarm.Reference.{Entry, Set, known_sum, index_entry, index_from, index}
use rom_m_swarm.Reference.Lookup.{
  Match, candidates, keep, recheck_one, recheck, comes_before, sort_matches, lookup,
}

-- The indexes of a table that `index` filled by one of the sums.
abbrev Filled : (Digest → Text) → List Entry → Table
Filled sum es = tabulate (λ e. known_sum (sum (normalized e.digest))) 0 es []

abbrev pub sum_key : (Digest → Text) → Entry → Option Text
sum_key sum e = known_sum (sum (normalized e.digest))

index_from_lem :
    (i : ℕ) (es : List Entry) (s : Set)
    → (index_from i es s) ≡ record s {
      by_sha256 = tabulate (sum_key Digest.sha256) i es s.by_sha256;
      by_sha1 = tabulate (sum_key Digest.sha1) i es s.by_sha1;
      by_md5 = tabulate (sum_key Digest.md5) i es s.by_md5;
      by_crc = tabulate (sum_key Digest.crc32) i es s.by_crc;
    }
unfolding index_from index_entry tabulate
index_from_lem i [] s = refl
index_from_lem i (e ∷ es) s = index_from_lem (suc i) es (index_entry i e s)

-- The index stands for an entry.
abbrev pub InRange : List Entry → ℕ → Type 0
InRange es i = (e : Entry) × (get_elem? es i ≡ some e)

bucket-InRange :
    (sum : Digest → Text) (es : List Entry) (k : Text) (i : ℕ)
    → In i (bucket k (tabulate (sum_key sum) 0 es []))
    → InRange es i
bucket-InRange sum es k i h = let (e, f, g) = (tabulate_lem (sum_key sum) k i es).0 h in (e, f)

-- What holds of each bucket that the switch may choose, and of no candidates.
candidates-cases {κ} :
    (P : List ℕ → Type κ) (d : Digest) (s : Set)
    → P (bucket d.sha256 s.by_sha256)
    → P (bucket d.sha1 s.by_sha1)
    → P (bucket d.md5 s.by_md5)
    → P (bucket d.crc32 s.by_crc)
    → P []
    → P (candidates d s)
unfolding candidates
candidates-cases P d s h i j k l = ground arith

pub indexed_lem :
    (s : Set)
    → index s ≡ record s {
      by_sha256 = tabulate (sum_key Digest.sha256) 0 s.entries [];
      by_sha1 = tabulate (sum_key Digest.sha1) 0 s.entries [];
      by_md5 = tabulate (sum_key Digest.md5) 0 s.entries [];
      by_crc = tabulate (sum_key Digest.crc32) 0 s.entries [];
    }
unfolding index
indexed_lem s =
    index_from_lem 0 s.entries (record s { by_sha256 = []; by_sha1 = []; by_md5 = []; by_crc = [] })

pub entries_same : (s : Set) → (index s).entries ≡ s.entries
entries_same s = rw (indexed_lem s) refl

pub candidates-InRange :
    (d : Digest) (s : Set) (i : ℕ) → In i (candidates d (index s)) → InRange s.entries i
candidates-InRange d s i = rw (indexed_lem s) (
    candidates-cases (λ is. In i is → InRange s.entries i) d _
      (bucket-InRange Digest.sha256 s.entries d.sha256 i)
      (bucket-InRange Digest.sha1 s.entries d.sha1 i) (bucket-InRange Digest.md5 s.entries d.md5 i)
      (bucket-InRange Digest.crc32 s.entries d.crc32 i) absurd)

pub recheck_total :
    (d : Digest) (es : List Entry) (is : List ℕ)
    → ((i : ℕ) → In i is → InRange es i)
    → (out : List Match) × (recheck d es is ≡ some out)
unfolding recheck
recheck_total d es [] h = ([], refl)
recheck_total d es (i ∷ is) h =
    let (e, f) = h i (inl refl) in
    let (out, g) = recheck_total d es is (λ j k. h j (inr k)) in
    (keep i e (compare d e.digest) out, rw (f, g) refl)

-- A match is an entry of the catalogue, at its index, with which the whole comparison agrees.
abbrev pub Confirmed : Digest → List Entry → Match → Type 0
Confirmed d es m =
    (get_elem? es m.index ≡ some m.entry)
    × (compare d m.entry.digest ≡ (m.strength, true))
    × ((m.strength == strength_none) ≡ false)

module _ (i : ℕ) (e : Entry) (out : List Match) where
  -- What `keep` puts before the matches that follow.
  abbrev Kept : ℕ × Bool → Match → Type 0
  Kept r m =
      (m ≡ record { index = i; entry = e; strength = r.0 })
      × (r.1 ≡ true)
      × ((r.0 == strength_none) ≡ false)

  keep-cases : (r : ℕ × Bool) (m : Match) → In m (keep i e r out) ↔ (Kept r m ⊎ In m out)
  keep-cases (st, false) m = (λ h. inr h, λ h. elim h [ inl k ↦ absurd cc | inr k ↦ k ])
  keep-cases (st, true) m = elim (Bool-cases (st == strength_none)) [
    | inl n ↦ rw n (λ h. inr h, λ h. elim h [ inl k ↦ absurd cc | inr k ↦ k ])
    | inr n ↦ rw n (
      λ h. elim h [ inl k ↦ inl (k, refl, refl) | inr k ↦ inr k ],
      λ h. elim h [ inl k ↦ inl k.0 | inr k ↦ inr k ],
    )
  ]

-- Where a lookup does not panic, its first candidate is an entry and the others do not either.
recheck_step :
    (d : Digest) (i : ℕ) (o : Option Entry) (rest : Option (List Match)) (out : List Match)
    → recheck_one d i o rest ≡ some out
    → (e : Entry) × (ms : List Match) × (o ≡ some e)
      × (rest ≡ some ms)
      × (out ≡ keep i e (compare d e.digest) ms)
recheck_step d i none rest out h = absurd cc
recheck_step d i (some e) none out h = absurd cc
recheck_step d i (some e) (some ms) out h = (e, ms, refl, refl, cc)

pub recheck-Confirmed :
    (d : Digest) (es : List Entry) (is : List ℕ) (out : List Match) (m : Match)
    → recheck d es is ≡ some out
    → In m out
    → Confirmed d es m
unfolding recheck
recheck-Confirmed d es [] out m h i = let e : out ≡ [] = cc in absurd (subst (In m) e i)
recheck-Confirmed d es (i ∷ is) out m h k =
    let (e, ms, f, g, l) = recheck_step d i (get_elem? es i) (recheck d es is) out h in
    elim ((keep-cases i e ms (compare d e.digest) m).0 (subst (In m) l k)) [
      | inl (a, b, c) ↦ rw a (f, cc, c)
      | inr a ↦ recheck-Confirmed d es is ms m g a
    ]

pub recheck_finds :
    (d : Digest) (es : List Entry) (is : List ℕ) (out : List Match) (m : Match)
    → recheck d es is ≡ some out
    → In m.index is
    → Confirmed d es m
    → In m out
unfolding recheck
recheck_finds d es [] out m h i c = absurd i
recheck_finds d es (i ∷ is) out m h k c =
    let (e, ms, f, g, l) = recheck_step d i (get_elem? es i) (recheck d es is) out h in
    let add = (keep-cases i e ms (compare d e.digest) m).1 in
    subst (In m) (sym l) (elim k [
      | inl a ↦
          let same : m.entry ≡ e = cc in
          let r : compare d e.digest ≡ (m.strength, true) =
            subst (λ (x : Entry). compare d x.digest ≡ (m.strength, true)) same c.1 in
          add (inl (rw (r, sym a, sym same) (refl, refl, c.2)))
      | inr b ↦ add (inr (recheck_finds d es is ms m g b c))
    ])

pub lookup_sorted :
    (sorter : Sorter comes_before) (d : Digest) (s : Set) (out : List Match)
    → recheck (normalized d) s.entries (candidates (normalized d) (index s)) ≡ some out
    → lookup sorter d (index s) ≡ some (sorter.sort out)
unfolding lookup
lookup_sorted sorter d s out h =
    ap (λ es. sort_matches sorter (recheck (normalized d) es (candidates (normalized d) (index s))))
      (entries_same s)
    ∙ ap (sort_matches sorter) h

-- A catalogue that was indexed: the lookup does not panic, every match is an entry that the whole
-- comparison confirms, and no match is stronger than one before it.
pub lookup-Confirmed :
    (sorter : Sorter comes_before) (d : Digest) (s : Set)
    → (ms : List Match) × (lookup sorter d (index s) ≡ some ms)
      × All (Confirmed (normalized d) s.entries) ms
      × Ordered comes_before ms
lookup-Confirmed sorter d s =
    let (out, h) =
      recheck_total (normalized d) s.entries (candidates (normalized d) (index s))
        (candidates-InRange (normalized d) s) in
    (
      sorter.sort out,
      lookup_sorted sorter d s out h,
      All-In (Confirmed (normalized d) s.entries) (sorter.sort out)
          (λ m k. recheck-Confirmed (normalized d) s.entries _ out m h ((sorter.keeps m out).0 k)),
      sorter.sorted out,
    )
