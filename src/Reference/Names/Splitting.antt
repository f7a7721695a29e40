-- ===== src/Reference/Names/Splitting.antt =====
-- `splitTags`: its fuel is enough, and a tag at the end of a name is the last tag of the name.
use rom_m_swarm.Common.{
  ℕ, zero, suc, ◌+◌, ◌<◌, ◌≤◌, Text, codes, ◌==◌, ◌≡◌, refl, sym, ap, ◌∙◌, inl, inr, Bool, false,
  List, [], ◌∷◌, ◌++◌, Option, none, some, any, length, last?, last?-append, length-append,
  is_space, trim_space, trim_space-length, trim_space-keeps, trim_space-drops, Bool-cases,
  Option-cases, arith, if◌then◌else◌,
}
use rom_m_swarm.Reference.Names.{
  cut_here, cut_last, drop_last, opening, group_of, peel_by, peel, split_turn, split_loop,
  split_tags,
}

cut_here-length :
    (sep c : ℕ) (cs before after : Text)
    → cut_here sep c cs none ≡ some (before, after)
    → length before < length (c ∷ cs)
cut_here-length sep c cs before after h = elim (Bool-cases (c == sep)) [
  | inl e ↦
      let whole : ◌≡◌ {A = Option (Text × Text)} (some ([], cs)) (some (before, after)) =
        ap (λ b. if b then some ([], cs) else none) (sym e) ∙ h in
      let same : before ≡ [] = cc in rw same (omega arith)
  | inr e ↦ absurd (ground arith)
]

cut_last-length :
    (sep : ℕ) (s before after : Text)
    → cut_last sep s ≡ some (before, after)
    → length before < length s
unfolding cut_last
cut_last-length sep [] before after h = absurd cc
cut_last-length sep (c ∷ cs) before after h = elim (Option-cases (cut_last sep cs)) [
  | inl e ↦ cut_here-length sep c cs before after (ap (cut_here sep c cs) (sym e) ∙ h)
  | inr ((b, a), e) ↦
      let whole : ◌≡◌ {A = Option (Text × Text)} (some (c ∷ b, a)) (some (before, after)) =
        ap (cut_here sep c cs) (sym e) ∙ h in
      let same : before ≡ c ∷ b = cc in rw same (omega (arith, cut_last-length sep cs b a e))
]

group_of-length :
    (o : Option (Text × Text)) (before tag : Text)
    → group_of o ≡ some (before, tag)
    → (after : Text) × (o ≡ some (before, after))
group_of-length none before tag h = absurd cc
group_of-length (some (b, a)) before tag h =
    let same : b ≡ before = cc in (a, ap (λ x. some (x, a)) same)

peel_by-length :
    (o : Option ℕ) (s before tag : Text)
    → peel_by o s ≡ some (before, tag)
    → length before < length s
peel_by-length none s before tag h = absurd cc
peel_by-length (some bracket) s before tag h =
    let (after, e) = group_of-length (cut_last bracket s) before tag h in
    cut_last-length bracket s before after e

peel-length : (s before tag : Text) → peel s ≡ some (before, tag) → length before < length s
unfolding peel
peel-length s before tag h = peel_by-length (opening (last? s)) s before tag h

split_enough :
    (fuel : ℕ) (base : Text) (tags : List Text)
    → length base < fuel
    → (r : List Text × Text) × (split_loop fuel base tags ≡ some r)
unfolding split_loop
split_enough zero base tags h = absurd (omega arith)
split_enough (suc fuel) base tags h = elim (Option-cases (peel (trim_space base))) [
  | inl e ↦ rw e ((tags, trim_space base), refl)
  | inr ((before, tag), e) ↦ rw e (
      split_enough fuel before (tag ∷ tags)
        (omega (arith, h, peel-length (trim_space base) before tag e, trim_space-length base)))
]

split_fuel :
    (fuel more : ℕ) (base : Text) (tags : List Text)
    → length base < fuel
    → length base < more
    → split_loop fuel base tags ≡ split_loop more base tags
unfolding split_loop
split_fuel zero more base tags h k = absurd (omega arith)
split_fuel (suc fuel) zero base tags h k = absurd (omega arith)
split_fuel (suc fuel) (suc more) base tags h k = elim (Option-cases (peel (trim_space base))) [
  | inl e ↦ rw e refl
  | inr ((before, tag), e) ↦
      let short = peel-length (trim_space base) before tag e in
      rw e (
        split_fuel fuel more before (tag ∷ tags) (omega (arith, h, short, trim_space-length base))
          (omega (arith, k, short, trim_space-length base)))
]

-- Tags to the right of what a loop finds.
abbrev pub followed_by : List Text → Option (List Text × Text) → Option (List Text × Text)
followed_by right none = none
followed_by right (some (tags, base)) = some (tags ++ right, base)

split_right :
    (fuel : ℕ) (base : Text) (tags right : List Text)
    → split_loop fuel base (tags ++ right) ≡ followed_by right (split_loop fuel base tags)
unfolding split_loop
split_right zero base tags right = refl
split_right (suc fuel) base tags right = elim (Option-cases (peel (trim_space base))) [
  | inl e ↦ rw e refl
  | inr ((before, tag), e) ↦ rw e (split_right fuel before (tag ∷ tags) right)
]

cut_last-none : (sep : ℕ) (s : Text) → any (λ c. c == sep) s ≡ false → cut_last sep s ≡ none
unfolding cut_last
cut_last-none sep [] h = refl
cut_last-none sep (c ∷ cs) h = rw (cut_last-none sep cs (ground arith)) (ground arith)

cut_last-here :
    (sep : ℕ) (before after : Text)
    → any (λ c. c == sep) after ≡ false
    → cut_last sep (before ++ sep ∷ after) ≡ some (before, after)
unfolding cut_last
cut_last-here sep [] after h = rw (cut_last-none sep after h) (ground arith)
cut_last-here sep (c ∷ cs) after h = rw (cut_last-here sep cs after h) refl

drop_last-append : (s : Text) (x : ℕ) → drop_last (s ++ x ∷ []) ≡ s
unfolding drop_last
drop_last-append [] x = refl
drop_last-append (c ∷ []) x = refl
drop_last-append (c ∷ d ∷ s) x = ap (λ t. c ∷ t) (drop_last-append (d ∷ s) x)

any-append :
    (p : ℕ → Bool) (s : Text) (x : ℕ) → any p s ≡ false → p x ≡ false → any p (s ++ x ∷ []) ≡ false
any-append p [] x h k = ground arith
any-append p (c ∷ s) x h k = ground (arith, any-append p s x)

append_assoc : (s t u : Text) → (s ++ t) ++ u ≡ s ++ (t ++ u)
append_assoc [] t u = refl
append_assoc (c ∷ s) t u = ap (λ x. c ∷ x) (append_assoc s t u)

-- A name with a tag in parentheses.
abbrev pub tagged : Text → Text → Text
tagged base tag = base ++ (codes " (" ++ (tag ++ codes ")"))

-- The same, with the last byte apart, and with the bracket apart.
tagged_last : (base tag : Text) → tagged base tag ≡ (base ++ (codes " (" ++ tag)) ++ b')' ∷ []
tagged_last base tag = sym (append_assoc base (codes " (" ++ tag) (b')' ∷ []))

tagged_cut : (base tag : Text) → tagged base tag ≡ (base ++ b' ' ∷ []) ++ b'(' ∷ (tag ++ b')' ∷ [])
tagged_cut base tag = sym (append_assoc base (b' ' ∷ []) (b'(' ∷ (tag ++ b')' ∷ [])))

peel-tagged :
    (base tag : Text)
    → any (λ c. c == b'(') tag ≡ false
    → peel (tagged base tag) ≡ some (base ++ b' ' ∷ [], trim_space tag)
unfolding peel
peel-tagged base tag h =
    let last : last? (tagged base tag) ≡ some b')' =
      ap last? (tagged_last base tag) ∙ last?-append (base ++ (codes " (" ++ tag)) b')' in
    let cut : cut_last b'(' (tagged base tag) ≡ some (base ++ b' ' ∷ [], tag ++ b')' ∷ []) =
      ap (cut_last b'(') (tagged_cut base tag)
      ∙ cut_last-here b'(' (base ++ b' ' ∷ []) (tag ++ b')' ∷ [])
          (any-append (λ c. c == b'(') tag b')' h refl) in
    ap (λ o. peel_by (opening o) (tagged base tag)) last
    ∙ ap group_of cut
    ∙ ap (λ t. some (base ++ b' ' ∷ [], trim_space t)) (drop_last-append tag b')')

-- The loop of `splitTags` ends within one turn more than the name has bytes.
pub split_tags_total : (s : Text) → (r : List Text × Text) × (split_tags s ≡ some r)
unfolding split_tags
split_tags_total s = split_enough (suc (length s)) s [] (omega arith)

tagged-length : (base tag : Text) → length base + 3 ≤ length (tagged base tag)
tagged-length base tag =
    omega
      (arith, length-append base (codes " (" ++ (tag ++ codes ")")), length-append tag (codes ")"))

-- The loop sees only what trimming leaves.
split_trimmed :
    (fuel : ℕ) (b c : Text) (tags : List Text)
    → trim_space b ≡ trim_space c
    → split_loop fuel b tags ≡ split_loop fuel c tags
unfolding split_loop
split_trimmed zero b c tags h = refl
split_trimmed (suc fuel) b c tags h = ap (λ t. split_turn (peel t) (split_loop fuel) tags t) h

-- A space, an opening parenthesis, a tag without one, and a closing parenthesis, put behind a
-- name that begins with no space, leave the base that `splitTags` finds and make the tag,
-- trimmed, the last of the tags.
pub split_tags-tagged :
    (c : ℕ) (cs tag : Text)
    → is_space c ≡ false
    → any (λ b. b == b'(') tag ≡ false
    → split_tags (tagged (c ∷ cs) tag) ≡ followed_by (trim_space tag ∷ []) (split_tags (c ∷ cs))
unfolding split_tags split_loop is_space
split_tags-tagged c cs tag h k =
    let base : Text = c ∷ cs in
    let name = tagged base tag in
    let kept : trim_space name ≡ name =
      ap trim_space (tagged_last base tag)
      ∙ trim_space-keeps c b')' (cs ++ (codes " (" ++ tag)) h refl
      ∙ sym (tagged_last base tag) in
    let turn : peel (trim_space name) ≡ some (base ++ b' ' ∷ [], trim_space tag) =
      ap peel kept ∙ peel-tagged base tag k in
    let short = tagged-length base tag in
    let longer = length-append base (b' ' ∷ []) in
    ap (λ o. split_turn o (split_loop (length name)) [] (trim_space name)) turn
    ∙ split_right (length name) (base ++ b' ' ∷ []) [] (trim_space tag ∷ [])
    ∙ ap (followed_by (trim_space tag ∷ [])) (
        split_trimmed (length name) (base ++ b' ' ∷ []) base [] (trim_space-drops c b' ' cs h refl)
        ∙ split_fuel (length name) (suc (length base)) base [] (omega (arith, short)) (omega arith))
