-- ===== src/Destination/Paths.antt =====
-- bridge/destination/publish.go: `safeJoin` and `within`, with the lexical functions of package
-- filepath on absolute paths, as lists of components.
use rom_m_swarm.Common.{
  Text, codes, text_eq, text_eq_iff, ◌==◌, ◌≡◌, refl, sym, ap, ◌∙◌, inl, inr, Bool, true, false,
  not, ◌||◌, List, [], ◌∷◌, ◌++◌, any, length, split, trim_space, starts_with, replicate,
  Bool-cases, arith, if◌then◌else◌,
}

abbrev pub Components : Type 0
Components = List Text

-- All but the last component: "..", which at the root changes nothing.
unfoldable pub parent : Components → Components
parent [] = []
parent (c ∷ []) = []
parent (c ∷ d ∷ cs) = c ∷ parent (d ∷ cs)

-- `Clean` of an absolute path, `done` being the components that stand.
unfoldable pub clean : Components → Components → Components
clean done [] = done
clean done (c ∷ cs) =
    let skip = clean done cs in
    let up = clean (parent done) cs in
    let down = clean (done ++ c ∷ []) cs in
    if text_eq c [] || text_eq c (codes ".")
    then skip
    else if text_eq c (codes "..")
    then up
    else down

-- `Join(root, rel)` for a clean root.
unfoldable pub join_path : Components → Text → Components
join_path root rel = clean root (split b'/' rel)

-- `Rel` of two clean absolute paths: up from the root that is left, then down to the path.
unfoldable pub relative : Components → Components → Components
relative [] path = path
relative (r ∷ root) [] = replicate (length (r ∷ root)) (codes "..")
relative (r ∷ root) (c ∷ path) =
    let rest = relative root path in
    if text_eq r c then rest else replicate (length (r ∷ root)) (codes "..") ++ c ∷ path

-- `rel != ".." && !HasPrefix(rel, "../")`: the first component is not "..".
unfoldable pub stays : Components → Bool
stays [] = true
stays (c ∷ cs) = not (text_eq c (codes ".."))

unfoldable pub within : Components → Components → Bool
within path root = stays (relative root path)

pub data JoinError : Type 0 where
  no_path null_byte absolute_path escapes : JoinError

pub data Joined : Type 0 where
  joined_at : Components → Joined
  refused : JoinError → Joined

unfoldable pub safe_join : Components → Text → Joined
safe_join root rel =
    let joined = join_path root rel in
    if text_eq (trim_space rel) []
    then refused no_path
    else if any (λ c. c == 0) rel
    then refused null_byte
    else if starts_with rel (codes "/")
    then refused absolute_path
    else if not (within joined root)
    then refused escapes
    else joined_at joined

-- The path lies in the tree of the root.
abbrev pub Below : Components → Components → Type 0
Below root path = (rest : Components) × (path ≡ root ++ rest)

contradiction : false ≡ true → ⊥
contradiction h = ground arith

cons_same :
    (c r : Text) (path rest root : Components)
    → r ≡ c
    → path ≡ root ++ rest
    → c ∷ path ≡ r ∷ (root ++ rest)
cons_same c r path rest root e k = cc

branch :
    (c : Text) (path : Components) (r : Text) (root : Components) (b : Bool)
    → text_eq r c ≡ b
    → within (c ∷ path) (r ∷ root) ≡ (if b then within path root else false)
unfolding within stays relative text_eq
branch c path r root true e =
    ap
      (λ b.
        stays (
          if b then relative root path else replicate (length (r ∷ root)) (codes "..") ++ c ∷ path))
      e
branch c path r root false e =
    ap
      (λ b.
        stays (
          if b then relative root path else replicate (length (r ∷ root)) (codes "..") ++ c ∷ path))
      e

within-Below : (path root : Components) → within path root ≡ true → Below root path
unfolding within stays relative text_eq
within-Below path [] h = (path, refl)
within-Below [] (r ∷ root) h = absurd (ground arith)
within-Below (c ∷ path) (r ∷ root) h = elim (Bool-cases (text_eq r c)) [
  | inl e ↦
      let (rest, k) = within-Below path root (sym (branch c path r root true e) ∙ h) in
      (rest, cons_same c r path rest root ((text_eq_iff r c).0 e) k)
  | inr e ↦ absurd (contradiction (sym (branch c path r root false e) ∙ h))
]

-- A path that `safeJoin` accepts lies in the tree of the root.
pub safe_join-Below :
    (root path : Components) (rel : Text) → safe_join root rel ≡ joined_at path → Below root path
unfolding safe_join
safe_join-Below root path rel h =
    let inside : within (join_path root rel) root ≡ true = ground arith in
    let same : join_path root rel ≡ path = ground arith in
    within-Below path root (ap (λ x. within x root) (sym same) ∙ inside)
