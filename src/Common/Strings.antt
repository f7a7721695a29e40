-- ===== src/Common/Strings.antt =====
-- What the code uses of Go's packages strings and strconv, on ASCII strings, where these functions
-- act byte by byte.
use Prim.Native.Nat.{ℕ, zero, suc, ◌+◌, ◌-◌, ◌*◌, ◌^◌}
use mathlib.Core.Bool.{Bool, true, false, not, ◌&&◌, ◌||◌}
use mathlib.Core.List.{List, [], ◌∷◌, ◌++◌}
use mathlib.Core.Option.{Option, none, some}
use rom_m_swarm.Common.Tests.{ltb, leb, ◌==◌, if◌then◌else◌}
use rom_m_swarm.Common.Texts.{Text, text_eq}
use rom_m_swarm.Common.Integers.{ℤ, pos, negsuc}

-- The bytes that `TrimSpace` and `Fields` take for spaces.
unfoldable pub is_space : ℕ → Bool
is_space c = leb 9 c && leb c 13 || c == b' '

unfoldable pub is_digit : ℕ → Bool
is_digit c = leb b'0' c && leb c b'9'

-- TrimLeftFunc and TrimRightFunc
unfoldable pub trim_left : (ℕ → Bool) → Text → Text
trim_left p [] = []
trim_left p (c ∷ cs) = if p c then trim_left p cs else c ∷ cs

unfoldable pub trim_right : (ℕ → Bool) → Text → Text
trim_right p [] = []
trim_right p (c ∷ cs) =
    let rest = trim_right p cs in if p c && text_eq rest [] then [] else c ∷ rest

unfoldable pub trim_func : (ℕ → Bool) → Text → Text
trim_func p s = trim_right p (trim_left p s)

unfoldable pub trim_space : Text → Text
trim_space = trim_func is_space

-- The words between the bytes that satisfy the test; `word` is the one that has begun.
unfoldable pub fields_from : (ℕ → Bool) → Text → Text → List Text
fields_from p word [] = if text_eq word [] then [] else word ∷ []
fields_from p word (c ∷ cs) =
    let ended = fields_from p [] cs in
    let longer = fields_from p (word ++ c ∷ []) cs in
    if not (p c) then longer else if text_eq word [] then ended else word ∷ ended

unfoldable pub fields_func : (ℕ → Bool) → Text → List Text
fields_func p s = fields_from p [] s

unfoldable pub fields : Text → List Text
fields = fields_func is_space

unfoldable pub join : Text → List Text → Text
join sep [] = []
join sep (s ∷ []) = s
join sep (s ∷ t ∷ ss) = s ++ sep ++ join sep (t ∷ ss)

abbrev pub onto_first : ℕ → List Text → List Text
onto_first c [] = (c ∷ []) ∷ []
onto_first c (s ∷ ss) = (c ∷ s) ∷ ss

-- Split at each occurrence of a byte: at least one part.
unfoldable pub split : ℕ → Text → List Text
split sep [] = [] ∷ []
split sep (c ∷ cs) = let rest = split sep cs in if c == sep then [] ∷ rest else onto_first c rest

-- SplitN: at most n parts, the last unsplit.
unfoldable pub split_n : ℕ → ℕ → Text → List Text
split_n zero sep s = []
split_n (suc zero) sep s = s ∷ []
split_n (suc (suc n)) sep [] = [] ∷ []
split_n (suc (suc n)) sep (c ∷ cs) =
    let fewer = split_n (suc n) sep cs in
    let same = split_n (suc (suc n)) sep cs in if c == sep then [] ∷ fewer else onto_first c same

unfoldable pub starts_with : Text → Text → Bool
starts_with s [] = true
starts_with [] (w ∷ ws) = false
starts_with (c ∷ cs) (w ∷ ws) = c == w && starts_with cs ws

-- `strings.Contains`
unfoldable pub contains_text : Text → Text → Bool
contains_text [] w = starts_with [] w
contains_text (c ∷ cs) w = starts_with (c ∷ cs) w || contains_text cs w

-- A number in decimal digits, `none` where another byte stands among them.
unfoldable pub digits : ℕ → Text → Option ℕ
digits n [] = some n
digits n (c ∷ cs) = if is_digit c then digits (10 * n + (c - b'0')) cs else none

unfoldable pub unsigned : Text → Option ℕ
unsigned [] = none
unsigned (c ∷ cs) = digits 0 (c ∷ cs)

abbrev pub negate : ℕ → ℤ
negate zero = pos 0
negate (suc n) = negsuc n

-- A magnitude of an int of 64 bits.
abbrev pub signed : Bool → Option ℕ → Option ℤ
signed negative none = none
signed false (some n) = if ltb n (2 ^ 63) then some (pos n) else none
signed true (some n) = if leb n (2 ^ 63) then some (negate n) else none

-- `strconv.Atoi`, `none` for an error.
unfoldable pub atoi : Text → Option ℤ
atoi [] = none
atoi (c ∷ cs) =
    if c == b'-'
    then signed true (unsigned cs)
    else if c == b'+'
    then signed false (unsigned cs)
    else signed false (unsigned (c ∷ cs))

-- `strings.HasSuffix(s, w)`
unfoldable pub is_suffix : Text → Text → Bool
is_suffix w [] = text_eq [] w
is_suffix w (c ∷ cs) = text_eq (c ∷ cs) w || is_suffix w cs
