-- ===== src/Protocol/Ids/Minting.antt =====
-- Identifiers that the code mints pass its own validation.
use mathlib.Core.List.{append_assoc}
use rom_m_swarm.Common.{
  ℕ, suc, ◌+◌, ◌*◌, ◌/◌, ◌%◌, Text, codes, text_eq, ◌==◌, Bool, true, ◌&&◌, [], ◌∷◌, ◌++◌, map,
  none, length, all, replicate, ◌≡◌, refl, ap, arith, holds_to, holds_to_lem, drop-append, sym,
}
use rom_m_swarm.Protocol.Ids.{
  lower_byte, upper_byte, to_lower, to_upper, has_prefix, decodes, decodes_byte, validate, digit,
  encode_bytes, encode, crockford, at,
}

length-encode_bytes : (bs : Text) → length (encode_bytes bs) ≡ (length bs * 8 + 4) / 5
unfolding encode_bytes
length-encode_bytes [] = omega arith
length-encode_bytes (a ∷ []) = omega arith
length-encode_bytes (a ∷ b ∷ []) = omega arith
length-encode_bytes (a ∷ b ∷ c ∷ []) = omega arith
length-encode_bytes (a ∷ b ∷ c ∷ d ∷ []) = omega arith
length-encode_bytes (a ∷ b ∷ c ∷ d ∷ e ∷ rest) = omega (arith, length-encode_bytes rest)

-- A byte that `ToLower` leaves alone and whose capital is in the alphabet.
is_id_byte : ℕ → Bool
is_id_byte c = lower_byte c == c && decodes_byte (upper_byte c)

digits_table : holds_to (λ i. is_id_byte (lower_byte (digit i))) 32 ≡ true
unfolding holds_to is_id_byte lower_byte upper_byte decodes_byte digit
digits_table = refl

digit_mod : (i : ℕ) → digit (i % 32) ≡ digit i
unfolding digit
digit_mod i = let e : i % 32 % 32 ≡ i % 32 = omega arith in ap (at crockford) e

digit_lem : (i : ℕ) → is_id_byte (lower_byte (digit i)) ≡ true
digit_lem i =
    rw (sym (digit_mod i))
      (holds_to_lem (λ i. is_id_byte (lower_byte (digit i))) 32 (i % 32) (omega arith) digits_table)

encode_bytes-all : (bs : Text) → all is_id_byte (map lower_byte (encode_bytes bs)) ≡ true
unfolding encode_bytes
encode_bytes-all [] = refl
encode_bytes-all (a ∷ []) = simp digit_lem
encode_bytes-all (a ∷ b ∷ []) = simp digit_lem
encode_bytes-all (a ∷ b ∷ c ∷ []) = simp digit_lem
encode_bytes-all (a ∷ b ∷ c ∷ d ∷ []) = simp digit_lem
encode_bytes-all (a ∷ b ∷ c ∷ d ∷ e ∷ rest) = simp (digit_lem, encode_bytes-all rest)

all-lower : (body : Text) → all is_id_byte body ≡ true → text_eq body (to_lower body) ≡ true
unfolding is_id_byte to_lower text_eq
all-lower [] h = refl
all-lower (c ∷ cs) h = ground (arith, all-lower cs)

all-decodes : (body : Text) → all is_id_byte body ≡ true → decodes (to_upper body) ≡ true
unfolding is_id_byte to_upper decodes
all-decodes [] h = refl
all-decodes (c ∷ cs) h = ground (arith, all-decodes cs)

has_prefix-append : (w x : Text) → has_prefix (w ++ x) w ≡ true
unfolding has_prefix
has_prefix-append [] x = refl
has_prefix-append (c ∷ cs) x = ground (arith, has_prefix-append cs x)

length-map_lower : (bs : Text) → length (map lower_byte bs) ≡ length bs
length-map_lower [] = refl
length-map_lower (b ∷ bs) = ap suc (length-map_lower bs)

-- What `validate` accepts: the prefix, then 26 bytes of the alphabet in lower case.
validate_ok :
    (prefix body : Text)
    → length body ≡ 26
    → all is_id_byte body ≡ true
    → validate prefix (prefix ++ (codes "_" ++ body)) ≡ none
unfolding validate
validate_ok prefix body len ok = rw (← append_assoc prefix (codes "_") body) (
    ground (
      arith,
      has_prefix-append (prefix ++ codes "_") body,
      drop-append (prefix ++ codes "_") body,
      all-lower body ok,
      all-decodes body ok,
      len,
    ))

-- The identifier that `encode` makes of a prefix and sixteen bytes passes `validate` for that
-- prefix.
pub validate-encode :
    (prefix body : Text) → length body ≡ 16 → validate prefix (encode prefix body) ≡ none
unfolding encode to_lower
validate-encode prefix body len =
    validate_ok prefix (map lower_byte (encode_bytes body))
      (omega (arith, length-map_lower (encode_bytes body), length-encode_bytes body))
      (encode_bytes-all body)

-- For every prefix, `validate` accepts the prefix, an underscore and 26 newlines.
pub validate_newlines :
    (prefix : Text) → validate prefix (prefix ++ (codes "_" ++ replicate 26 b'\n')) ≡ none
unfolding is_id_byte lower_byte upper_byte decodes_byte
validate_newlines prefix = validate_ok prefix (replicate 26 b'\n') refl refl
