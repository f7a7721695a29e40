-- ===== src/Protocol/Ids.antt =====
-- protocol/ids.go: typed identifiers. Strings are ASCII here: on such strings `strings.ToLower`
-- and `strings.ToUpper` act byte by byte. SHA-256 and the random bytes are arguments.
pub mod Minting
use rom_m_swarm.Common.{
  ℕ, suc, zero, ◌+◌, ◌-◌, ◌*◌, ◌/◌, ◌%◌, ◌^◌, Text, codes, text_eq, ◌==◌, leb, ltb, Bool, true,
  false, not, ◌&&◌, ◌||◌, List, [], ◌∷◌, ◌++◌, map, Option, none, some, length, take, drop, any,
  all, if◌then◌else◌,
}

-- uint64, with its wrap-around.
abbrev pub Revision : Type 0
Revision = ℕ

unfoldable pub is_zero : Revision → Bool
is_zero r = r == 0

unfoldable pub next : Revision → Revision
next r = (r + 1) % 2 ^ 64

abbrev pub crockford : Text
crockford = codes "0123456789ABCDEFGHJKMNPQRSTVWXYZ"

abbrev pub id_bytes : ℕ
id_bytes = 16

unfoldable pub lower_byte : ℕ → ℕ
lower_byte c = if leb b'A' c && leb c b'Z' then c + 32 else c

unfoldable pub upper_byte : ℕ → ℕ
upper_byte c = if leb b'a' c && leb c b'z' then c - 32 else c

unfoldable pub to_lower : Text → Text
to_lower = map lower_byte

unfoldable pub to_upper : Text → Text
to_upper = map upper_byte

unfoldable pub has_prefix : Text → Text → Bool
has_prefix s [] = true
has_prefix [] (w ∷ ws) = false
has_prefix (c ∷ cs) (w ∷ ws) = c == w && has_prefix cs ws

-- What `DecodeString` of encoding/base32 refuses, without padding: it drops carriage returns
-- and newlines first, and each other byte must stand in the alphabet.
unfoldable pub decodes_byte : ℕ → Bool
decodes_byte c = c == b'\n' || c == b'\r' || any (λ a. a == c) crockford

unfoldable pub decodes : Text → Bool
decodes = all decodes_byte

pub data IdError : Type 0 where
  bad_prefix bad_length not_lowercase not_base32 : IdError

-- The error of `validate`, `none` for nil.
unfoldable pub validate : Text → Text → Option IdError
unfolding has_prefix to_lower to_upper decodes decodes_byte
validate prefix s =
    let want = prefix ++ codes "_" in
    let body = drop (length want) s in
    if not (has_prefix s want)
    then some bad_prefix
    else if not (length body == 26)
    then some bad_length
    else if not (text_eq body (to_lower body))
    then some not_lowercase
    else if not (decodes (to_upper body))
    then some not_base32
    else none

abbrev pub prefix_bridge : Text
prefix_bridge = codes "brg"

abbrev pub prefix_swarm : Text
prefix_swarm = codes "swm"

abbrev pub prefix_grant : Text
prefix_grant = codes "grt"

abbrev pub prefix_file : Text
prefix_file = codes "fil"

abbrev pub prefix_alias : Text
prefix_alias = codes "sba"

-- A digit of the alphabet, at an index below 32.
at : List ℕ → ℕ → ℕ
at [] i = 0
at (x ∷ xs) zero = x
at (x ∷ xs) (suc i) = at xs i

unfoldable pub digit : ℕ → ℕ
unfolding at
digit i = at crockford (i % 32)

-- `EncodeToString` of encoding/base32, without padding: five bytes give eight digits.
unfoldable pub encode_bytes : Text → Text
unfolding digit
encode_bytes [] = []
encode_bytes (a ∷ []) = digit (a / 8) ∷ digit (a * 4) ∷ []
encode_bytes (a ∷ b ∷ []) =
    digit (a / 8) ∷ digit (a * 4 + b / 64) ∷ digit (b / 2) ∷ digit (b * 16) ∷ []
encode_bytes (a ∷ b ∷ c ∷ []) =
    digit (a / 8)
    ∷ digit (a * 4 + b / 64)
    ∷ digit (b / 2)
    ∷ digit (b * 16 + c / 16)
    ∷ digit (c * 2)
    ∷ []
encode_bytes (a ∷ b ∷ c ∷ d ∷ []) =
    digit (a / 8)
    ∷ digit (a * 4 + b / 64)
    ∷ digit (b / 2)
    ∷ digit (b * 16 + c / 16)
    ∷ digit (c * 2 + d / 128)
    ∷ digit (d / 4)
    ∷ digit (d * 8)
    ∷ []
encode_bytes (a ∷ b ∷ c ∷ d ∷ e ∷ rest) =
    digit (a / 8)
    ∷ digit (a * 4 + b / 64)
    ∷ digit (b / 2)
    ∷ digit (b * 16 + c / 16)
    ∷ digit (c * 2 + d / 128)
    ∷ digit (d / 4)
    ∷ digit (d * 8 + e / 32)
    ∷ digit e
    ∷ encode_bytes rest

unfoldable pub encode : Text → Text → Text
unfolding encode_bytes to_lower
encode prefix body = prefix ++ (codes "_" ++ to_lower (encode_bytes body))

-- The eight bytes of a length, most significant first.
unfoldable pub length_bytes : ℕ → Text
length_bytes n =
    n / 2 ^ 56 % 256
    ∷ n / 2 ^ 48 % 256
    ∷ n / 2 ^ 40 % 256
    ∷ n / 2 ^ 32 % 256
    ∷ n / 2 ^ 24 % 256
    ∷ n / 2 ^ 16 % 256
    ∷ n / 2 ^ 8 % 256
    ∷ n % 256
    ∷ []

-- SHA-256, as far as the code relies on it: a function of the bytes into at least 16 bytes.
module _ (sha256 : Text → Text) where
  framed : List Text → Text
  unfolding length_bytes
  framed [] = []
  framed (p ∷ ps) = length_bytes (length p) ++ (p ++ framed ps)

  unfoldable pub derive : Text → List Text → Text
  unfolding framed
  derive domain parts = take id_bytes (sha256 (domain ++ framed parts))

  unfoldable pub file_id_from_canonical_digest : Text → Text
  unfolding derive encode to_lower
  file_id_from_canonical_digest sha256_hex =
      encode prefix_file (derive (codes "romm-swarm/id/file/v1") (to_lower sha256_hex ∷ []))

  unfoldable pub bridge_id_from_public_key : Text → Text
  unfolding derive encode
  bridge_id_from_public_key key =
      encode prefix_bridge (derive (codes "romm-swarm/id/bridge/v1") (key ∷ []))
