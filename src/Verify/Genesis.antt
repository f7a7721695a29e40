-- ===== src/Verify/Genesis.antt =====
-- verify/genesis.go: Mega Drive images, plain and in the Super Magic Drive format, with `Peek` of
-- verify/adapter.go and the encoder of internal/romfixture/romfixture.go.
pub mod Blocks
pub mod Streaming
use rom_m_swarm.Common.{
  ℕ, zero, suc, ◌+◌, ◌-◌, ◌*◌, ◌/◌, ◌%◌, Text, codes, text_eq, ◌==◌, ltb, leb, Bool, true, false,
  not, ◌&&◌, ◌||◌, List, [], ◌∷◌, ◌++◌, Option, none, some, length, take, drop, get_elem?,
  replicate, if◌then◌else◌,
}
use rom_m_swarm.Verify.{Confidence, confidence_none, confidence_strong}

-- The first bytes of a payload, its size and its name.
pub record Peek : Type 0 where
  pub head : Text
  pub size : ℕ
  pub name : Text

-- `At`
abbrev pub byte_at : Peek → ℕ → Option ℕ
byte_at p offset = get_elem? p.head offset

-- `Range`
unfoldable pub byte_range : Peek → ℕ → ℕ → Option Text
byte_range p from to =
    if ltb to from || ltb (length p.head) to
    then none
    else some (take (to - from) (drop from p.head))

abbrev pub smd_header_size : ℕ
smd_header_size = 512

abbrev pub smd_half_block : ℕ
smd_half_block = 8192

abbrev pub smd_block_size : ℕ
smd_block_size = smd_half_block + smd_half_block

abbrev pub console_name_offset : ℕ
console_name_offset = 256

abbrev is_token : Option Text → Bool
is_token none = false
is_token (some got) = text_eq got (codes "SEGA")

unfoldable pub genesis_console_name : Peek → Bool
genesis_console_name p =
    is_token (byte_range p console_name_offset (console_name_offset + 4))
    || is_token (byte_range p (console_name_offset + 1) (console_name_offset + 5))

unfoldable pub detect_bin : Peek → Confidence
detect_bin p =
    if ltb p.size (console_name_offset + 16)
    then confidence_none
    else if genesis_console_name p
    then confidence_strong
    else confidence_none

unfoldable pub smd_size_shaped : ℕ → Bool
smd_size_shaped size = ltb smd_header_size size && (size - smd_header_size) % smd_block_size == 0

abbrev is_byte : ℕ → Option ℕ → Bool
is_byte want none = false
is_byte want (some b) = b == want

unfoldable pub detect_smd : Peek → Confidence
detect_smd p =
    if not (smd_size_shaped p.size)
    then confidence_none
    else if is_byte 170 (byte_at p 8) && is_byte 187 (byte_at p 9)
    then confidence_strong
    else confidence_none

-- The loop of `fill`: out[2i] from the second half of the block, out[2i + 1] from the first.
unfoldable pub weave : Text → Text → Text
weave [] odds = []
weave (e ∷ evens) [] = []
weave (e ∷ evens) (o ∷ odds) = e ∷ o ∷ weave evens odds

unfoldable pub deinterleave_block : ℕ → Text → Text
deinterleave_block half block = weave (drop half block) (take half block)

pub data ReadError : Type 0 where
  eof truncated : ReadError

-- The stream: what its source has left, what of the block is not handed out yet, and the error kept.
pub record Deinterleaver : Type 0 where
  pub src : Text
  pub pending : Text
  pub err : Option ReadError

-- `fill`: one block, or the error.
unfoldable pub fill : ℕ → Deinterleaver → Option ReadError × Deinterleaver
fill half d =
    if length d.src == 0
    then (some eof, d)
    else if ltb (length d.src) (half + half)
    then (some truncated, record d { src = [] })
    else (
      none,
      record d {
        src = drop (half + half) d.src;
        pending = deinterleave_block half (take (half + half) d.src);
      },
    )

-- What `Read` hands out of the block for a buffer.
abbrev pub hand_out : ℕ → Deinterleaver → (Text × Option ReadError) × Deinterleaver
hand_out buffer d = ((take buffer d.pending, none), record d { pending = drop buffer d.pending })

abbrev pub filled : ℕ → Option ReadError × Deinterleaver → (Text × Option ReadError) × Deinterleaver
filled buffer (none, d) = hand_out buffer d
filled buffer (some e, d) = (([], some e), record d { err = some e })

abbrev pub read_empty :
    ℕ → ℕ → Option ReadError → Deinterleaver → (Text × Option ReadError) × Deinterleaver
read_empty half buffer (some e) d = (([], some e), d)
read_empty half buffer none d = filled buffer (fill half d)

-- `Read` into a buffer of this length. A block is not empty, so the loop fills at most once.
unfoldable pub read : ℕ → ℕ → Deinterleaver → (Text × Option ReadError) × Deinterleaver
read half buffer d =
    if ltb 0 (length d.pending) then hand_out buffer d else read_empty half buffer d.err d

-- `newSMDDeinterleaver` over the section behind the header.
unfoldable pub new_smd_deinterleaver : Text → Deinterleaver
new_smd_deinterleaver src = record { src = src; pending = []; err = none }

-- `Canonicalize`: the stream and its size.
unfoldable pub canonicalize_smd : Text → ℕ → Option (Deinterleaver × ℕ)
canonicalize_smd src size =
    if not (smd_size_shaped size)
    then none
    else (let body = size - smd_header_size in
        some (new_smd_deinterleaver (take body (drop smd_header_size src)), body))

-- The encoder's block: the bytes at odd positions, then those at even positions.
unfoldable pub evens : Text → Text
evens [] = []
evens (c ∷ []) = c ∷ []
evens (c ∷ d ∷ cs) = c ∷ evens cs

unfoldable pub odds : Text → Text
odds [] = []
odds (c ∷ []) = []
odds (c ∷ d ∷ cs) = d ∷ odds cs

unfoldable pub interleave_block : Text → Text
interleave_block block = odds block ++ evens block

unfoldable pub interleave : ℕ → ℕ → Text → Text
interleave half zero bin = []
interleave half (suc blocks) bin =
    interleave_block (take (half + half) bin) ++ interleave half blocks (drop (half + half) bin)

-- The header: the number of blocks as a byte, 3, the identifying bytes, and zeros.
unfoldable pub smd_header : ℕ → Text
smd_header blocks = blocks % 256 ∷ 3 ∷ 0 ∷ 0 ∷ 0 ∷ 0 ∷ 0 ∷ 0 ∷ 170 ∷ 187 ∷ 6 ∷ replicate 501 0

unfoldable pub genesis_smd : Text → Option Text
genesis_smd bin =
    if not (length bin % smd_block_size == 0)
    then none
    else (let blocks = length bin / smd_block_size in
        some (smd_header blocks ++ interleave smd_half_block blocks bin))
