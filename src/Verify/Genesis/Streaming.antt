-- ===== src/Verify/Genesis/Streaming.antt =====
-- The stream of the reader: an image that was put into the copier's format is read back whole,
-- whatever the sizes of the buffers.
use rom_m_swarm.Common.{
  ℕ, zero, suc, ◌+◌, ◌*◌, ◌-◌, ◌/◌, ◌%◌, ◌≤◌, ◌<◌, Text, ltb, ◌==◌, ◌≡◌, refl, sym, ap, ◌∙◌, true,
  false, [], ◌∷◌, ◌++◌, Option, none, some, length, take, drop, length-append, arith, if◌then◌else◌,
}
use rom_m_swarm.Verify.Genesis.{
  ReadError, eof, Deinterleaver, fill, hand_out, filled, read_empty, read, new_smd_deinterleaver,
  canonicalize_smd, smd_size_shaped, smd_half_block, smd_block_size, smd_header_size,
  interleave_block, interleave, smd_header, genesis_smd,
}
use rom_m_swarm.Verify.Genesis.Blocks.{
  take-append, drop_append, interleave_block-length, deinterleave-interleave, length-take,
  length-drop, take-drop,
}

-- A reader that collects what it is given until an error, as `io.ReadAll` does, with a buffer of its
-- own size for each turn. `none` where the turns end first.
abbrev pub prepend : Text → Option (Text × ReadError) → Option (Text × ReadError)
prepend chunk none = none
prepend chunk (some (later, e)) = some (chunk ++ later, e)

abbrev pub read_turn :
    (Text × Option ReadError) × Deinterleaver
    → (Deinterleaver → Option (Text × ReadError))
    → Option (Text × ReadError)
read_turn ((chunk, some e), d) next = some (chunk, e)
read_turn ((chunk, none), d) next = prepend chunk (next d)

unfoldable pub read_all : ℕ → (ℕ → ℕ) → ℕ → Deinterleaver → Option (Text × ReadError)
read_all half sizes zero d = none
read_all half sizes (suc turns) d =
    read_turn (read half (sizes turns) d) (read_all half sizes turns)

-- The length of some whole blocks.
abbrev pub whole : ℕ → ℕ → ℕ
whole half zero = 0
whole half (suc k) = (half + half) + whole half k

append_assoc : (s t u : Text) → (s ++ t) ++ u ≡ s ++ (t ++ u)
append_assoc [] t u = refl
append_assoc (c ∷ s) t u = ap (λ x. c ∷ x) (append_assoc s t u)

length-drop_le : (n : ℕ) (s : Text) → length (drop n s) ≤ length s
length-drop_le zero s = omega arith
length-drop_le (suc n) [] = omega arith
length-drop_le (suc n) (c ∷ s) = omega (arith, length-drop_le n s)

length-drop_lt : (n : ℕ) (s : Text) → 1 ≤ n → 1 ≤ length s → length (drop n s) < length s
length-drop_lt zero s h k = absurd (omega arith)
length-drop_lt (suc n) [] h k = absurd (omega arith)
length-drop_lt (suc n) (c ∷ s) h k = omega (arith, length-drop_le n s)

no_bytes : (s : Text) → length s ≡ 0 → s ≡ []
no_bytes [] h = refl
no_bytes (c ∷ s) h = absurd (omega arith)

-- The bytes handed out, those pending and those that follow are the bytes before.
split_pending : (n : ℕ) (p rest : Text) → take n p ++ (drop n p ++ rest) ≡ p ++ rest
split_pending n p rest =
    sym (append_assoc (take n p) (drop n p) rest) ∙ ap (λ x. x ++ rest) (take-drop p n)

interleave-length :
    (half k : ℕ) (bin : Text)
    → length bin ≡ whole half k
    → length (interleave half k bin) ≡ whole half k
unfolding interleave
interleave-length half zero bin h = omega arith
interleave-length half (suc k) bin h = omega (
  arith,
  length-append (interleave_block (take (half + half) bin))
      (interleave half k (drop (half + half) bin)),
  interleave_block-length (take (half + half) bin) half
      (length-take bin (half + half) (whole half k) h),
  interleave-length half k (drop (half + half) bin)
      (length-drop bin (half + half) (whole half k) h),
)

module _ (half : ℕ) (positive : 1 ≤ half) (sizes : ℕ → ℕ) (some_room : (i : ℕ) → 1 ≤ sizes i) where
  -- A reader without an error before some blocks that were interleaved.
  abbrev at_blocks : ℕ → Text → Text → Deinterleaver
  at_blocks k p rest = record { src = interleave half k rest; pending = p; err = none }

  fill-at_blocks :
      (k : ℕ) (rest : Text)
      → length rest ≡ whole half (suc k)
      → fill half (at_blocks (suc k) [] rest)
        ≡ (none, at_blocks k (take (half + half) rest) (drop (half + half) rest))
  unfolding fill interleave
  fill-at_blocks k rest h =
      let block = take (half + half) rest in
      let later = interleave half k (drop (half + half) rest) in
      let taken = length-take rest (half + half) (whole half k) h in
      let full = interleave_block-length block half taken in
      let size = length-append (interleave_block block) later in
      let not_empty : (length (interleave_block block ++ later) == 0) ≡ false =
        ground (arith, size, full, positive) in
      let not_short : ltb (length (interleave_block block ++ later)) (half + half) ≡ false =
        ground (arith, size, full) in
      rw
        (
          not_empty,
          not_short,
          drop_append (interleave_block block) later (half + half) full,
          take-append (interleave_block block) later (half + half) full,
          deinterleave-interleave block half taken,
        )
        refl

  read_turn-end :
      (n : ℕ) (rest : Text) (next : Deinterleaver → Option (Text × ReadError))
      → rest ≡ []
      → read_turn (filled n (fill half (at_blocks 0 [] rest))) next ≡ some (rest, eof)
  unfolding fill interleave
  read_turn-end n rest next e = rw e refl

  read-pending :
      (n : ℕ) (src : Text) (c : ℕ) (p : Text)
      → read half n (record { src = src; pending = c ∷ p; err = none })
        ≡ hand_out n (record { src = src; pending = c ∷ p; err = none })
  unfolding read
  read-pending n src c p =
      let d : Deinterleaver = record { src = src; pending = c ∷ p; err = none } in
      let e : ltb 0 (suc (length p)) ≡ true = ground arith in
      ap (λ b. if b then hand_out n d else read_empty half n none d) e

  read_all-at_blocks :
      (turns k : ℕ) (p rest : Text)
      → length rest ≡ whole half k
      → length p + length rest < turns
      → read_all half sizes turns (at_blocks k p rest) ≡ some (p ++ rest, eof)
  unfolding read_all read
  read_all-at_blocks zero k p rest h enough = absurd (omega arith)
  read_all-at_blocks (suc turns) k (c ∷ p) rest h enough =
      let n = sizes turns in
      ap (λ x. read_turn x (read_all half sizes turns))
        (read-pending n (interleave half k rest) c p)
      ∙ ap (prepend (take n (c ∷ p))) (
          read_all-at_blocks turns k (drop n (c ∷ p)) rest h
            (omega (arith, length-drop_lt n (c ∷ p) (some_room turns) (omega arith))))
      ∙ ap (λ x. some (x, eof)) (split_pending n (c ∷ p) rest)
  read_all-at_blocks (suc turns) zero [] rest h enough =
      read_turn-end (sizes turns) rest (read_all half sizes turns) (no_bytes rest h)
  read_all-at_blocks (suc turns) (suc k) [] rest h enough =
      let n = sizes turns in
      let b = take (half + half) rest in
      let later = drop (half + half) rest in
      let there = length-drop rest (half + half) (whole half k) h in
      let here = length-take rest (half + half) (whole half k) h in
      ap (λ x. read_turn (filled n x) (read_all half sizes turns)) (fill-at_blocks k rest h)
      ∙ ap (prepend (take n b)) (
          read_all-at_blocks turns k (drop n b) later there (
            omega
              (arith, here, there, h, length-drop_lt n b (some_room turns) (omega (arith, here)))))
      ∙ ap (λ x. some (x, eof)) (split_pending n b later ∙ take-drop rest (half + half))

whole_lem : (k : ℕ) → whole smd_half_block k ≡ k * smd_block_size
whole_lem zero = omega arith
whole_lem (suc k) = omega (arith, whole_lem k)

take_all : (s : Text) (n : ℕ) → length s ≡ n → take n s ≡ s
take_all [] zero h = refl
take_all [] (suc n) h = refl
take_all (c ∷ s) zero h = absurd (omega arith)
take_all (c ∷ s) (suc n) h = ap (λ t. c ∷ t) (take_all s n (omega arith))

header-length : (blocks : ℕ) → length (smd_header blocks) ≡ smd_header_size
unfolding smd_header
header-length blocks = refl

shaped_lem :
    (size m : ℕ)
    → size ≡ smd_header_size + m
    → 1 ≤ m
    → m % smd_block_size ≡ 0
    → smd_size_shaped size ≡ true
unfolding smd_size_shaped
shaped_lem size m h k l = ground arith

canonicalize_lem :
    (src body : Text) (size m : ℕ)
    → smd_size_shaped size ≡ true
    → size - smd_header_size ≡ m
    → take m (drop smd_header_size src) ≡ body
    → canonicalize_smd src size ≡ some (new_smd_deinterleaver body, m)
unfolding canonicalize_smd
canonicalize_lem src body size m shaped minus section = rw (shaped, minus, section) refl

encoded_lem :
    (bin : Text)
    → length bin % smd_block_size ≡ 0
    → genesis_smd bin
      ≡ some (
          smd_header (length bin / smd_block_size)
          ++ interleave smd_half_block (length bin / smd_block_size) bin)
unfolding genesis_smd
encoded_lem bin h =
    let whole_blocks : (length bin % smd_block_size == 0) ≡ true = ground arith in
    simp whole_blocks refl

-- An image that is not empty and consists of whole blocks, put into the Super Magic Drive format
-- by the encoder of the fixtures, is accepted by `Canonicalize` with the size of the image, and
-- reading the stream, whatever the sizes of the buffers as long as none is empty, gives the
-- image and then the end within one turn more than the image has bytes.
pub smd_round_trip :
    (bin : Text) (sizes : ℕ → ℕ)
    → 1 ≤ length bin
    → length bin % smd_block_size ≡ 0
    → ((i : ℕ) → 1 ≤ sizes i)
    → (smd : Text) × (d : Deinterleaver) × (genesis_smd bin ≡ some smd)
      × (canonicalize_smd smd (length smd) ≡ some (d, length bin))
      × (read_all smd_half_block sizes (suc (length bin)) d ≡ some (bin, eof))
unfolding new_smd_deinterleaver
smd_round_trip bin sizes some_bytes blocks room =
    let k = length bin / smd_block_size in
    let body = interleave smd_half_block k bin in
    let sized : length bin ≡ whole smd_half_block k = omega (arith, whole_lem k, blocks) in
    let body_size = interleave-length smd_half_block k bin sized in
    let total : length (smd_header k ++ body) ≡ smd_header_size + length bin =
      omega (arith, length-append (smd_header k) body, header-length k, body_size, sized) in
    let section : take (length bin) (drop smd_header_size (smd_header k ++ body)) ≡ body =
      ap (take (length bin)) (drop_append (smd_header k) body smd_header_size (header-length k))
      ∙ take_all body (length bin) (omega (arith, body_size, sized)) in
    (
      smd_header k ++ body,
      new_smd_deinterleaver body,
      encoded_lem bin blocks,
      canonicalize_lem (smd_header k ++ body) body _ (length bin)
          (shaped_lem _ (length bin) total some_bytes blocks) (omega (arith, total)) section,
      read_all-at_blocks smd_half_block (omega arith) sizes room (suc (length bin)) k [] bin sized
          (omega arith),
    )
