-- ===== src/Tests/Verify.antt =====
-- Mega Drive images and the choice of an adapter at concrete inputs.
use rom_m_swarm.Common.{
  ℕ, zero, suc, ◌%◌, Text, text_eq, text_eq_iff, false, codes, ◌≡◌, refl, sym, ap, ◌∙◌, inl, inr,
  some, [], ◌∷◌, In, length, replicate, arith,
}
use rom_m_swarm.Verify.Genesis.{
  Peek, Deinterleaver, eof, genesis_smd, canonicalize_smd, smd_half_block, smd_block_size,
  detect_smd, detect_bin,
}
use rom_m_swarm.Verify.Genesis.Streaming.{read_all, smd_round_trip}
use rom_m_swarm.Verify.Registry.{Adapter, ref_text, select_adapter}
use rom_m_swarm.Verify.Registry.Order.{select_adapter_same}

length-replicate : (n c : ℕ) → length (replicate n c) ≡ n
length-replicate zero c = omega arith
length-replicate (suc n) c = omega (arith, length-replicate n c)

-- An image of one block.
image : Text
image = replicate smd_block_size 7

image-length : length image ≡ smd_block_size
unfolding image
image-length = length-replicate smd_block_size 7

abbrev buffers : ℕ → ℕ
buffers i = 1000

smd_round_trip_example :
    (smd : Text) × (d : Deinterleaver) × (genesis_smd image ≡ some smd)
    × (canonicalize_smd smd (length smd) ≡ some (d, length image))
    × (read_all smd_half_block buffers (suc (length image)) d ≡ some (image, eof))
smd_round_trip_example =
    smd_round_trip image buffers (omega (arith, image-length))
      (ap (λ n. n % smd_block_size) image-length) (λ i. omega arith)

abbrev plain : Adapter
plain = record {
  ref = record { id = codes "sega.genesis.bin"; version = codes "1" };
  platform = codes "genesis";
  detect = detect_bin;
}

abbrev copier : Adapter
copier = record plain {
  ref = record { id = codes "sega.genesis.smd"; version = codes "1" };
  detect = detect_smd;
}

abbrev payload : Peek
payload = record { head = codes "SEGA"; size = 4; name = codes "x.bin" }

apart : (s t : Text) → text_eq s t ≡ false → s ≡ t → ⊥
apart s t h e = ground (arith, text_eq_iff s t)

differ : text_eq (ref_text plain.ref) (ref_text copier.ref) ≡ false
unfolding text_eq
differ = refl

refs_differ : ref_text plain.ref ≡ ref_text copier.ref → ⊥
refs_differ r = apart (ref_text plain.ref) (ref_text copier.ref) differ r

swapped : (x a b : Adapter) → In x (a ∷ b ∷ []) → In x (b ∷ a ∷ [])
swapped x a b (inl e) = inr (inl e)
swapped x a b (inr (inl e)) = inl e
swapped x a b (inr (inr e)) = absurd e

refs_apart :
    (x y : Adapter)
    → In x (plain ∷ copier ∷ [])
    → In y (plain ∷ copier ∷ [])
    → ref_text x.ref ≡ ref_text y.ref
    → x ≡ y
refs_apart x y (inl e) (inl f) r = e ∙ sym f
refs_apart x y (inl e) (inr (inl f)) r =
    absurd (refs_differ (sym (ap (λ z. ref_text z.ref) e) ∙ r ∙ ap (λ z. ref_text z.ref) f))
refs_apart x y (inr (inl e)) (inl f) r =
    absurd (refs_differ (sym (sym (ap (λ z. ref_text z.ref) e) ∙ r ∙ ap (λ z. ref_text z.ref) f)))
refs_apart x y (inr (inl e)) (inr (inl f)) r = e ∙ sym f
refs_apart x y (inr (inr e)) k r = absurd e
refs_apart x y (inl e) (inr (inr f)) r = absurd f
refs_apart x y (inr (inl e)) (inr (inr f)) r = absurd f

select_adapter_same_example :
    select_adapter payload (plain ∷ copier ∷ []) ≡ select_adapter payload (copier ∷ plain ∷ [])
select_adapter_same_example =
    select_adapter_same payload (plain ∷ copier ∷ []) (copier ∷ plain ∷ [])
      (λ x h. swapped x plain copier h) (λ x h. swapped x copier plain h) refs_apart
