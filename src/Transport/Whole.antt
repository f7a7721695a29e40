-- ===== src/Transport/Whole.antt =====
-- What `Send` has written when it returns without an error.
use rom_m_swarm.Common.{
  ℕ, zero, suc, ◌+◌, ◌-◌, ◌≤◌, max, min, Text, ltb, ◌==◌, ◌≡◌, refl, sym, ap, ◌∙◌, inl, inr, Bool,
  true, false, not, List, [], ◌∷◌, ◌++◌, Option, none, some, length, take, drop, length-append, All,
  Bool-cases, arith,
}
use rom_m_swarm.Transport.{
  Write, takes_all, fails_after, Sent, write_chunk, send_from, Route, same_route, Connection,
  Delivery, note_route, resume, send,
}

-- The bytes stand in the source at the offset.
abbrev pub Stands : Text → ℕ → Text → Type 0
Stands src offset bytes =
    (rest : Text) × (drop offset src ≡ bytes ++ rest) × (offset + length bytes ≤ length src)

drop-nil : (n : ℕ) → ◌≡◌ {A = Text} (drop n []) []
drop-nil zero = refl
drop-nil (suc n) = refl

drop_twice : (o n : ℕ) (s : Text) → drop (o + n) s ≡ drop n (drop o s)
drop_twice zero n s = let e : zero + n ≡ n = omega arith in ap (λ k. drop k s) e
drop_twice (suc o) n [] = drop-nil (suc o + n) ∙ sym (drop-nil n)
drop_twice (suc o) n (c ∷ s) =
    let e : suc o + n ≡ suc (o + n) = omega arith in ap (λ k. drop k (c ∷ s)) e ∙ drop_twice o n s

drop_append : (b rest : Text) → drop (length b) (b ++ rest) ≡ rest
drop_append [] rest = refl
drop_append (c ∷ b) rest = drop_append b rest

drop_add :
    (src b rest : Text) (offset : ℕ)
    → drop offset src ≡ b ++ rest
    → drop (offset + length b) src ≡ rest
drop_add src b rest offset h =
    drop_twice offset (length b) src ∙ ap (drop (length b)) h ∙ drop_append b rest

append_assoc : (s t u : Text) → (s ++ t) ++ u ≡ s ++ (t ++ u)
append_assoc [] t u = refl
append_assoc (c ∷ s) t u = ap (λ x. c ∷ x) (append_assoc s t u)

append_nil : (s : Text) → s ++ [] ≡ s
append_nil [] = refl
append_nil (c ∷ s) = ap (λ x. c ∷ x) (append_nil s)

-- Bytes that stand after bytes that stand.
Stands-append :
    (src b c : Text) (offset : ℕ)
    → Stands src offset b
    → Stands src (offset + length b) c
    → Stands src offset (b ++ c)
Stands-append src b c offset (rest, h, k) (rest', h', k') = (
  rest',
  h ∙ ap (λ x. b ++ x) (sym (drop_add src b rest offset h) ∙ h') ∙ sym (append_assoc b c rest'),
  omega (arith, length-append b c, k'),
)

take-drop : (s : Text) (n : ℕ) → take n s ++ drop n s ≡ s
take-drop s zero = refl
take-drop [] (suc n) = refl
take-drop (c ∷ s) (suc n) = ap (λ t. c ∷ t) (take-drop s n)

length-drop : (s : Text) (n : ℕ) → length (drop n s) ≡ length s - n
length-drop s zero = omega arith
length-drop [] (suc n) = omega arith
length-drop (c ∷ s) (suc n) = omega (arith, length-drop s n)

length-take : (s : Text) (n : ℕ) → length (take n s) ≡ min n (length s)
length-take s zero = omega arith
length-take [] (suc n) = omega arith
length-take (c ∷ s) (suc n) = omega (arith, length-take s n)

-- What was read from the source stands there, as do its first bytes.
Stands-take :
    (src : Text) (offset n : ℕ) → offset ≤ length src → Stands src offset (take n (drop offset src))
Stands-take src offset n h = (
  drop n (drop offset src),
  sym (take-drop (drop offset src) n),
  omega (arith, length-take (drop offset src) n, length-drop src offset),
)

Stands-nil : (src : Text) (offset : ℕ) → offset ≤ length src → Stands src offset []
Stands-nil src offset h = (drop offset src, refl, omega arith)

Stands-first : (src b : Text) (offset k : ℕ) → Stands src offset b → Stands src offset (take k b)
Stands-first src b offset k (rest, h, l) = (
  drop k b ++ rest,
  h ∙ ap (λ x. x ++ rest) (sym (take-drop b k)) ∙ append_assoc (take k b) (drop k b) rest,
  omega (arith, length-take b k, l),
)

-- The bytes stand in the source, and without an error they reach its end.
abbrev pub Reaches : Text → ℕ → Text → Bool → Type 0
Reaches src offset bytes failed =
    Stands src offset bytes × (failed ≡ false → offset + length bytes ≡ length src)

-- The offset that a peer answers is not beyond the one that it was asked for.
abbrev pub Echoes : Option Connection → Type 0
Echoes none = Unit
Echoes (some c) = (offset : ℕ) → c.actual_offset offset ≤ offset

module _ (src : Text) (chunk : ℕ) where
  write_chunk-Reaches :
      (w : Write) (read : Text) (is_short at_end : Bool) (offset : ℕ) (next : Sent)
      → Stands src offset read
      → (at_end ≡ true → offset + length read ≡ length src)
      → Reaches src (offset + length read) next.0 next.1
      → Reaches src offset
          (write_chunk w read is_short at_end next).0
          (write_chunk w read is_short at_end next).1
  write_chunk-Reaches (fails_after k) read is_short at_end offset next h end r =
      (Stands-first src read offset k h, λ f. absurd (ground arith))
  write_chunk-Reaches takes_all read true at_end offset next h end r = (h, λ f. end (ground arith))
  write_chunk-Reaches takes_all read false at_end offset next h end r = (
    Stands-append src read next.0 offset h r.0,
    λ f. omega (arith, length-append read next.0, r.1 f),
  )

  send_from-Reaches :
      (ws : List Write) (offset : ℕ)
      → offset ≤ length src
      → Reaches src offset
          (send_from src (length src) chunk ws offset).0
          (send_from src (length src) chunk ws offset).1
  unfolding send_from
  send_from-Reaches [] offset h = (Stands-nil src offset h, λ f. ground arith)
  send_from-Reaches (w ∷ ws) offset h =
      let n = min chunk (length src - offset) in
      let read = take n (drop offset src) in
      let stands = Stands-take src offset n h in
      let fits : offset + length read ≤ length src = stands.2 in
      let written =
        write_chunk-Reaches w read (ltb (length read) n)
          (not (ltb (offset + length read) (length src))) offset
          (send_from src (length src) chunk ws (offset + length read)) stands (λ e. ground arith)
          (send_from-Reaches ws (offset + length read) fits) in
      elim (Bool-cases (ltb offset (length src))) [
        | inl e ↦ elim (Bool-cases (length read == 0)) [
          | inl z ↦ simp (e, z) (Stands-nil src offset h, λ f. absurd (ground arith))
          | inr z ↦ simp (e, z) written
        ]
        | inr e ↦ simp e (Stands-nil src offset h, λ f. ground arith)
      ]

  resume-Reaches :
      (offset : ℕ) (sent : Sent) (next : Delivery)
      → Reaches src offset sent.0 sent.1
      → Reaches src (offset + length sent.0) next.bytes next.failed
      → Reaches src offset (resume sent.0 sent.1 next).bytes (resume sent.0 sent.1 next).failed
  resume-Reaches offset (sent, false) next h r = h
  resume-Reaches offset (sent, true) next h r = (
    Stands-append src sent next.bytes offset h.0 r.0,
    λ f. omega (arith, length-append sent next.bytes, r.1 f),
  )

  note-Reaches :
      (offset : ℕ) (r : Route) (last : Option Route) (d : Delivery)
      → Reaches src offset d.bytes d.failed
      → Reaches src offset (note_route r last d).bytes (note_route r last d).failed
  note-Reaches offset r last d h = elim (Bool-cases (same_route r last)) [
    | inl e ↦ simp e h
    | inr e ↦ simp e h
  ]

  send-Reaches :
      (dials : List (Option Connection)) (last : Option Route) (offset : ℕ)
      → All Echoes dials
      → offset ≤ length src
      → Reaches src offset
          (send src (length src) chunk dials last offset).bytes
          (send src (length src) chunk dials last offset).failed
  unfolding send
  send-Reaches [] last offset a h = (Stands-nil src offset h, λ f. ground arith)
  send-Reaches (none ∷ dials) last offset a h = (Stands-nil src offset h, λ f. ground arith)
  send-Reaches (some c ∷ dials) last offset a h =
      let start : max offset (c.actual_offset offset) ≡ offset = omega (arith, a.0 offset) in
      let sent = send_from src (length src) chunk c.writes offset in
      let reaches = send_from-Reaches c.writes offset h in
      let next = send src (length src) chunk dials (some c.route) (offset + length sent.0) in
      let rest = send-Reaches dials (some c.route) (offset + length sent.0) a.1 (reaches.0).2 in
      let both =
        note-Reaches offset c.route last (resume sent.0 sent.1 next)
          (resume-Reaches offset sent next reaches rest) in
      elim (Bool-cases (ltb offset (length src))) [
        | inl e ↦ simp (start, e) both
        | inr e ↦ simp (start, e) (Stands-nil src offset h, λ f. ground arith)
      ]

  whole_bytes :
      (bytes rest : Text) → src ≡ bytes ++ rest → 0 + length bytes ≡ length src → bytes ≡ src
  whole_bytes bytes [] e l = sym (e ∙ append_nil bytes)
  whole_bytes bytes (c ∷ rest) e l =
      absurd (omega (arith, ap length e, length-append bytes (c ∷ rest)))

-- Where no peer answers an offset beyond the one it was asked for and `Send`, with the whole
-- length of its source as the size, returns no error, the bytes it has written, connection after
-- connection and over whatever routes, are those of the source, each once and in order.
pub send_whole :
    (src : Text) (chunk : ℕ) (dials : List (Option Connection))
    → All Echoes dials
    → (send src (length src) chunk dials none 0).failed ≡ false
    → (send src (length src) chunk dials none 0).bytes ≡ src
send_whole src chunk dials a f =
    let ((rest, h, l), end) = send-Reaches src chunk dials none 0 a (omega arith) in
    whole_bytes src chunk _ rest h (end f)
