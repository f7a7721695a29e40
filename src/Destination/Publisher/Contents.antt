-- ===== src/Destination/Publisher/Contents.antt =====
-- What is in the library after a publication that succeeded.
use rom_m_swarm.Common.{
  ℕ, Text, text_eq_iff, ◌==◌, ◌≡◌, ◌≢◌, refl, sym, ap, ◌∙◌, subst, inl, inr, Bool, true, false,
  Option, none, some, get, put, get-put, get-remove, Bool-cases, arith, if◌then◌else◌,
}
use rom_m_swarm.Protocol.Digest.{Digest}
use rom_m_swarm.Destination.{Files, Os}
use rom_m_swarm.Destination.Paths.{
  Components, Joined, joined_at, refused, safe_join, parent, Below, safe_join-Below,
}
use rom_m_swarm.Destination.Publisher.{
  PublishError, Copied, published_at, copied_to, not_copied, discard, finish_copy, copy_bytes,
  copy_to_destination, link_bytes, link_file, after_link, link_copy, link_on_device,
  check_destination, publish_joined, publish_in, components_of, resolve, publish, render,
}

-- The file that was linked, and the files before and after.
abbrev pub Linked : Text → Text → Files → Files → Type 0
Linked source final fs after =
    (bytes : Text) × (get source fs ≡ some bytes)
    × (get final fs ≡ none)
    × (get final after ≡ some bytes)

link_bytes-Linked :
    (source final : Text) (o taken : Option Text) (fs : Files)
    → get source fs ≡ o
    → get final fs ≡ taken
    → (link_bytes final o taken fs).0 ≡ none
    → Linked source final fs (link_bytes final o taken fs).1
link_bytes-Linked source final o (some b) fs e f h = absurd (ground arith)
link_bytes-Linked source final none none fs e f h = absurd (ground arith)
link_bytes-Linked source final (some b) none fs e f h =
    (b, e, f, ground (arith, get-put final final b fs, text_eq_iff final final))

no_value : {b : Text} → some b ≡ none → ⊥
no_value e = cc

module _ (os : Os) where
  link-Linked :
      (source final : Text) (fs : Files)
      → (link_file os source final fs).0 ≡ none
      → Linked source final fs (link_file os source final fs).1
  unfolding link_file
  link-Linked source final fs h = elim (Bool-cases os.links) [
    | inl e ↦
        let same : link_file os source final fs
            ≡ link_bytes final (get source fs) (get final fs) fs =
          simp e refl in
        subst (λ x. Linked source final fs x.1) (sym same)
          (link_bytes-Linked source final (get source fs) (get final fs) fs refl refl
            (ap (λ x. x.0) (sym same) ∙ h))
    | inr e ↦ absurd (ground arith)
  ]

  -- The name that is discarded is not that of the file.
  discard-other :
      (p final bytes : Text) (fs : Files)
      → p ≢ final
      → get final fs ≡ some bytes
      → get final (discard os p fs) ≡ some bytes
  unfolding discard
  discard-other p final bytes fs apart k =
      ground (arith, get-remove p final fs, text_eq_iff p final)

  after_link-cases :
      (staged final dir f : Text) (copied : Bool) (o : Option PublishError) (fs : Files)
      → (after_link os staged final dir copied (o, fs)).0 ≡ published_at f
      → (o ≡ none)
        × (f ≡ final)
        × ((after_link os staged final dir copied (o, fs)).1
            ≡ (if copied then fs else discard os staged fs))
  after_link-cases staged final dir f copied (some e) fs h = absurd (ground arith)
  after_link-cases staged final dir f copied none fs h = elim (Bool-cases (os.opens_dir dir)) [
    | inl e ↦ (refl, ground arith, simp e refl)
    | inr e ↦ absurd (ground arith)
  ]

  apart_names : (p q bytes : Text) (fs : Files) → get p fs ≡ some bytes → get q fs ≡ none → p ≢ q
  apart_names p q bytes fs h k e = absurd (no_value (sym h ∙ ap (λ x. get x fs) e ∙ k))

  direct-Linked :
      (staged final dir f : Text) (fs : Files)
      → (after_link os staged final dir false (link_file os staged final fs)).0 ≡ published_at f
      → (f ≡ final)
        × Linked staged final fs
            (after_link os staged final dir false (link_file os staged final fs)).1
  direct-Linked staged final dir f fs h =
      let l = link_file os staged final fs in
      let (done, name, after) = after_link-cases staged final dir f false l.0 l.1 h in
      let (bytes, from, free, there) = link-Linked staged final fs done in
      (
        name,
        (
          bytes,
          from,
          free,
          ap (get final) after
              ∙ discard-other staged final bytes l.1 (apart_names staged final bytes fs from free)
                  there,
        ),
      )

  copy_done :
      (tmp bytes t : Text) (expected : Digest) (fs : Files)
      → (finish_copy os tmp bytes expected fs).0 ≡ copied_to t
      → (t ≡ tmp) × ((finish_copy os tmp bytes expected fs).1 ≡ put tmp bytes fs)
  unfolding finish_copy
  copy_done tmp bytes t expected fs h = (ground arith, ground arith)

  -- What a copy that succeeded left.
  abbrev CopiedFrom : Text → Files → Text → Files → Type 0
  CopiedFrom staged fs t after =
      (bytes : Text) × (get staged fs ≡ some bytes) × (after ≡ put t bytes fs)

  copy_bytes-CopiedFrom :
      (staged t : Text) (b tmp : Option Text) (expected : Digest) (fs : Files)
      → ((bytes : Text) → b ≡ some bytes → get staged fs ≡ some bytes)
      → (copy_bytes os b tmp expected fs).0 ≡ copied_to t
      → CopiedFrom staged fs t (copy_bytes os b tmp expected fs).1
  copy_bytes-CopiedFrom staged t none tmp expected fs from h = absurd (ground arith)
  copy_bytes-CopiedFrom staged t (some b) none expected fs from h = absurd (ground arith)
  copy_bytes-CopiedFrom staged t (some b) (some tmp) expected fs from h =
      let (same, after) = copy_done tmp b t expected fs h in (b, from b refl, rw same after)

  copy-CopiedFrom :
      (pub_dir staged t : Text) (expected : Digest) (fs : Files)
      → (copy_to_destination os pub_dir staged expected fs).0 ≡ copied_to t
      → CopiedFrom staged fs t (copy_to_destination os pub_dir staged expected fs).1
  unfolding copy_to_destination
  copy-CopiedFrom pub_dir staged t expected fs =
      copy_bytes-CopiedFrom staged t (if os.opens staged then get staged fs else none)
        (os.creates_temp pub_dir) expected fs (λ bytes h. ground arith)

  link_copy-Linked :
      (staged final dir f : Text) (c : Copied) (whole fs : Files)
      → ((t : Text) → c ≡ copied_to t → CopiedFrom staged fs t whole)
      → (link_copy os staged final dir (c, whole)).0 ≡ published_at f
      → (f ≡ final) × Linked staged final fs (link_copy os staged final dir (c, whole)).1
  link_copy-Linked staged final dir f (not_copied e) whole fs h p = absurd (ground arith)
  link_copy-Linked staged final dir f (copied_to t) whole fs h p =
      let (bytes, from, copied) = h t refl in
      let l = link_file os t final whole in
      let (done, name, after) = after_link-cases staged final dir f true l.0 l.1 p in
      let (b, got, free, there) = link-Linked t final whole done in
      let apart = apart_names t final b whole got free in
      let same : some b ≡ some bytes =
        sym got ∙ ap (get t) copied ∙ get-put t t bytes fs ∙ ground (arith, text_eq_iff t t) in
      let was_free : get final fs ≡ none =
        ground (arith, get-put t final bytes fs, text_eq_iff t final, ap (get final) copied) in
      (
        name,
        (
          bytes,
          from,
          was_free,
          discard-other t final bytes _ apart (ap (get final) after ∙ there ∙ same),
        ),
      )

  -- A publication from the devices on.
  device-Linked :
      (pub_dir staged final dir f : Text) (expected : Digest) (a b : Option ℕ) (fs : Files)
      → (link_on_device os pub_dir staged final dir expected a b fs).0 ≡ published_at f
      → (f ≡ final)
        × Linked staged final fs (link_on_device os pub_dir staged final dir expected a b fs).1
  device-Linked pub_dir staged final dir f expected none b fs = λ h. absurd (ground arith)
  device-Linked pub_dir staged final dir f expected (some a) none fs = λ h. absurd (ground arith)
  device-Linked pub_dir staged final dir f expected (some a) (some b) fs =
      let c = copy_to_destination os pub_dir staged expected fs in
      elim (Bool-cases (a == b)) [
        | inl e ↦ simp e (direct-Linked staged final dir f fs)
        | inr e ↦ simp e (
            link_copy-Linked staged final dir f c.0 c.1 fs
              (λ t. copy-CopiedFrom pub_dir staged t expected fs))
      ]

  check-Linked :
      (pub_dir staged final dir f : Text) (expected : Digest) (taken : Option Text) (fs : Files)
      → (check_destination os pub_dir staged final dir expected taken fs).0 ≡ published_at f
      → (f ≡ final)
        × Linked staged final
            (os.meanwhile fs)
            (check_destination os pub_dir staged final dir expected taken fs).1
  check-Linked pub_dir staged final dir f expected (some t) fs = λ h. absurd (ground arith)
  check-Linked pub_dir staged final dir f expected none fs =
      elim (Bool-cases (os.fails_to_check final)) [
        | inl e ↦ simp e (λ h. absurd (ground arith))
        | inr e ↦ simp e (
            device-Linked pub_dir staged final dir f expected (os.device_of staged)
              (os.device_of dir) (os.meanwhile fs))
      ]

  -- The published name lies below the root, and has the contents of the staged file.
  abbrev pub Arrived : Text → Text → Text → Files → Files → Type 0
  Arrived library_root staged f fs after =
      (root : Text) × (path : Components) × (resolve os library_root ≡ some root)
      × Below (components_of root) path
      × (f ≡ render path)
      × Linked staged f fs after

  joined-Arrived :
      (pub_dir staged f : Text) (expected : Digest) (j : Joined) (fs : Files)
      → (publish_joined os pub_dir staged expected j fs).0 ≡ published_at f
      → (path : Components) × (j ≡ joined_at path)
        × (f ≡ render path)
        × Linked staged
            (render path)
            (os.meanwhile fs)
            (publish_joined os pub_dir staged expected j fs).1
  joined-Arrived pub_dir staged f expected (refused e) fs = λ h. absurd (ground arith)
  joined-Arrived pub_dir staged f expected (joined_at path) fs =
      elim (Bool-cases (os.makes_dir (render (parent path)))) [
        | inl e ↦ simp e (λ h.
            let (name, linked) =
              check-Linked pub_dir staged (render path) (render (parent path)) f expected
                (get (render path) fs) fs h in
            (path, refl, name, linked))
        | inr e ↦ simp e (λ h. absurd (ground arith))
      ]

  in-Arrived :
      (root : Option Text) (pub_dir staged rel f : Text) (expected : Digest) (fs : Files)
      → (publish_in os root pub_dir staged rel expected fs).0 ≡ published_at f
      → (r : Text) × (path : Components) × (root ≡ some r)
        × Below (components_of r) path
        × (f ≡ render path)
        × Linked staged f (os.meanwhile fs) (publish_in os root pub_dir staged rel expected fs).1
  in-Arrived none pub_dir staged rel f expected fs h = absurd (ground arith)
  in-Arrived (some r) pub_dir staged rel f expected fs h =
      let (path, joined, name, linked) =
        joined-Arrived pub_dir staged f expected (safe_join (components_of r) rel) fs h in
      (
        r,
        path,
        refl,
        safe_join-Below (components_of r) path rel joined,
        name,
        subst
            (λ x.
              Linked staged x (os.meanwhile fs)
                (publish_in os (some r) pub_dir staged rel expected fs).1)
            (sym name) linked,
      )

  -- Where `Publish` returns a path, it lies below the resolved root, nothing was there when the file
  -- was linked, and it has the contents of the staged file.
  pub publish-Arrived :
      (library_root pub_dir staged rel f : Text) (expected : Digest) (fs : Files)
      → (publish os library_root pub_dir staged rel expected fs).0 ≡ published_at f
      → Arrived library_root staged f
          (os.meanwhile fs)
          (publish os library_root pub_dir staged rel expected fs).1
  unfolding publish
  publish-Arrived library_root pub_dir staged rel f expected fs =
      in-Arrived (resolve os library_root) pub_dir staged rel f expected fs
