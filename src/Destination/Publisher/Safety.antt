-- ===== src/Destination/Publisher/Safety.antt =====
-- That `Publish` changes no file but its own.
use rom_m_swarm.Common.{
  ℕ, Text, text_eq_iff, ◌==◌, ◌≡◌, ◌≢◌, ◌⊎◌, refl, sym, ap, ◌∙◌, inl, inr, Bool, true, false,
  Option, none, some, [], get, put, get-put, get-remove, Bool-cases, arith, if◌then◌else◌,
}
use rom_m_swarm.Protocol.Digest.{Digest}
use rom_m_swarm.Destination.{Files, Os}
use rom_m_swarm.Destination.Paths.{Joined, joined_at, refused, safe_join, parent}
use rom_m_swarm.Destination.Publisher.{
  PublishError, Published, not_published, Copied, copied_to, not_copied, discard, finish_copy,
  copy_bytes, copy_to_destination, link_bytes, link_file, after_link, link_copy, link_on_device,
  check_destination, publish_joined, publish_in, components_of, resolve, publish, render,
}

-- A copy is under the temporary name that was created.
pub copied_temp :
    (os : Os) (b tmp : Option Text) (t : Text) (expected : Digest) (fs : Files)
    → (copy_bytes os b tmp expected fs).0 ≡ copied_to t
    → tmp ≡ some t
unfolding finish_copy
copied_temp os none tmp t expected fs e = absurd (ground arith)
copied_temp os (some b) none t expected fs e = absurd (ground arith)
copied_temp os (some b) (some tmp) t expected fs e = ground arith

-- The file under the path keeps its contents.
abbrev pub Kept : Text → Text → Files → Type 0
Kept path bytes fs = get path fs ≡ some bytes

-- An error with all files as before, or the file under the path keeps its contents.
abbrev pub Untouched : Text → Text → Files → Published × Files → Type 0
Untouched path bytes fs done =
    ((e : PublishError) × (done ≡ (not_published e, fs))) ⊎ Kept path bytes done.1

differs : {b : Text} → some b ≡ none → ⊥
differs e = cc

module _ (os : Os) (path bytes : Text) where
  discard-Kept :
      (p : Text) (fs : Files) → path ≢ p → Kept path bytes fs → Kept path bytes (discard os p fs)
  unfolding discard
  discard-Kept p fs apart k = ground (arith, get-remove p path fs, text_eq_iff p path)

  put-Kept :
      (p b : Text) (fs : Files) → path ≢ p → Kept path bytes fs → Kept path bytes (put p b fs)
  put-Kept p b fs apart k = ground (arith, get-put p path b fs, text_eq_iff p path)

  finish_copy-Kept :
      (tmp b : Text) (expected : Digest) (fs : Files)
      → path ≢ tmp
      → Kept path bytes fs
      → Kept path bytes (finish_copy os tmp b expected fs).1
  unfolding finish_copy
  finish_copy-Kept tmp b expected fs apart k =
      let whole = put-Kept tmp b fs apart k in
      let gone = discard-Kept tmp (put tmp b fs) apart whole in
      let empty = discard-Kept tmp (put tmp [] fs) apart (put-Kept tmp [] fs apart k) in
      ground arith

  link_bytes-Kept :
      (final : Text) (source taken : Option Text) (fs : Files)
      → get final fs ≡ taken
      → Kept path bytes fs
      → Kept path bytes (link_bytes final source taken fs).1
  link_bytes-Kept final source (some b) fs e k = k
  link_bytes-Kept final none none fs e k = k
  link_bytes-Kept final (some b) none fs e k =
      let apart : path ≢ final = λ q. differs (sym k ∙ ap (λ x. get x fs) q ∙ e) in
      put-Kept final b fs apart k

  link-Kept :
      (source final : Text) (fs : Files)
      → Kept path bytes fs
      → Kept path bytes (link_file os source final fs).1
  unfolding link_file
  link-Kept source final fs k =
      let linked = link_bytes-Kept final (get source fs) (get final fs) fs refl k in
      elim (Bool-cases os.links) [ inl e ↦ simp e linked | inr e ↦ simp e k ]

  after_link-Kept :
      (staged final dir : Text) (copied : Bool) (o : Option PublishError) (fs : Files)
      → path ≢ staged
      → Kept path bytes fs
      → Kept path bytes (after_link os staged final dir copied (o, fs)).1
  after_link-Kept staged final dir copied (some e) fs apart k = k
  after_link-Kept staged final dir copied none fs apart k =
      let gone = discard-Kept staged fs apart k in
      elim (Bool-cases (os.opens_dir dir)) [
        | inl e ↦ elim (Bool-cases copied) [ inl c ↦ simp (e, c) k | inr c ↦ simp (e, c) gone ]
        | inr e ↦ simp e k
      ]

  module _ (staged final dir pub_dir : Text) (expected : Digest) (apart : path ≢ staged)
      (not_temp : os.creates_temp pub_dir ≢ some path) where
    copy_bytes-Kept :
        (b tmp : Option Text) (fs : Files)
        → os.creates_temp pub_dir ≡ tmp
        → Kept path bytes fs
        → Kept path bytes (copy_bytes os b tmp expected fs).1
    copy_bytes-Kept none tmp fs e k = k
    copy_bytes-Kept (some b) none fs e k = k
    copy_bytes-Kept (some b) (some tmp) fs e k =
        finish_copy-Kept tmp b expected fs (λ q. not_temp (e ∙ ap some (sym q))) k

    copy-Kept :
        (fs : Files)
        → Kept path bytes fs
        → Kept path bytes (copy_to_destination os pub_dir staged expected fs).1
    unfolding copy_to_destination
    copy-Kept fs k =
        copy_bytes-Kept (if os.opens staged then get staged fs else none) (os.creates_temp pub_dir)
          fs refl k

    copy_apart :
        (fs : Files) (tmp : Text)
        → (copy_to_destination os pub_dir staged expected fs).0 ≡ copied_to tmp
        → path ≢ tmp
    unfolding copy_to_destination
    copy_apart fs tmp e q =
        not_temp (copied_temp os _ (os.creates_temp pub_dir) tmp expected fs e ∙ ap some (sym q))

    link_copy-Kept :
        (c : Copied) (fs : Files)
        → ((tmp : Text) → c ≡ copied_to tmp → path ≢ tmp)
        → Kept path bytes fs
        → Kept path bytes (link_copy os staged final dir (c, fs)).1
    link_copy-Kept (not_copied e) fs h k = k
    link_copy-Kept (copied_to tmp) fs h k = discard-Kept tmp _ (h tmp refl) (
        after_link-Kept staged final dir true (link_file os tmp final fs).0
          (link_file os tmp final fs).1 apart (link-Kept tmp final fs k))

    device-Kept :
        (a b : Option ℕ) (fs : Files)
        → Kept path bytes fs
        → Kept path bytes (link_on_device os pub_dir staged final dir expected a b fs).1
    device-Kept none b fs k = k
    device-Kept (some a) none fs k = k
    device-Kept (some a) (some b) fs k =
        let c = copy_to_destination os pub_dir staged expected fs in
        let copied = link_copy-Kept c.0 c.1 (copy_apart fs) (copy-Kept fs k) in
        let direct =
          after_link-Kept staged final dir false (link_file os staged final fs).0
            (link_file os staged final fs).1 apart (link-Kept staged final fs k) in
        elim (Bool-cases (a == b)) [ inl e ↦ simp e direct | inr e ↦ simp e copied ]

    check-Untouched :
        (taken : Option Text) (fs : Files)
        → Kept path bytes (os.meanwhile fs)
        → Untouched path bytes fs (check_destination os pub_dir staged final dir expected taken fs)
    check-Untouched (some t) fs k = inl (_, refl)
    check-Untouched none fs k =
        let linked = device-Kept (os.device_of staged) (os.device_of dir) (os.meanwhile fs) k in
        elim (Bool-cases (os.fails_to_check final)) [
          | inl e ↦ simp e (inl (_, refl))
          | inr e ↦ simp e (inr linked)
        ]

  joined-Untouched :
      (staged pub_dir : Text) (expected : Digest) (j : Joined) (fs : Files)
      → path ≢ staged
      → os.creates_temp pub_dir ≢ some path
      → Kept path bytes (os.meanwhile fs)
      → Untouched path bytes fs (publish_joined os pub_dir staged expected j fs)
  joined-Untouched staged pub_dir expected (refused e) fs apart not_temp k = inl (_, refl)
  joined-Untouched staged pub_dir expected (joined_at p) fs apart not_temp k =
      let checked =
        check-Untouched staged (render p) (render (parent p)) pub_dir expected apart not_temp
          (get (render p) fs) fs k in
      elim (Bool-cases (os.makes_dir (render (parent p)))) [
        | inl e ↦ simp e checked
        | inr e ↦ simp e (inl (_, refl))
      ]

  in-Untouched :
      (root : Option Text) (pub_dir staged rel : Text) (expected : Digest) (fs : Files)
      → path ≢ staged
      → os.creates_temp pub_dir ≢ some path
      → Kept path bytes (os.meanwhile fs)
      → Untouched path bytes fs (publish_in os root pub_dir staged rel expected fs)
  in-Untouched none pub_dir staged rel expected fs apart not_temp k = inl (_, refl)
  in-Untouched (some root) pub_dir staged rel expected fs apart not_temp k =
      joined-Untouched staged pub_dir expected (safe_join (components_of root) rel) fs apart
        not_temp k

-- Where a path is neither the staged one nor that of the temporary copy, and has a file once the
-- other processes have acted between the check and the link, a publication either returns an
-- error with all files as they were before those processes acted, or leaves this file as it is.
-- The file need not have been there before, and may be at the destination.
pub publish-Kept :
    (os : Os) (library_root pub_dir staged rel path bytes : Text) (expected : Digest) (fs : Files)
    → path ≢ staged
    → os.creates_temp pub_dir ≢ some path
    → Kept path bytes (os.meanwhile fs)
    → ((e : PublishError) × (publish os library_root pub_dir staged rel expected fs
          ≡ (not_published e, fs)))
      ⊎ Kept path bytes (publish os library_root pub_dir staged rel expected fs).1
unfolding publish
publish-Kept os library_root pub_dir staged rel path bytes expected fs apart not_temp k =
    in-Untouched os path bytes (resolve os library_root) pub_dir staged rel expected fs apart
      not_temp k
