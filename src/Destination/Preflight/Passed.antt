-- ===== src/Destination/Preflight/Passed.antt =====
-- What a preflight that passed has established.
use rom_m_swarm.Common.{
  ℕ, Text, text_eq, trim_space, ◌≡◌, refl, sym, ap, ◌∙◌, inl, inr, Bool, true, false, not, ◌&&◌,
  List, [], ◌∷◌, ◌++◌, Option, none, some, all, any, ==→eq, Bool-cases, arith,
}
use rom_m_swarm.Destination.{Os}
use rom_m_swarm.Destination.Paths.{within}
use rom_m_swarm.Destination.Publisher.{components_of, resolve}
use rom_m_swarm.Destination.Preflight.{
  Config, Platform, Check, Report, report_ok, report_err, add_check, same_device, receive_device,
  with_publish, publish_dir_of, with_receive, with_root, empty_report, preflight, CheckName,
  publish_staging, publish_filesystem, receive_filesystem, receive_staging, library_root_check,
  library_writable, platform,
}

all-any :
    (cs : List Check)
    → all (λ c. not (not c.ok && c.fatal)) cs ≡ not (any (λ c. not c.ok && c.fatal) cs)
all-any [] = refl
all-any (c ∷ cs) = ground (arith, all-any cs)

-- `OK` and `Err` agree.
pub report_ok-err : (r : Report) → report_ok r ≡ not (report_err r)
unfolding report_ok report_err
report_ok-err r = all-any r.checks

all-append :
    (p : Check → Bool) (cs : List Check) (c : Check) → all p (cs ++ c ∷ []) ≡ (all p cs && p c)
all-append p [] c = ground arith
all-append p (d ∷ cs) c = ground (arith, all-append p cs c)

-- The directories and devices that the checks saw.
pub record Fit (os : Os) (on : Platform) (cfg : Config) (r : Report) : Type 0 where
  pub lib_root : Text
  pub recv_dir : Text
  pub device : ℕ
  pub root_resolved : resolve os cfg.library_root ≡ some lib_root
  pub recv_resolved : resolve os cfg.receive_staging_dir ≡ some recv_dir
  pub pub_resolved : resolve os (publish_dir_of cfg lib_root) ≡ some r.publish_dir
  pub is_dir : on.is_dir lib_root ≡ true
  pub writable : on.probe_writable lib_root ≡ true
  pub recv_outside : within (components_of recv_dir) (components_of lib_root) ≡ false
  pub pub_outside : within (components_of r.publish_dir) (components_of lib_root) ≡ false
  pub lib_device : os.device_of lib_root ≡ some device
  pub pub_device : os.device_of r.publish_dir ≡ some device

add_check-ok :
    (name : CheckName) (ok : Bool) (r : Report)
    → report_ok (add_check name ok true r) ≡ true
    → (ok ≡ true) × (report_ok r ≡ true)
unfolding report_ok
add_check-ok name ok r h =
    let a =
      all-append (λ c. not (not c.ok && c.fatal)) r.checks
        (record { name = name; ok = ok; fatal = true }) in
    (ground arith, ground arith)

report_ok-dir : (dir : Text) (r : Report) → report_ok (record r { publish_dir = dir }) ≡ report_ok r
unfolding report_ok
report_ok-dir dir r = refl

receive_device-ok :
    (a b : Option ℕ) (r : Report)
    → report_ok (receive_device a b r) ≡ true
    → (report_ok r ≡ true) × ((receive_device a b r).publish_dir ≡ r.publish_dir)
unfolding report_ok
receive_device-ok none b r h = (h, refl)
receive_device-ok (some a) none r h = (h, refl)
receive_device-ok (some a) (some b) r h =
    let added =
      all-append (λ c. not (not c.ok && c.fatal)) r.checks
        (record { name = receive_filesystem; ok = true; fatal = false }) in
    (ground arith, refl)

same_device-some : (a b : Option ℕ) → same_device a b ≡ true → (d : ℕ) × (a ≡ some d) × (b ≡ some d)
same_device-some none b h = absurd (ground arith)
same_device-some (some a) none h = absurd (ground arith)
same_device-some (some a) (some b) h = (a, refl, ap some (sym (==→eq a b h)))

module _ (os : Os) where
  with_publish-ok :
      (lib recv : Text) (o : Option Text) (r : Report)
      → report_ok (with_publish os lib recv o r) ≡ true
      → (d : ℕ) × (o ≡ some (with_publish os lib recv o r).publish_dir)
        × (within (components_of (with_publish os lib recv o r).publish_dir) (components_of lib)
            ≡ false)
        × (os.device_of lib ≡ some d)
        × (os.device_of (with_publish os lib recv o r).publish_dir ≡ some d)
        × (report_ok r ≡ true)
  with_publish-ok lib recv none r h =
      absurd (ground (arith, add_check-ok publish_staging false r h))
  with_publish-ok lib recv (some dir) r h =
      let (all_ok, same_dir) = receive_device-ok (os.device_of recv) (os.device_of lib) _ h in
      let (devices, rest) = add_check-ok publish_filesystem _ _ all_ok in
      let (outside, before) = add_check-ok publish_staging _ _ rest in
      let (d, lib_device, pub_device) =
        same_device-some (os.device_of lib) (os.device_of dir) devices in
      (
        d,
        ap some (sym same_dir),
        ap (λ x. within (components_of x) (components_of lib)) same_dir ∙ ground arith,
        lib_device,
        ap os.device_of same_dir ∙ pub_device,
        sym (report_ok-dir dir r) ∙ before,
      )

  -- The staging directories that fit a library root.
  abbrev Outside : Config → Text → Option Text → Text → Type 0
  Outside cfg lib o dir =
      (recv : Text) × (d : ℕ) × (o ≡ some recv)
      × (resolve os (publish_dir_of cfg lib) ≡ some dir)
      × (within (components_of recv) (components_of lib) ≡ false)
      × (within (components_of dir) (components_of lib) ≡ false)
      × (os.device_of lib ≡ some d)
      × (os.device_of dir ≡ some d)

  with_receive-ok :
      (cfg : Config) (lib : Text) (o : Option Text) (r : Report)
      → report_ok (with_receive os cfg lib o r) ≡ true
      → Outside cfg lib o (with_receive os cfg lib o r).publish_dir × (report_ok r ≡ true)
  with_receive-ok cfg lib none r =
      λ h. absurd (ground (arith, add_check-ok receive_staging false r h))
  with_receive-ok cfg lib (some recv) r =
      let checked =
        add_check receive_staging (not (within (components_of recv) (components_of lib))) true r in
      elim (Bool-cases (os.makes_dir (publish_dir_of cfg lib))) [
        | inl e ↦ simp e (λ h.
            let (d, found, outside, lib_device, pub_device, before) =
              with_publish-ok lib recv (resolve os (publish_dir_of cfg lib)) checked h in
            let (recv_outside, rest) = add_check-ok receive_staging _ r before in
            ((recv, d, refl, found, ground arith, outside, lib_device, pub_device), rest))
        | inr e ↦
            simp e (λ h. absurd (ground (arith, add_check-ok publish_staging false checked h)))
      ]

  module _ (on : Platform) (cfg : Config) where
    with_root-Fit :
        (o : Option Text) (r : Report)
        → o ≡ resolve os cfg.library_root
        → report_ok (with_root os on cfg o r) ≡ true
        → Fit os on cfg (with_root os on cfg o r)
    with_root-Fit none r e = λ h. absurd (ground (arith, add_check-ok library_root_check false r h))
    with_root-Fit (some lib) r e = elim (Bool-cases (on.is_dir lib)) [
      | inl d ↦ simp d (λ h.
          let ((recv, dev, found, pub_found, recv_out, pub_out, lib_device, pub_device), rest) =
            with_receive-ok cfg lib (resolve os cfg.receive_staging_dir) _ h in
          let (writes, before) = add_check-ok library_writable _ _ rest in
          record {
            lib_root = lib;
            recv_dir = recv;
            device = dev;
            root_resolved = sym e;
            recv_resolved = found;
            pub_resolved = pub_found;
            is_dir = d;
            writable = writes;
            recv_outside = recv_out;
            pub_outside = pub_out;
            lib_device = lib_device;
            pub_device = pub_device;
          })
      | inr d ↦ simp d (λ h. absurd (ground (arith, add_check-ok library_root_check false r h)))
    ]

-- Where the report of a preflight is OK, the library root resolves to a directory that can be
-- written, the staging directories resolve, both lie outside its tree, and the publication
-- staging directory is on the device of the root.
pub preflight-Fit :
    (os : Os) (on : Platform) (cfg : Config)
    → report_ok (preflight os on cfg) ≡ true
    → Fit os on cfg (preflight os on cfg)
unfolding preflight
preflight-Fit os on cfg = elim (Bool-cases on.filesystem_supported) [
  | inl s ↦ elim (Bool-cases (text_eq (trim_space cfg.library_root) [])) [
    | inl e ↦
        simp (s, e)
          (λ h. absurd (ground (arith, add_check-ok library_root_check false empty_report h)))
    | inr e ↦ simp (s, e) (with_root-Fit os on cfg (resolve os cfg.library_root) empty_report refl)
  ]
  | inr s ↦ simp s (λ h. absurd (ground (arith, add_check-ok platform false empty_report h)))
]
