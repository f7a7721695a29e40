-- ===== src/Destination/Preflight.antt =====
-- bridge/destination/publish.go: the checks before filesystem publication. The details of a check,
-- which are messages, are left out.
pub mod Passed
use rom_m_swarm.Common.{
  ℕ, Text, codes, text_eq, ◌==◌, Bool, true, false, not, ◌&&◌, ◌||◌, List, [], ◌∷◌, ◌++◌, Option,
  none, some, all, any, trim_space, last?, if◌then◌else◌,
}
use rom_m_swarm.Destination.{Os}
use rom_m_swarm.Destination.Paths.{Components, within, parent}
use rom_m_swarm.Destination.Publisher.{components_of, render, resolve}

pub record Config : Type 0 where
  pub library_root : Text
  pub receive_staging_dir : Text
  pub publish_staging_dir : Text

-- What the platform answers beside the operating system's answers.
pub record Platform : Type 0 where
  pub filesystem_supported : Bool
  pub is_dir : Text → Bool
  pub probe_writable : Text → Bool

pub data CheckName : Type 0 where
  platform library_root_check library_writable receive_staging : CheckName
  publish_staging publish_filesystem receive_filesystem : CheckName

pub record Check : Type 0 where
  pub name : CheckName
  pub ok : Bool
  pub fatal : Bool

pub record Report : Type 0 where
  pub checks : List Check
  pub same_filesystem : Bool
  pub publish_dir : Text

unfoldable pub report_ok : Report → Bool
report_ok r = all (λ c. not (not c.ok && c.fatal)) r.checks

-- `Err`: whether some check of the report is an error.
unfoldable pub report_err : Report → Bool
report_err r = any (λ c. not c.ok && c.fatal) r.checks

abbrev base_name : Option Text → Text
base_name none = codes "/"
base_name (some c) = c

-- The name beside the library root; `Join` cleans the slash of the root's own name.
unfoldable pub default_publish_dir : Text → Text
default_publish_dir root =
    let cs = components_of root in
    render (
      components_of
        (render (parent cs) ++ codes "/." ++ base_name (last? cs) ++ codes "-romm-swarm-publish"))

abbrev check : CheckName → Bool → Bool → Check
check name ok fatal = record { name = name; ok = ok; fatal = fatal }

-- `add` on a report.
abbrev pub add_check : CheckName → Bool → Bool → Report → Report
add_check name ok fatal r = record r { checks = r.checks ++ check name ok fatal ∷ [] }

-- The devices of the library and of the publication staging directory.
abbrev pub same_device : Option ℕ → Option ℕ → Bool
same_device (some a) (some b) = a == b
same_device none b = false
same_device (some a) none = false

-- The last check, where both devices are known.
abbrev pub receive_device : Option ℕ → Option ℕ → Report → Report
receive_device (some recv) (some lib) r =
    add_check receive_filesystem true false (record r { same_filesystem = recv == lib })
receive_device none lib r = r
receive_device (some recv) none r = r

abbrev pub with_publish : Os → Text → Text → Option Text → Report → Report
with_publish os lib_root recv_dir none r = add_check publish_staging false true r
with_publish os lib_root recv_dir (some pub_dir) r =
    receive_device (os.device_of recv_dir) (os.device_of lib_root) (
      add_check publish_filesystem (same_device (os.device_of lib_root) (os.device_of pub_dir)) true
        (add_check publish_staging (not (within (components_of pub_dir) (components_of lib_root)))
          true (record r { publish_dir = pub_dir })))

abbrev pub publish_dir_of : Config → Text → Text
publish_dir_of cfg lib_root =
    if text_eq (trim_space cfg.publish_staging_dir) []
    then default_publish_dir lib_root
    else cfg.publish_staging_dir

abbrev pub with_receive : Os → Config → Text → Option Text → Report → Report
with_receive os cfg lib_root none r = add_check receive_staging false true r
with_receive os cfg lib_root (some recv_dir) r =
    let checked =
      add_check receive_staging (not (within (components_of recv_dir) (components_of lib_root)))
        true r in
    if not (os.makes_dir (publish_dir_of cfg lib_root))
    then add_check publish_staging false true checked
    else with_publish os lib_root recv_dir (resolve os (publish_dir_of cfg lib_root)) checked

abbrev pub with_root : Os → Platform → Config → Option Text → Report → Report
with_root os on cfg none r = add_check library_root_check false true r
with_root os on cfg (some lib_root) r =
    if not (on.is_dir lib_root)
    then add_check library_root_check false true r
    else with_receive os cfg lib_root (resolve os cfg.receive_staging_dir) (
        add_check library_writable (on.probe_writable lib_root) true
          (add_check library_root_check true true r))

abbrev pub empty_report : Report
empty_report = record { checks = []; same_filesystem = false; publish_dir = [] }

unfoldable pub preflight : Os → Platform → Config → Report
preflight os on cfg =
    if not on.filesystem_supported
    then add_check platform false true empty_report
    else if text_eq (trim_space cfg.library_root) []
    then add_check library_root_check false true empty_report
    else with_root os on cfg (resolve os cfg.library_root) empty_report
