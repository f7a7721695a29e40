-- ===== src/Destination/Publisher/Verified.antt =====
-- Verification while staged and publication together.
use rom_m_swarm.Common.{
  Text, ◌≡◌, refl, sym, ◌∙◌, subst, inl, inr, true, Option, none, some, get, Bool-cases, arith,
}
use rom_m_swarm.Protocol.Digest.{Digest, compare, strength_strong}
use rom_m_swarm.Protocol.Digest.Agreement.{compare_bound}
use rom_m_swarm.Destination.{Files, Os}
use rom_m_swarm.Destination.Paths.{Components, Below}
use rom_m_swarm.Destination.Staging.{accept, path_for, verify_bytes, verify_staged}
use rom_m_swarm.Destination.Publisher.{published_at, components_of, resolve, publish, render}
use rom_m_swarm.Destination.Publisher.Contents.{publish-Arrived}

-- The name that was published: below the root, with bytes that agree strongly, and free before.
pub record Verified (os : Os) (library_root f : Text) (expected : Digest) (before after : Files)
    : Type 0 where
  pub root : Text
  pub path : Components
  pub bytes : Text
  pub resolved : resolve os library_root ≡ some root
  pub below : Below (components_of root) path
  pub name : f ≡ render path
  pub was_free : get f before ≡ none
  pub holds : get f after ≡ some bytes
  pub agrees : compare (os.digest bytes) expected ≡ (strength_strong, true)

some_same : {a b : Text} → some a ≡ some b → a ≡ b
some_same e = cc

module _ (os : Os) where
  accept_strong :
      (bytes : Text) (expected : Digest)
      → accept (compare (os.digest bytes) expected) ≡ none
      → compare (os.digest bytes) expected ≡ (strength_strong, true)
  accept_strong bytes expected h = ground (arith, compare_bound (os.digest bytes) expected)

  verified_bytes :
      (path : Text) (expected got : Digest) (o : Option Text)
      → verify_bytes os path expected o ≡ (some got, none)
      → (bytes : Text) × (o ≡ some bytes)
        × (compare (os.digest bytes) expected ≡ (strength_strong, true))
  verified_bytes path expected got none h = absurd (ground arith)
  verified_bytes path expected got (some bytes) h = elim (Bool-cases (os.opens path)) [
    | inl e ↦
        let accepted : accept (compare (os.digest bytes) expected) ≡ none = ground arith in
        (bytes, refl, accept_strong bytes expected accepted)
    | inr e ↦ absurd (ground arith)
  ]

-- Where `Verify` accepted the staged file of a transfer, the other processes leave this file
-- alone until it is linked, and `Publish` returns a path, then the path lies below the resolved
-- library root, nothing was at it when the file was linked, and it holds bytes whose digest
-- agrees strongly with the expected one, whether or not the file had to be copied to another
-- file system.
pub publish-Verified :
    (os : Os) (library_root pub_dir id rel f : Text) (expected got : Digest) (fs : Files)
    → verify_staged os id expected fs ≡ (some got, none)
    → get (path_for id) (os.meanwhile fs) ≡ get (path_for id) fs
    → (publish os library_root pub_dir (path_for id) rel expected fs).0 ≡ published_at f
    → Verified os library_root f expected
        (os.meanwhile fs)
        (publish os library_root pub_dir (path_for id) rel expected fs).1
unfolding verify_staged
publish-Verified os library_root pub_dir id rel f expected got fs v same h =
    let (root, path, res, below, name, (bytes, from, free, there)) =
      publish-Arrived os library_root pub_dir (path_for id) rel f expected fs h in
    let (b, at, strong) = verified_bytes os (path_for id) expected got (get (path_for id) fs) v in
    let equal : b ≡ bytes = some_same (sym at ∙ sym same ∙ from) in
    record {
      root = root;
      path = path;
      bytes = bytes;
      resolved = res;
      below = below;
      name = name;
      was_free = free;
      holds = there;
      agrees = subst (λ x. compare (os.digest x) expected ≡ (strength_strong, true)) equal strong;
    }
