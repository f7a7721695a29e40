-- ===== src/Verify/Registry.antt =====
-- verify/adapter.go: the registry of adapters and the choice of one for a payload. An adapter is its
-- reference, its platform and what it detects; notes are left out.
pub mod Order
use rom_m_swarm.Common.{
  ℕ, Text, codes, text_eq, text_lt, ◌==◌, ltb, Bool, true, false, not, ◌&&◌, ◌||◌, List, [], ◌∷◌,
  ◌++◌, Option, none, some, any, if◌then◌else◌,
}
use rom_m_swarm.Protocol.Manifest.{AdapterRef}
use rom_m_swarm.Verify.{Confidence, confidence_none}
use rom_m_swarm.Verify.Genesis.{Peek}

pub record Adapter : Type 0 where
  pub ref : AdapterRef
  pub platform : Text
  pub detect : Peek → Confidence

-- `AdapterRef.String`
abbrev pub ref_text : AdapterRef → Text
ref_text r = r.id ++ codes "/" ++ r.version

abbrev pub same_ref : AdapterRef → AdapterRef → Bool
same_ref a b = text_eq a.id b.id && text_eq a.version b.version

-- `Register`; a reference that is registered panics, here `none`.
unfoldable pub register : Adapter → List Adapter → Option (List Adapter)
register a adapters =
    if any (λ existing. same_ref existing.ref a.ref) adapters
    then none
    else some (adapters ++ a ∷ [])

-- `Lookup`
unfoldable pub find_adapter : AdapterRef → List Adapter → Option Adapter
find_adapter ref [] = none
find_adapter ref (a ∷ adapters) = if same_ref a.ref ref then some a else find_adapter ref adapters

-- `selection`
pub record Choice : Type 0 where
  pub adapter : Option Adapter
  pub confidence : Confidence

-- The tie-break against the adapter chosen so far, if there is one.
abbrev pub precedes : Adapter → Option Adapter → Bool
precedes a none = false
precedes a (some best) = text_lt (ref_text a.ref) (ref_text best.ref)

-- One turn of the loop.
unfoldable pub consider : Peek → Adapter → Choice → Choice
consider p a best =
    let c = a.detect p in
    let chosen : Choice = record { adapter = some a; confidence = c } in
    if c == confidence_none
    then best
    else if ltb best.confidence c
    then chosen
    else if c == best.confidence && precedes a best.adapter
    then chosen
    else best

unfoldable pub consider_all : Peek → List Adapter → Choice → Choice
consider_all p [] best = best
consider_all p (a ∷ adapters) best = consider_all p adapters (consider p a best)

unfoldable pub select_adapter : Peek → List Adapter → Choice
select_adapter p adapters =
    consider_all p adapters (record { adapter = none; confidence = confidence_none })
