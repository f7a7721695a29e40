-- ===== src/Ingest/Reconcile/Evidence.antt =====
-- What a result of the wait rests on.
use rom_m_swarm.Common.{
  ℕ, ◌+◌, ◌≤◌, text_eq, text_eq_iff, All, ◌++◌, ap, ltb, ◌≡◌, ◌≢◌, ◌⊎◌, inl, inr, refl, Bool, true,
  not, none, some, List, [], ◌∷◌, length, any, arith, Option-cases, Bool-cases,
}
use rom_m_swarm.Protocol.Digest.{compare}
use rom_m_swarm.Protocol.Destination.{romm_matched, ingestion_timeout, source_active}
use rom_m_swarm.Ingest.Reconcile.{
  Expected, Observation, Round, Waited, AwaitResult, classify, agrees_strongly, settles, ends,
  await_rounds, await, effective_timeout, no_result, validate_expected, context_done,
  bad_expectation, no_library,
}

-- An observation that a match may rest on.
pub record Supports (expected : Expected) (obs : Observation) : Type 0 where
  pub is_present : obs.present ≡ true
  pub strong : agrees_strongly (compare obs.canonical expected.canonical) ≡ true
  pub filed : (obs.platform ≡ []) ⊎ (obs.platform ≡ expected.platform)

classify-Supports :
    (expected : Expected) (obs : Observation)
    → obs.present ≡ true
    → classify expected obs ≡ some romm_matched
    → Supports expected obs
unfolding classify
classify-Supports expected obs p h = record {
  is_present = p;
  strong = ground arith;
  filed = elim (Bool-cases (text_eq obs.platform [])) [
    | inl e ↦ inl ((text_eq_iff obs.platform []).0 e)
    | inr e ↦ inr ((text_eq_iff obs.platform expected.platform).0 (ground arith))
  ];
}

-- A turn that settles on a match has observed the item.
settles-Supports :
    (expected : Expected) (deadline : ℕ) (r : Round)
    → settles expected deadline r ≡ some romm_matched
    → (obs : Observation) × (r.answer ≡ some obs) × Supports expected obs
unfolding settles
settles-Supports expected deadline r h = elim (Option-cases r.answer) [
  | inl e ↦ ground arith
  | inr (obs, e) ↦
      let p : obs.present ≡ true = ground arith in
      (obs, e, classify-Supports expected obs p (ground arith))
]

-- The turns before the one that the result came from, that turn, and those left over.
pub record MatchedIn (expected : Expected) (deadline made : ℕ) (rounds : List Round) (w : Waited)
    : Type 0 where
  pub before : List Round
  pub turn : Round
  pub later : List Round
  pub obs : Observation
  pub split : rounds ≡ before ++ turn ∷ later
  pub counted : w.attempts ≡ made + length before + 1
  pub observed : turn.answer ≡ some obs
  pub supported : Supports expected obs
  pub undecided : All (λ r. settles expected deadline r ≡ none) before

await_rounds-MatchedIn :
    (expected : Expected) (started deadline made : ℕ) (rounds : List Round) (a : AwaitResult)
    → await_rounds expected started deadline made rounds ≡ some a
    → a.result.state ≡ romm_matched
    → MatchedIn expected deadline made rounds a.result
unfolding await_rounds ends
await_rounds-MatchedIn expected started deadline made [] a h m = cc
await_rounds-MatchedIn expected started deadline made (r ∷ rs) a h m =
    elim (Option-cases (settles expected deadline r)) [
      | inr (s, e) ↦
          let at_once : a ≡ ends s none (made + 1) started r = ground arith in
          let (obs, o, p) = settles-Supports expected deadline r (ground arith) in
          record {
            before = [];
            turn = r;
            later = rs;
            obs = obs;
            split = refl;
            counted = ground arith;
            observed = o;
            supported = p;
            undecided = tt;
          }
      | inl e ↦
          let goes_on : await_rounds expected started deadline (made + 1) rs ≡ some a =
            ground arith in
          let k = await_rounds-MatchedIn expected started deadline (made + 1) rs a goes_on m in
          record {
            before = r ∷ k.before;
            turn = k.turn;
            later = k.later;
            obs = k.obs;
            split = ap (λ xs. r ∷ xs) k.split;
            counted = omega (arith, k.counted);
            observed = k.observed;
            supported = k.supported;
            undecided = (e, k.undecided);
          }
    ]

-- Where `Await` reports `romm_matched`, the turn that it counts as its last observed an item
-- that is present, agrees strongly with the expected digest and is filed under no platform or
-- the expected one, and no turn before it settled the wait.
pub await_matched :
    (library : Bool) (timeout : ℕ) (expected : Expected) (started : ℕ) (rounds : List Round)
    (a : AwaitResult)
    → await library timeout expected started rounds ≡ some a
    → a.result.state ≡ romm_matched
    → MatchedIn expected (started + effective_timeout timeout) 0 rounds a.result
unfolding await no_result
await_matched library timeout expected started rounds a h m =
    await_rounds-MatchedIn expected started (started + effective_timeout timeout) 0 rounds a
      (ground arith) m

-- The clock has reached the deadline at the test of a turn.
abbrev pub expired : ℕ → Round → Bool
expired deadline r = not (ltb r.at_test deadline)

await_rounds-expired :
    (expected : Expected) (started deadline made : ℕ) (rounds : List Round)
    → any (expired deadline) rounds ≡ true
    → (a : AwaitResult) × (await_rounds expected started deadline made rounds ≡ some a)
      × (a.result.attempts ≤ made + length rounds)
unfolding await_rounds ends
await_rounds-expired expected started deadline made [] h = cc
await_rounds-expired expected started deadline made (r ∷ rs) h =
    elim (Option-cases (settles expected deadline r)) [
      | inr (s, e) ↦ (ends s none (made + 1) started r, ground arith, omega arith)
      | inl e ↦ elim (Bool-cases (expired deadline r)) [
        | inl x ↦ (ends ingestion_timeout none (made + 1) started r, ground arith, omega arith)
        | inr x ↦ elim (Bool-cases r.cancels) [
          | inl c ↦ (
            ends ingestion_timeout (some context_done) (made + 1) started r,
            ground arith,
            omega arith,
          )
          | inr c ↦
              let (a, k, l) =
                await_rounds-expired expected started deadline (made + 1) rs (ground arith) in
              (a, ground arith, omega arith)
        ]
      ]
    ]

-- Where the clock has reached the deadline at the test of some turn, `Await` returns, after no
-- more attempts than there are turns.
pub await_deadline :
    (library : Bool) (timeout : ℕ) (expected : Expected) (started : ℕ) (rounds : List Round)
    → any (expired (started + effective_timeout timeout)) rounds ≡ true
    → (a : AwaitResult) × (await library timeout expected started rounds ≡ some a)
      × (a.result.attempts ≤ length rounds)
unfolding await no_result
await_deadline library timeout expected started rounds h =
    elim (Option-cases (validate_expected expected)) [
      | inr (x, e) ↦ (no_result (some (bad_expectation x)), ground arith, omega arith)
      | inl e ↦ elim (Bool-cases library) [
        | inr b ↦ (no_result (some no_library), ground arith, omega arith)
        | inl b ↦
            let (a, k, l) =
              await_rounds-expired expected started (started + effective_timeout timeout) 0 rounds
                h in
            (a, ground arith, omega arith)
      ]
    ]

await_rounds_not_active :
    (expected : Expected) (started deadline made : ℕ) (rounds : List Round) (a : AwaitResult)
    → await_rounds expected started deadline made rounds ≡ some a
    → a.result.state ≢ source_active
unfolding await_rounds ends settles classify
await_rounds_not_active expected started deadline made [] a h n = cc
await_rounds_not_active expected started deadline made (r ∷ rs) a h n =
    ground (arith, await_rounds_not_active expected started deadline (made + 1) rs a)

-- The wait never reports an active source.
pub await_not_active :
    (library : Bool) (timeout : ℕ) (expected : Expected) (started : ℕ) (rounds : List Round)
    (a : AwaitResult)
    → await library timeout expected started rounds ≡ some a
    → a.result.state ≢ source_active
unfolding await no_result
await_not_active library timeout expected started rounds a h n = ground (
  arith,
  await_rounds_not_active expected started (started + effective_timeout timeout) 0 rounds a,
)
