-- ===== src/Ingest/Flow/Journal.antt =====
-- The journal's histories are legal paths of the destination machine.
use rom_m_swarm.Common.{
  ℕ, Text, text_eq, text_eq_iff, text_eq_refl, ◌≡◌, ◌≢◌, refl, Bool, true, ◌&&◌, none, some, List,
  [], ◌∷◌, ◌++◌, put, get-put, last?, last?-append, arith, if◌then◌else◌, Option-cases, inl, inr,
}
use rom_m_swarm.Protocol.Destination.{DestinationState, receiving, state_eq, can_transition}
use rom_m_swarm.Protocol.Destination.Legal.{transition-can_transition}
use rom_m_swarm.Protocol.Destination.Paths.{follows}
use rom_m_swarm.Ingest.Flow.{
  Transition, MemoryJournal, history, current, FlowError, append, advance, start_of, own_test,
}

-- `Path`: the states that a history records.
unfoldable pub states_of : List Transition → List DestinationState
states_of [] = []
states_of (t ∷ ts) = t.to ∷ states_of ts

-- A history starts at `receiving` and goes on by legal moves.
unfoldable pub is_legal : List Transition → Bool
is_legal [] = true
is_legal (t ∷ ts) = state_eq t.to receiving && follows t.to (states_of ts)

follows-snoc :
    (e x t : Transition) (ts : List Transition)
    → last? (e ∷ ts) ≡ some x
    → can_transition x.to t.to ≡ true
    → follows e.to (states_of ts) ≡ true
    → follows e.to (states_of (ts ++ t ∷ [])) ≡ true
unfolding follows states_of
follows-snoc e x t [] l c h = ground arith
follows-snoc e x t (u ∷ us) l c h = ground (arith, follows-snoc u x t us l c)

is_legal-snoc :
    (x t : Transition) (h : List Transition)
    → last? h ≡ some x
    → can_transition x.to t.to ≡ true
    → is_legal h ≡ true
    → is_legal (h ++ t ∷ []) ≡ true
unfolding is_legal
is_legal-snoc x t [] l c h = cc
is_legal-snoc x t (e ∷ es) l c h = ground (arith, follows-snoc e x t es l c)

-- Every transfer's history is legal.
abbrev pub IsLegal : MemoryJournal → Type 0
IsLegal j = (id : Text) → is_legal (history j id) ≡ true

history-put :
    (id k : Text) (h : List Transition) (j : MemoryJournal)
    → history (put id h j) k ≡ (if text_eq id k then h else history j k)
unfolding history
history-put id k h j = ground (arith, get-put id k h j)

put-IsLegal :
    (id : Text) (h : List Transition) (j : MemoryJournal)
    → is_legal h ≡ true
    → IsLegal j
    → IsLegal (put id h j)
put-IsLegal id h j e l k = ground (arith, history-put id k h j, l k)

last-none : (h : List Transition) → last? h ≡ none → h ≡ []
last-none [] e = refl
last-none (x ∷ []) e = cc
last-none (x ∷ y ∷ h) e = absurd (cc (last-none (y ∷ h) e))

append_written :
    (j : MemoryJournal) (id : Text) (t : Transition)
    → (append j id t).1 ≡ none
    → (append j id t).0 ≡ put id (history j id ++ t ∷ []) j
unfolding append
append_written j id t h = ground arith

append_refused :
    (j : MemoryJournal) (id : Text) (t : Transition) {e : FlowError}
    → (append j id t).1 ≡ some e
    → (append j id t).0 ≡ j
unfolding append
append_refused j id t h = ground arith

-- What is written after a legal history makes a legal one.
written_legal :
    (j : MemoryJournal) (id : Text) (t : Transition)
    → is_legal (history j id) ≡ true
    → (append j id t).1 ≡ none
    → is_legal (history j id ++ t ∷ []) ≡ true
unfolding append current is_legal follows states_of
written_legal j id t l h = elim (Option-cases (last? (history j id))) [
  | inl e ↦ rw (last-none (history j id) e) (ground arith)
  | inr (x, e) ↦
      is_legal-snoc x t (history j id) e (ground (arith, (transition-can_transition x.to t.to).0)) l
]

-- `Append` of any transition leaves every history of a legal journal a legal path from
-- `receiving`.
pub append-IsLegal :
    (j : MemoryJournal) (id : Text) (t : Transition) → IsLegal j → IsLegal (append j id t).0
append-IsLegal j id t l = elim (Option-cases (append j id t).1) [
  | inl e ↦
      rw (append_written j id t e)
        (put-IsLegal id (history j id ++ t ∷ []) j (written_legal j id t (l id) e) l)
  | inr (x, e) ↦ rw (append_refused j id t e) l
]

-- A write for one transfer leaves the others as they were.
pub append_other :
    (j : MemoryJournal) (id k : Text) (t : Transition)
    → id ≢ k
    → history (append j id t).0 k ≡ history j k
unfolding append
append_other j id k t ne =
    ground (arith, history-put id k (history j id ++ t ∷ []) j, text_eq_iff id k)

pub advance-IsLegal :
    (now : ℕ) (j : MemoryJournal) (id : Text) (to : DestinationState)
    → IsLegal j
    → IsLegal (advance now j id to).0
unfolding advance
advance-IsLegal now j id to l = elim (Option-cases (own_test (start_of (current j id)) to)) [
  | inl e ↦
      rw (e, advance)
        (append-IsLegal j id (record { from = start_of (current j id); to = to; time = now }) l)
  | inr (x, e) ↦ rw (e, advance) l
]

pub advance_other :
    (now : ℕ) (j : MemoryJournal) (id k : Text) (to : DestinationState)
    → id ≢ k
    → history (advance now j id to).0 k ≡ history j k
unfolding advance
advance_other now j id k to ne =
    ground (
      arith,
      append_other j id k (record { from = start_of (current j id); to = to; time = now }) ne,
    )

current-written :
    (j : MemoryJournal) (id : Text) (h : List Transition) (t : Transition)
    → current (put id (h ++ t ∷ []) j) id ≡ some t.to
unfolding current
current-written j id h t =
    ground (arith, history-put id id (h ++ t ∷ []) j, text_eq_refl id, last?-append h t)

-- A transition that is recorded is the transfer's state afterwards.
pub current-advance :
    (now : ℕ) (j : MemoryJournal) (id : Text) (to : DestinationState)
    → (advance now j id to).1 ≡ none
    → current (advance now j id to).0 id ≡ some to
unfolding advance append
current-advance now j id to h = ground (
  arith,
  current-written j id (history j id)
      (record { from = start_of (current j id); to = to; time = now }),
)

-- A legal move from the transfer's state is recorded.
pub advance_legal :
    (now : ℕ) (j : MemoryJournal) (id : Text) (from to : DestinationState)
    → current j id ≡ some from
    → can_transition from to ≡ true
    → (advance now j id to).1 ≡ none
unfolding advance append own_test start_of
advance_legal now j id from to h c = ground (arith, (transition-can_transition from to).1 c)
