-- ===== src/Notify/Deadlines.antt =====
-- crates/tagents-core/src/notify/deadlines.rs: the keys that wait for their time. The proofs are in
-- the modules below.
pub mod Keyed
pub mod Timing
use tagents.Prelude.{
  ℕ, ◌-◌, ◌≤◌, min, Bool, true, false, not, Option, none, some, List, [], ◌∷◌, ◌++◌, map, leb,
  if◌then◌else◌, length,
}
use tagents.Text.{Text, text_eq}

-- `MAX_SLEEP_MS`
abbrev pub max_sleep_ms : ℕ
max_sleep_ms = 300_000

pub record Due : Type 0 where
  pub key : Text
  pub idle_since : ℕ

pub record Entry : Type 0 where
  pub key : Text
  pub idle_since : ℕ
  pub due_at : ℕ

pub record Deadlines : Type 0 where
  pub waiting : List Entry

-- `Deadlines::new`
abbrev pub new : Deadlines
new = record { waiting = [] }

-- The first entry of the key is changed where it stands; a key with none goes to the end.
unfoldable pub arm_entries : Text → ℕ → ℕ → List Entry → List Entry
arm_entries key idle_since due_at [] =
    record { key = key; idle_since = idle_since; due_at = due_at } ∷ []
arm_entries key idle_since due_at (entry ∷ rest) =
    if text_eq entry.key key
    then record entry { idle_since = idle_since; due_at = due_at } ∷ rest
    else entry ∷ arm_entries key idle_since due_at rest

-- `Deadlines::arm`
unfoldable pub arm : Text → ℕ → ℕ → Deadlines → Deadlines
unfolding arm_entries
arm key idle_since due_at d = record { waiting = arm_entries key idle_since due_at d.waiting }

-- `retain(p)`
unfoldable pub retain : (Entry → Bool) → List Entry → List Entry
retain p [] = []
retain p (entry ∷ rest) = let kept = retain p rest in if p entry then entry ∷ kept else kept

-- `Deadlines::cancel`
unfoldable pub cancel : Text → Deadlines → Deadlines
unfolding retain
cancel key d = record { waiting = retain (λ entry. not (text_eq entry.key key)) d.waiting }

-- `Deadlines::armed`
unfoldable pub armed : Deadlines → ℕ
armed d = length d.waiting

-- `.map(due_at).reduce(f64::min)`
unfoldable pub least : ℕ → List Entry → ℕ
least acc [] = acc
least acc (entry ∷ rest) = least (min acc entry.due_at) rest

unfoldable pub earliest : List Entry → Option ℕ
unfolding least
earliest [] = none
earliest (entry ∷ rest) = some (least entry.due_at rest)

-- `Deadlines::wait`, in milliseconds
unfoldable pub wait : ℕ → Deadlines → Option ℕ
unfolding earliest
wait now d = elim (earliest d.waiting) [
  | none ↦ none
  | some at ↦ some (min (at - now) max_sleep_ms)
]

abbrev pub due_of : Entry → Due
due_of entry = record { key = entry.key; idle_since = entry.idle_since }

abbrev pub is_due : ℕ → Entry → Bool
is_due now entry = leb entry.due_at now

-- `Deadlines::take_due`
unfoldable pub take_due : ℕ → Deadlines → List Due × Deadlines
unfolding retain
take_due now d = (
  map due_of (retain (is_due now) d.waiting),
  record { waiting = retain (λ entry. not (is_due now entry)) d.waiting },
)
