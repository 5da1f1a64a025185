-- ===== src/Notify/Deadlines/Keyed.antt =====
-- crates/tagents-core/src/notify/deadlines.rs: the proofs on the deadlines by their keys.
use tagents.Prelude.{
  ℕ, ◌≡◌, refl, Bool, false, not, Option, none, some, List, [], ◌∷◌, ◌++◌, map, arith, leb,
  Bool-cases, inl, inr, if◌then◌else◌,
}
use tagents.Text.{Text, text_eq, text_eq_iff}
use tagents.Dict.{member-append, member}
use tagents.Notify.Deadlines.{
  Due, Entry, Deadlines, new, arm_entries, arm, retain, cancel, due_of, is_due, take_due,
}

-- What is armed for a key: its idle-since and its deadline.
unfoldable pub entry_of : Text → List Entry → Option (ℕ × ℕ)
entry_of k [] = none
entry_of k (e ∷ es) = if text_eq e.key k then some (e.idle_since, e.due_at) else entry_of k es

abbrev pub deadline_of : Text → Deadlines → Option (ℕ × ℕ)
deadline_of k d = entry_of k d.waiting

-- The idle-since with which a key came due.
unfoldable pub due_since : Text → List Due → Option ℕ
due_since k [] = none
due_since k (e ∷ es) = if text_eq e.key k then some e.idle_since else due_since k es

abbrev pub keys : List Entry → List Text
keys es = map (λ e. e.key) es

-- No key stands twice.
abbrev pub IsUnique : List Entry → Type 0
IsUnique [] = Unit
IsUnique (e ∷ es) = (member e.key (keys es) ≡ false) × IsUnique es

entry_of-arm_entries :
    (k j : Text) (i t : ℕ) (es : List Entry)
    → entry_of j (arm_entries k i t es) ≡ (if text_eq k j then some (i, t) else entry_of j es)
unfolding entry_of arm_entries
entry_of-arm_entries k j i t [] = refl
entry_of-arm_entries k j i t (e ∷ es) = ground (
  arith,
  entry_of-arm_entries k j i t es,
  text_eq_iff e.key k,
  text_eq_iff e.key j,
  text_eq_iff k j,
)

entry_of-cancel :
    (k j : Text) (es : List Entry)
    → entry_of j (retain (λ e. not (text_eq e.key k)) es)
      ≡ (if text_eq k j then none else entry_of j es)
unfolding entry_of retain
entry_of-cancel k j [] = ground arith
entry_of-cancel k j (e ∷ es) =
    ground
      (arith, entry_of-cancel k j es, text_eq_iff e.key k, text_eq_iff e.key j, text_eq_iff k j)

-- A key that is not there has no entry.
entry_of-absent : (k : Text) (es : List Entry) → member k (keys es) ≡ false → entry_of k es ≡ none
unfolding entry_of member
entry_of-absent k [] h = refl
entry_of-absent k (e ∷ es) h = ground (arith, entry_of-absent k es)

keys-arm_entries :
    (k : Text) (i t : ℕ) (es : List Entry)
    → keys (arm_entries k i t es) ≡ (if member k (keys es) then keys es else keys es ++ k ∷ [])
unfolding arm_entries member
keys-arm_entries k i t [] = refl
keys-arm_entries k i t (e ∷ es) = ground (arith, keys-arm_entries k i t es, text_eq_iff e.key k)

member-retain :
    (k : Text) (p : Entry → Bool) (es : List Entry)
    → member k (keys es) ≡ false
    → member k (keys (retain p es)) ≡ false
unfolding retain member
member-retain k p [] h = refl
member-retain k p (e ∷ es) h = ground (arith, member-retain k p es)

retain-IsUnique : (p : Entry → Bool) (es : List Entry) → IsUnique es → IsUnique (retain p es)
unfolding retain
retain-IsUnique p [] u = u
retain-IsUnique p (e ∷ es) u = ground (arith, retain-IsUnique p es, member-retain e.key p es)

due_since-absent :
    (k : Text) (p : Entry → Bool) (es : List Entry)
    → member k (keys es) ≡ false
    → due_since k (map due_of (retain p es)) ≡ none
unfolding retain due_since member
due_since-absent k p [] h = refl
due_since-absent k p (e ∷ es) h =
    let ih = due_since-absent k p es in
    elim (Bool-cases (p e)) [
      | inl kept ↦ rw kept (ground (arith, ih))
      | inr dropped ↦ rw dropped (ground (arith, ih))
    ]

-- Taking out what is due takes the keys whose time has passed and leaves the others.
split_due :
    (k : Text) (now : ℕ) (es : List Entry) (i t : ℕ)
    → IsUnique es
    → entry_of k es ≡ some (i, t)
    → (due_since k (map due_of (retain (is_due now) es)) ≡ (if leb t now then some i else none))
      × (entry_of k (retain (λ e. not (is_due now e)) es)
          ≡ (if leb t now then none else some (i, t)))
unfolding entry_of retain due_since
split_due k now [] i t u h = cc
split_due k now (e ∷ es) i t u h =
    let ih = split_due k now es i t u.1 in
    let gone = due_since-absent k (is_due now) es in
    let out = entry_of-absent k (retain (λ e. not (is_due now e)) es) in
    let out' = member-retain k (λ e. not (is_due now e)) es in
    elim (Bool-cases (leb e.due_at now)) [
      | inl late ↦ rw late (ground (arith, text_eq_iff e.key k, ih, gone, out, out'))
      | inr early ↦ rw early (ground (arith, text_eq_iff e.key k, ih, gone, out, out'))
    ]

-- Arming a key gives it the new deadline and leaves every other key's; the keys keep their order, and
-- a new key comes last.
pub deadline_of-arm :
    (k j : Text) (i t : ℕ) (d : Deadlines)
    → (deadline_of j (arm k i t d) ≡ (if text_eq k j then some (i, t) else deadline_of j d))
      × (keys (arm k i t d).waiting
          ≡ (if member k (keys d.waiting) then keys d.waiting else keys d.waiting ++ k ∷ []))
unfolding arm
deadline_of-arm k j i t d =
    (entry_of-arm_entries k j i t d.waiting, keys-arm_entries k i t d.waiting)

-- Cancelling a key takes its deadline away and leaves every other key's.
pub deadline_of-cancel :
    (k j : Text) (d : Deadlines)
    → deadline_of j (cancel k d) ≡ (if text_eq k j then none else deadline_of j d)
unfolding cancel
deadline_of-cancel k j d = entry_of-cancel k j d.waiting

-- Of a key that is armed, taking out what is due gives its idle-since exactly when its time has
-- passed, and leaves its deadline exactly when it has not.
pub deadline_of-take_due :
    (k : Text) (now i t : ℕ) (d : Deadlines)
    → IsUnique d.waiting
    → deadline_of k d ≡ some (i, t)
    → (due_since k (take_due now d).0 ≡ (if leb t now then some i else none))
      × (deadline_of k (take_due now d).1 ≡ (if leb t now then none else some (i, t)))
unfolding take_due
deadline_of-take_due k now i t d u h = split_due k now d.waiting i t u h

-- A key that is armed is not another key of the list.
member-keys-arm_entries :
    (j k : Text) (i t : ℕ) (es : List Entry)
    → text_eq j k ≡ false
    → member j (keys es) ≡ false
    → member j (keys (arm_entries k i t es)) ≡ false
member-keys-arm_entries j k i t es other absent = elim (Bool-cases (member k (keys es))) [
  | inl old ↦ rw (keys-arm_entries k i t es, old) absent
  | inr new ↦
      rw (keys-arm_entries k i t es, new, member-append)
        (ground (arith, text_eq_iff j k, text_eq_iff k j))
]

arm_entries-IsUnique :
    (k : Text) (i t : ℕ) (es : List Entry) → IsUnique es → IsUnique (arm_entries k i t es)
unfolding arm_entries member
arm_entries-IsUnique k i t [] u = (refl, tt)
arm_entries-IsUnique k i t (e ∷ es) u = elim (Bool-cases (text_eq e.key k)) [
  | inl same ↦ rw same u
  | inr other ↦
      rw other (member-keys-arm_entries e.key k i t es other u.0, arm_entries-IsUnique k i t es u.1)
]

-- Every operation keeps each key once.
pub deadlines-IsUnique :
    (k : Text) (i t now : ℕ) (d : Deadlines)
    → IsUnique d.waiting
    → IsUnique (arm k i t d).waiting
      × IsUnique (cancel k d).waiting
      × IsUnique (take_due now d).1.waiting
unfolding arm cancel take_due
deadlines-IsUnique k i t now d u = (
  arm_entries-IsUnique k i t d.waiting u,
  retain-IsUnique (λ e. not (text_eq e.key k)) d.waiting u,
  retain-IsUnique (λ e. not (is_due now e)) d.waiting u,
)
