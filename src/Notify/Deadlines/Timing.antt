-- ===== src/Notify/Deadlines/Timing.antt =====
-- crates/tagents-core/src/notify/deadlines.rs: the proofs on the times of the deadlines.
use tagents.Prelude.{
  ℕ, ◌+◌, ◌-◌, ◌≤◌, ◌<◌, min, ◌≡◌, ◌≢◌, refl, not, none, some, List, [], ◌∷◌, map, arith, leb,
  if◌then◌else◌, Bool-cases, ◌↔◌, ◌⊎◌, inl, inr,
}
use tagents.Notify.Deadlines.{
  max_sleep_ms, armed, Entry, Deadlines, retain, due_of, is_due, least, earliest, wait, take_due,
}

least-le_acc : (acc : ℕ) (es : List Entry) → least acc es ≤ acc
unfolding least
least-le_acc acc [] = omega arith
least-le_acc acc (e ∷ es) = omega (arith, least-le_acc (min acc e.due_at) es)

-- Before the earliest deadline nothing is due.
none_due :
    (now acc : ℕ) (es : List Entry)
    → now < least acc es
    → (now < acc) × (retain (is_due now) es ≡ []) × (retain (λ e. not (is_due now e)) es ≡ es)
unfolding least retain
none_due now acc [] h = (h, refl, refl)
none_due now acc (e ∷ es) h = let ih = none_due now (min acc e.due_at) es h in ground arith

-- At the earliest deadline something is due.
some_due :
    (now acc : ℕ) (es : List Entry)
    → least acc es ≤ now
    → (acc ≤ now) ⊎ (retain (is_due now) es ≢ [])
unfolding least retain
some_due now acc [] h = inl h
some_due now acc (e ∷ es) h = let ih = some_due now (min acc e.due_at) es h in ground arith

map-ne-nil : (es : List Entry) → es ≢ [] → map due_of es ≢ []
map-ne-nil [] h e = absurd (h refl)
map-ne-nil (x ∷ es) h e = cc

before_earliest :
    (t : ℕ) (e : Entry) (es : List Entry)
    → t < least e.due_at es
    → take_due t (record { waiting = e ∷ es }) ≡ ([], record { waiting = e ∷ es })
unfolding take_due retain
before_earliest t e es h =
    let none = none_due t e.due_at es h in
    elim (Bool-cases (leb e.due_at t)) [
      | inl late ↦ absurd (ground arith)
      | inr early ↦ rw (early, none.1, none.2)
    ]

at_earliest :
    (t : ℕ) (e : Entry) (es : List Entry)
    → least e.due_at es ≤ t
    → (take_due t (record { waiting = e ∷ es })).0 ≢ []
unfolding take_due retain
at_earliest t e es h =
    map-ne-nil (if leb e.due_at t then e ∷ retain (is_due t) es else retain (is_due t) es)
      (let some = some_due t e.due_at es h in ground arith)

-- The wait is never longer than the cap, nothing comes due before the wait is over, and a wait below
-- the cap ends with a key that is due.
pub wait_exact :
    (now ms : ℕ) (d : Deadlines)
    → wait now d ≡ some ms
    → (ms ≤ max_sleep_ms)
      × ((t : ℕ) → now ≤ t → t < now + ms → take_due t d ≡ ([], d))
      × (ms < max_sleep_ms → (take_due (now + ms) d).0 ≢ [])
unfolding wait earliest
wait_exact now ms d h = exact d.waiting h
  where
    exact :
        (es : List Entry)
        → wait now (record { waiting = es }) ≡ some ms
        → (ms ≤ max_sleep_ms)
          × ((t : ℕ)
              → now ≤ t
              → t < now + ms
              → take_due t (record { waiting = es }) ≡ ([], record { waiting = es }))
          × (ms < max_sleep_ms → (take_due (now + ms) (record { waiting = es })).0 ≢ [])
    exact [] g = cc
    exact (e ∷ es) g =
        let same : min (least e.due_at es - now) max_sleep_ms ≡ ms = ground arith in
        (
          omega arith,
          (λ t le lt. before_earliest t e es (omega arith)),
          (λ lt. at_earliest (now + ms) e es (omega arith)),
        )

-- No wait is owed exactly when no key is armed.
pub wait-eq-none_iff : (now : ℕ) (d : Deadlines) → (wait now d ≡ none) ↔ (armed d ≡ 0)
unfolding wait earliest armed
wait-eq-none_iff now d = ground arith
