-- ===== src/Mcp/Registry/Stops.antt =====
-- crates/tagents-core/src/mcp/server.rs, `Registry`: the lemmas on the stops of the calls.
use tagents.Prelude.{
  ℕ, ◌≤◌, ◌<◌, ◌≡◌, refl, sym, ◌∙◌, Bool, true, false, ◌||◌, some, List, [], ◌∷◌, ◌++◌, ◌==◌, arith,
  subst, Bool-cases, inl, inr,
}
use tagents.Mcp.Registry.{
  Entry, Calls, call_of, without, change_call, cancel_entry, stops_of, is_in, leave_out,
}

-- What is known of each call in the registry, its stop being one for which `stopping` says yes or no.
abbrev pub Fits : ℕ → (ℕ → Bool) → Bool → Calls → Type 0
Fits next stopping closing [] = Unit {0}
Fits next stopping closing ((s, e) ∷ cs) =
    ((e.stop ≡ s) × (s < next) × (stopping s ≡ (e.cancelled || closing)))
    × Fits next stopping closing cs

pub Fits-same :
    (next later : ℕ) (stopping other : ℕ → Bool) (closing : Bool) (cs : Calls)
    → next ≤ later
    → ((n : ℕ) → n < next → other n ≡ stopping n)
    → Fits next stopping closing cs
    → Fits later other closing cs
Fits-same next later stopping other closing [] bound same h = tt
Fits-same next later stopping other closing ((s, e) ∷ cs) bound same h =
    let low : s < next = h.0.1 in
    (
      (h.0.0, omega (arith, low, bound), same s low ∙ h.0.2),
      Fits-same next later stopping other closing cs bound same h.1,
    )

pub without-Fits :
    (s next : ℕ) (stopping : ℕ → Bool) (closing : Bool) (cs : Calls)
    → Fits next stopping closing cs
    → Fits next stopping closing (without s cs)
unfolding without
without-Fits s next stopping closing [] h = tt
without-Fits s next stopping closing ((t, e) ∷ cs) h = elim (Bool-cases (t == s)) [
  | inl same ↦ rw same (without-Fits s next stopping closing cs h.1)
  | inr other ↦ rw other (h.0, without-Fits s next stopping closing cs h.1)
]

pub call_of-Fits :
    (s next : ℕ) (stopping : ℕ → Bool) (closing : Bool) (cs : Calls) (e : Entry)
    → Fits next stopping closing cs
    → call_of s cs ≡ some e
    → (e.stop ≡ s) × (s < next) × (stopping s ≡ (e.cancelled || closing))
unfolding call_of
call_of-Fits s next stopping closing [] e h found = absurd (cc)
call_of-Fits s next stopping closing ((t, d) ∷ cs) e h found = elim (Bool-cases (t == s)) [
  | inl same ↦
      let this : d ≡ e = let it : some d ≡ some e = rw same at found in cc in
      let eq : t ≡ s = ground (arith, same) in
      subst (λ x. (x.stop ≡ s) × (s < next) × (stopping s ≡ (x.cancelled || closing))) this
        (subst (λ n. (d.stop ≡ n) × (n < next) × (stopping n ≡ (d.cancelled || closing))) eq h.0)
  | inr other ↦ call_of-Fits s next stopping closing cs e h.1 (rw other at found)
]

-- A call is cancelled and its stop taken.
pub cancelled-Fits :
    (s next : ℕ) (stopping : ℕ → Bool) (closing : Bool) (cs : Calls)
    → Fits next stopping closing cs
    → Fits next (λ n. (s == n) || stopping n) closing (change_call s cancel_entry cs)
unfolding change_call
cancelled-Fits s next stopping closing [] h = tt
cancelled-Fits s next stopping closing ((t, e) ∷ cs) h =
    let rest = cancelled-Fits s next stopping closing cs h.1 in
    elim (Bool-cases (t == s)) [
      | inl same ↦
          let reached : (s == t) ≡ true = ground (arith, same) in
          rw same ((h.0.0, h.0.1, rw reached refl), rest)
      | inr other ↦
          let apart : (s == t) ≡ false = ground (arith, other) in
          rw other ((h.0.0, h.0.1, rw apart h.0.2), rest)
    ]

or_true : (b : Bool) → (b || true) ≡ true
or_true b = ground arith

-- Every stop of the calls is among the taken ones.
pub taken-Fits :
    (next : ℕ) (stopping other : ℕ → Bool) (closing : Bool) (cs : Calls)
    → ((n : ℕ) → is_in n (stops_of cs) ≡ true → other n ≡ true)
    → Fits next stopping closing cs
    → Fits next other true cs
unfolding stops_of is_in
taken-Fits next stopping other closing [] sub h = tt
taken-Fits next stopping other closing ((s, e) ∷ cs) sub h =
    let own : (e.stop == s) ≡ true = let same = h.0.0 in ground (arith, same) in
    (
      (h.0.0, h.0.1, sub s (rw own refl) ∙ sym (or_true e.cancelled)),
      taken-Fits next stopping other closing cs (λ n there. sub n (ground (arith, there))) h.1,
    )

pub is_in-append : (n : ℕ) (ms ns : List ℕ) → is_in n (ms ++ ns) ≡ (is_in n ms || is_in n ns)
unfolding is_in
is_in-append n [] ns = refl
is_in-append n (m ∷ ms) ns = let ih = is_in-append n ms ns in ground (arith, ih)

pub is_in-stops_of :
    (n next : ℕ) (stopping : ℕ → Bool) (closing : Bool) (cs : Calls)
    → Fits next stopping closing cs
    → is_in n (stops_of cs) ≡ true
    → n < next
unfolding is_in stops_of
is_in-stops_of n next stopping closing [] h there = absurd (cc)
is_in-stops_of n next stopping closing ((s, e) ∷ cs) h there =
    let named : e.stop ≡ s = h.0.0 in
    let low : s < next = h.0.1 in
    elim (Bool-cases (e.stop == n)) [
      | inl same ↦ let eq : e.stop ≡ n = ground (arith, same) in omega (arith, eq, named, low)
      | inr other ↦ is_in-stops_of n next stopping closing cs h.1 (rw other at there)
    ]

pub is_in-leave_out :
    (n m : ℕ) (ms : List ℕ)
    → is_in m ms ≡ true
    → ((m == n) || is_in n (leave_out m ms)) ≡ ((m == n) || is_in n ms)
unfolding is_in leave_out
is_in-leave_out n m [] there = absurd (cc)
is_in-leave_out n m (k ∷ ms) there = elim (Bool-cases (k == m)) [
  | inl same ↦ let eq : k ≡ m = ground (arith, same) in rw same (ground (arith, eq))
  | inr other ↦ let ih = is_in-leave_out n m ms (rw other at there) in rw other (ground (arith, ih))
]
