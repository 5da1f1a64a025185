-- ===== src/Mcp/Registry/Closing.antt =====
-- crates/tagents-core/src/mcp/server.rs, `Registry`: the proofs on when a call is stopped.
use tagents.Prelude.{
  ℕ, ◌+◌, ◌<◌, ◌≡◌, refl, sym, ap, ◌∙◌, Bool, true, false, ◌&&◌, ◌||◌, Option, none, some, List, [],
  ◌∷◌, ◌++◌, ◌==◌, arith, subst, if◌then◌else◌, Bool-cases, inl, inr,
}
use tagents.Mcp.Registry.{
  RequestId, is_falsy, Entry, call_of, without, serial_of, RegistryState, empty, begin, cancel_call,
  cancel_serial, cancel, finish, settle_call, settle, stops_of, stop_all, is_in, leave_out, stop,
  Action, begins, cancels, settles, finishes, stops, stops_all, apply, apply_all,
}
use tagents.Mcp.Registry.Stops.{
  Fits, Fits-same, without-Fits, call_of-Fits, cancelled-Fits, taken-Fits, is_in-append,
  is_in-stops_of, is_in-leave_out,
}

-- The stop is set, or a thread has taken it and is about to set it.
abbrev pub is_stopping : ℕ → RegistryState → Bool
is_stopping n st = is_in n st.set || is_in n st.taken

record IsSound (st : RegistryState) : Type 0 where
  fits : Fits st.next (λ n. is_stopping n st) st.closing st.calls
  below : (n : ℕ) → is_stopping n st ≡ true → n < st.next

-- The serial that comes next names no stop yet.
next_unknown : (st : RegistryState) → IsSound st → is_stopping st.next st ≡ false
next_unknown st h = elim (Bool-cases (is_stopping st.next st)) [
  | inl there ↦ let low = h.below st.next there in absurd (omega (arith, low))
  | inr not_there ↦ not_there
]

set_next :
    (st : RegistryState) (n : ℕ)
    → is_in n (if st.closing then st.next ∷ st.set else st.set)
      ≡ ((st.closing && (st.next == n)) || is_in n st.set)
unfolding is_in
set_next st n = elim (Bool-cases st.closing) [ inl h ↦ rw h refl | inr h ↦ rw h refl ]

begin-IsSound : (i : RequestId) (st : RegistryState) → IsSound st → IsSound (begin i st)
unfolding begin
begin-IsSound i st h = record {
  fits = (
    (refl, omega arith, new),
    Fits-same st.next (st.next + 1) (λ n. is_stopping n st) _ st.closing (without st.next st.calls)
        (omega arith) same (without-Fits st.next st.next _ st.closing st.calls h.fits),
  );
  below = λ n there.
      let known = h.below n in
      let there' : ((st.closing && (st.next == n)) || is_in n st.set || is_in n st.taken) ≡ true =
        ground (arith, there, set_next st n) in
      ground (arith, there', known);
}
  where
    new :
        (is_in st.next (if st.closing then st.next ∷ st.set else st.set) || is_in st.next st.taken)
        ≡ (false || st.closing)
    new = ground (arith, set_next st st.next, next_unknown st h)

    same :
        (n : ℕ)
        → n < st.next
        → (is_in n (if st.closing then st.next ∷ st.set else st.set) || is_in n st.taken)
          ≡ is_stopping n st
    same n low = ground (arith, set_next st n, low)

cancel_call-IsSound :
    (s : ℕ) (st : RegistryState) (o : Option Entry)
    → call_of s st.calls ≡ o
    → IsSound st
    → IsSound (cancel_call s o st)
cancel_call-IsSound s st none found h = h
cancel_call-IsSound s st (some e) found h =
    let this = call_of-Fits s st.next (λ n. is_stopping n st) st.closing st.calls e h.fits found in
    let named : e.stop ≡ s = this.0 in
    record {
      fits =
          Fits-same st.next st.next (λ n. (s == n) || is_stopping n st) _ st.closing _ (omega arith)
            (λ n low. taken n ∙ ap (λ k. (k == n) || is_stopping n st) named)
            (cancelled-Fits s st.next (λ n. is_stopping n st) st.closing st.calls h.fits);
      below = λ n there.
          let known = h.below n in
          let low : s < st.next = this.1 in ground (arith, there, taken n, known, named, low);
    }
  where
    taken :
        (n : ℕ)
        → (is_in n st.set || is_in n (e.stop ∷ st.taken)) ≡ ((e.stop == n) || is_stopping n st)
    taken n = unfold is_in in ground arith

cancel-IsSound : (i : RequestId) (st : RegistryState) → IsSound st → IsSound (cancel i st)
unfolding cancel
cancel-IsSound i st h = elim (Bool-cases (is_falsy i)) [
  | inl falsy ↦ rw falsy h
  | inr real ↦ rw real (cases (serial_of i st.by_id))
]
  where
    cases : (o : Option ℕ) → IsSound (cancel_serial o st)
    cases none = h
    cases (some s) = cancel_call-IsSound s st (call_of s st.calls) refl h

finish-IsSound : (s : ℕ) (st : RegistryState) → IsSound st → IsSound (finish s st)
unfolding finish
finish-IsSound s st h = record {
  fits = without-Fits s st.next _ st.closing st.calls h.fits;
  below = h.below;
}

settle-IsSound : (s : ℕ) (st : RegistryState) → IsSound st → IsSound (settle s st).1
unfolding settle
settle-IsSound s st h = cases (call_of s st.calls)
  where
    cases : (o : Option Entry) → IsSound (settle_call s st o).1
    cases none = h
    cases (some e) = record { fits = h.fits; below = h.below }

stop_all-IsSound : (st : RegistryState) → IsSound st → IsSound (stop_all st)
unfolding stop_all
stop_all-IsSound st h = record {
  fits =
      taken-Fits st.next (λ n. is_stopping n st) _ st.closing st.calls
        (λ n there. ground (arith, taken n, there)) h.fits;
  below = λ n there.
      let known = h.below n in
      let own = is_in-stops_of n st.next (λ m. is_stopping m st) st.closing st.calls h.fits in
      ground (arith, taken n, there, known, own);
}
  where
    taken :
        (n : ℕ)
        → (is_in n st.set || is_in n (stops_of st.calls ++ st.taken))
          ≡ (is_in n (stops_of st.calls) || is_stopping n st)
    taken n = ground (arith, is_in-append n (stops_of st.calls) st.taken)

stop-IsSound : (m : ℕ) (st : RegistryState) → IsSound st → IsSound (stop m st)
unfolding stop
stop-IsSound m st h = elim (Bool-cases (is_in m st.taken)) [
  | inl taken ↦ rw taken (record {
    fits =
        Fits-same st.next st.next (λ n. is_stopping n st) _ st.closing st.calls (omega arith)
          (λ n low. moved taken n) h.fits;
    below = λ n there. h.below n (sym (moved taken n) ∙ there);
  })
  | inr other ↦ rw other h
]
  where
    moved :
        is_in m st.taken ≡ true
        → (n : ℕ) → (is_in n (m ∷ st.set) || is_in n (leave_out m st.taken)) ≡ is_stopping n st
    moved taken n =
        unfold is_in in
        (elim (Bool-cases (m == n)) [
          | inl same ↦
              let eq : m ≡ n = ground (arith, same) in
              let there : is_in n st.taken ≡ true = subst (λ k. is_in k st.taken ≡ true) eq taken in
              ground (arith, same, there)
          | inr apart ↦ let left = is_in-leave_out n m st.taken taken in ground (arith, apart, left)
        ])

apply_all-IsSound :
    (as_list : List Action) (st : RegistryState) → IsSound st → IsSound (apply_all as_list st)
unfolding apply_all apply
apply_all-IsSound [] st h = h
apply_all-IsSound (begins j ∷ as_list) st h =
    apply_all-IsSound as_list (begin j st) (begin-IsSound j st h)
apply_all-IsSound (cancels j ∷ as_list) st h =
    apply_all-IsSound as_list (cancel j st) (cancel-IsSound j st h)
apply_all-IsSound (settles s ∷ as_list) st h =
    apply_all-IsSound as_list (settle s st).1 (settle-IsSound s st h)
apply_all-IsSound (finishes s ∷ as_list) st h =
    apply_all-IsSound as_list (finish s st) (finish-IsSound s st h)
apply_all-IsSound (stops m ∷ as_list) st h =
    apply_all-IsSound as_list (stop m st) (stop-IsSound m st h)
apply_all-IsSound (stops_all ∷ as_list) st h =
    apply_all-IsSound as_list (stop_all st) (stop_all-IsSound st h)

-- In whatever order the threads take their steps: the stop of a call in the registry is set, or has been taken
-- out by a `cancel` or a `stop_all` that is about to set it, exactly if the call was cancelled or the server
-- has begun to end. A call that begins after that is no exception.
pub apply_all-is_stopping :
    (as_list : List Action) (s : ℕ) (e : Entry)
    → call_of s (apply_all as_list empty).calls ≡ some e
    → is_stopping e.stop (apply_all as_list empty)
      ≡ (e.cancelled || (apply_all as_list empty).closing)
apply_all-is_stopping as_list s e found =
    let st = apply_all as_list empty in
    let sound : IsSound st =
      apply_all-IsSound as_list empty
        (record { fits = tt; below = λ n there. unfold is_in in absurd (cc) }) in
    let this =
      call_of-Fits s st.next (λ n. is_stopping n st) st.closing st.calls e sound.fits found in
    ap (λ n. is_stopping n st) this.0 ∙ this.2
