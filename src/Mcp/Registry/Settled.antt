-- ===== src/Mcp/Registry/Settled.antt =====
-- crates/tagents-core/src/mcp/server.rs, `Registry`: the proofs on `settle`.
use tagents.Prelude.{
  ℕ, ◌+◌, ◌<◌, ◌≡◌, refl, sym, ap, ◌∙◌, Bool, true, false, not, ◌&&◌, ◌||◌, Option, none, some,
  List, [], ◌∷◌, ◌==◌, arith, subst, if◌then◌else◌, Bool-cases, inl, inr,
}
use tagents.Mcp.Registry.{
  RequestId, id_eq, is_falsy, Entry, Calls, ById, call_of, without, change_call, serial_of, release,
  RegistryState, begin, cancel_entry, cancel_call, cancel_serial, cancel, is_serial, empty, finish,
  released, settle_call, settle, stop_all, Action, begins, cancels, settles, finishes, stops,
  stops_all, is_in, stop, apply, apply_all,
}
use tagents.Mcp.Registry.Maps.{
  id_eq_iff, serial_of-release, call_of-without, call_of-change_other, call_of-change_self,
}

-- Whether a request with the id is cancelled, from whether its call is the latest with the id.
abbrev pub was_cancelled : RequestId → Bool → List Action → Bool
was_cancelled id latest [] = false
was_cancelled id latest (begins j ∷ as_list) = was_cancelled id (latest && not (id_eq j id)) as_list
was_cancelled id latest (cancels j ∷ as_list) =
    (latest && id_eq j id && not (is_falsy j)) || was_cancelled id latest as_list
was_cancelled id latest (settles t ∷ as_list) = was_cancelled id latest as_list
was_cancelled id latest (finishes t ∷ as_list) = was_cancelled id latest as_list
was_cancelled id latest (stops n ∷ as_list) = was_cancelled id latest as_list
was_cancelled id latest (stops_all ∷ as_list) = was_cancelled id latest as_list

-- The call is neither settled nor taken out.
abbrev pub IsRunning : ℕ → List Action → Type 0
IsRunning s [] = Unit {0}
IsRunning s (begins j ∷ as_list) = IsRunning s as_list
IsRunning s (cancels j ∷ as_list) = IsRunning s as_list
IsRunning s (settles t ∷ as_list) = ((t == s) ≡ false) × IsRunning s as_list
IsRunning s (finishes t ∷ as_list) = ((t == s) ≡ false) × IsRunning s as_list
IsRunning s (stops n ∷ as_list) = IsRunning s as_list
IsRunning s (stops_all ∷ as_list) = IsRunning s as_list

-- The call `s` of the request `id` is in the registry, cancelled or not, and the latest of its id or not.
record Tracks (s : ℕ) (id : RequestId) (latest cancelled : Bool) (st : RegistryState) : Type 0 where
  stop : ℕ
  entry : call_of s st.calls ≡ some (record { id = id; stop = stop; cancelled = cancelled })
  now : is_serial s (serial_of id st.by_id) ≡ latest
  only : (j : RequestId) → id_eq j id ≡ false → is_serial s (serial_of j st.by_id) ≡ false
  fresh : s < st.next

serial_of-begin :
    (i j : RequestId) (n : ℕ) (m : ById)
    → serial_of i ((j, n) ∷ release j m) ≡ (if id_eq j i then some n else serial_of i m)
unfolding serial_of
serial_of-begin i j n m = elim (Bool-cases (id_eq j i)) [
  | inl same ↦ rw same refl
  | inr other ↦ rw other (serial_of-release j i m ∙ rw other refl)
]

call_of-begin :
    (s n : ℕ) (e : Entry) (cs : Calls)
    → (n == s) ≡ false
    → call_of s ((n, e) ∷ without n cs) ≡ call_of s cs
unfolding call_of
call_of-begin s n e cs h = rw h (call_of-without n s cs ∙ rw h refl)

module _ (s : ℕ) (id : RequestId) where
  -- What becomes of `latest` at an id that begins again.
  is_serial-begin :
      (i j : RequestId) (n : ℕ) (m : ById)
      → (n == s) ≡ false
      → is_serial s (serial_of i ((j, n) ∷ release j m))
        ≡ (is_serial s (serial_of i m) && not (id_eq j i))
  is_serial-begin i j n m h = elim (Bool-cases (id_eq j i)) [
    | inl same ↦ ap (is_serial s) (serial_of-begin i j n m) ∙ rw same (h ∙ sym (ground arith))
    | inr other ↦ ap (is_serial s) (serial_of-begin i j n m) ∙ rw other (sym (ground arith))
  ]

  begin-Tracks :
      (j : RequestId) (latest cancelled : Bool) (st : RegistryState)
      → Tracks s id latest cancelled st
      → Tracks s id (latest && not (id_eq j id)) cancelled (begin j st)
  unfolding begin
  begin-Tracks j latest cancelled st t =
      let other : (st.next == s) ≡ false = let fresh = t.fresh in ground (arith, fresh) in
      record {
        stop = t.stop;
        entry = call_of-begin s st.next _ st.calls other ∙ t.entry;
        now = is_serial-begin id j st.next st.by_id other ∙ ap (λ b. b && not (id_eq j id)) t.now;
        only = λ i apart.
            is_serial-begin i j st.next st.by_id other
            ∙ ap (λ b. b && not (id_eq j i)) (t.only i apart);
        fresh = omega (arith, t.fresh);
      }

  -- A call whose entry changes while the ids do not.
  entry-Tracks :
      (latest cancelled : Bool) (stop : ℕ) (calls : Calls) (taken : List ℕ) (before : Bool)
      (st : RegistryState)
      → Tracks s id latest before st
      → call_of s calls ≡ some (record { id = id; stop = stop; cancelled = cancelled })
      → Tracks s id latest cancelled (record st { calls = calls; taken = taken })
  entry-Tracks latest cancelled stop calls taken before st t e = record {
    stop = stop;
    entry = e;
    now = t.now;
    only = t.only;
    fresh = t.fresh;
  }

  is_serial-eq : (o : Option ℕ) → is_serial s o ≡ true → o ≡ some s
  is_serial-eq none h = absurd (cc)
  is_serial-eq (some t) h = ap some (ground (arith, h))

  cancel_call_other :
      (u : ℕ) (o : Option Entry) (latest cancelled : Bool) (st : RegistryState)
      → (u == s) ≡ false
      → Tracks s id latest cancelled st
      → Tracks s id latest cancelled (cancel_call u o st)
  cancel_call_other u none latest cancelled st other t = t
  cancel_call_other u (some e) latest cancelled st other t =
      entry-Tracks latest cancelled t.stop (change_call u cancel_entry st.calls) (e.stop ∷ st.taken)
        cancelled st t (call_of-change_other u s cancel_entry st.calls other ∙ t.entry)

  cancel_call_self :
      (latest cancelled : Bool) (st : RegistryState)
      → Tracks s id latest cancelled st
      → Tracks s id latest true (cancel_call s (call_of s st.calls) st)
  cancel_call_self latest cancelled st t =
      subst (λ o. Tracks s id latest true (cancel_call s o st)) (sym t.entry)
        (entry-Tracks latest true t.stop (change_call s cancel_entry st.calls) (t.stop ∷ st.taken)
          cancelled st t (call_of-change_self s cancel_entry st.calls _ t.entry))

  cancel_serial-Tracks :
      (o : Option ℕ) (latest cancelled : Bool) (st : RegistryState)
      → Tracks s id latest cancelled st
      → Tracks s id latest (is_serial s o || cancelled) (cancel_serial o st)
  cancel_serial-Tracks none latest cancelled st t = t
  cancel_serial-Tracks (some u) latest cancelled st t = elim (Bool-cases (u == s)) [
    | inl same ↦
        let eq : s ≡ u = ground (arith, same) in
        rw same (
          subst (λ v. Tracks s id latest true (cancel_call v (call_of v st.calls) st)) eq
            (cancel_call_self latest cancelled st t))
    | inr other ↦ rw other (cancel_call_other u (call_of u st.calls) latest cancelled st other t)
  ]

  -- A cancellation reaches the call exactly if it names the id of the call, which is the latest with it.
  is_serial-cancel :
      (j : RequestId) (latest cancelled : Bool) (st : RegistryState)
      → Tracks s id latest cancelled st
      → is_serial s (serial_of j st.by_id) ≡ (latest && id_eq j id)
  is_serial-cancel j latest cancelled st t = elim (Bool-cases (id_eq j id)) [
    | inl same ↦
        ap (λ i. is_serial s (serial_of i st.by_id)) ((id_eq_iff j id).0 same)
        ∙ t.now
        ∙ rw same (ground arith)
    | inr other ↦ t.only j other ∙ rw other (ground arith)
  ]

  cancel-Tracks :
      (j : RequestId) (latest cancelled : Bool) (st : RegistryState)
      → Tracks s id latest cancelled st
      → Tracks s id latest ((latest && id_eq j id && not (is_falsy j)) || cancelled) (cancel j st)
  unfolding cancel
  cancel-Tracks j latest cancelled st t = elim (Bool-cases (is_falsy j)) [
    | inl falsy ↦
        let none_now : ((latest && id_eq j id && not (is_falsy j)) || cancelled) ≡ cancelled =
          ground (arith, falsy) in
        rw (none_now, falsy) t
    | inr real ↦
        let reach : ((latest && id_eq j id && not (is_falsy j)) || cancelled)
            ≡ (is_serial s (serial_of j st.by_id) || cancelled) =
          rw (is_serial-cancel j latest cancelled st t) (ground (arith, real)) in
        rw (reach, real) (cancel_serial-Tracks (serial_of j st.by_id) latest cancelled st t)
  ]

  finish-Tracks :
      (u : ℕ) (latest cancelled : Bool) (st : RegistryState)
      → (u == s) ≡ false
      → Tracks s id latest cancelled st
      → Tracks s id latest cancelled (finish u st)
  unfolding finish
  finish-Tracks u latest cancelled st other t =
      entry-Tracks latest cancelled t.stop (without u st.calls) st.taken cancelled st t
        (call_of-without u s st.calls ∙ rw other t.entry)

  is_serial-release :
      (u : ℕ) (i j : RequestId) (m : ById)
      → (u == s) ≡ false
      → serial_of j m ≡ some u
      → is_serial s (serial_of i (release j m)) ≡ is_serial s (serial_of i m)
  is_serial-release u i j m other names = elim (Bool-cases (id_eq j i)) [
    | inl same ↦
        ap (is_serial s) (serial_of-release j i m)
        ∙ rw same (
            sym (
              ap (λ k. is_serial s (serial_of k m)) (sym ((id_eq_iff j i).0 same))
              ∙ ap (is_serial s) names
              ∙ other))
    | inr apart ↦ ap (is_serial s) (serial_of-release j i m) ∙ rw apart refl
  ]

  released-Tracks :
      (u : ℕ) (j : RequestId) (latest cancelled : Bool) (st : RegistryState)
      → (u == s) ≡ false
      → Tracks s id latest cancelled st
      → Tracks s id latest cancelled (released u j st)
  released-Tracks u j latest cancelled st other t =
      elim (Bool-cases (is_serial u (serial_of j st.by_id))) [
        | inl names ↦
            let named = named_by (serial_of j st.by_id) names in
            rw names (record {
              stop = t.stop;
              entry = t.entry;
              now = is_serial-release u id j st.by_id other named ∙ t.now;
              only = λ i apart. is_serial-release u i j st.by_id other named ∙ t.only i apart;
              fresh = t.fresh;
            })
        | inr others_now ↦ rw others_now t
      ]
    where
      named_by : (o : Option ℕ) → is_serial u o ≡ true → o ≡ some u
      named_by none h = absurd (cc)
      named_by (some v) h = ap some (ground (arith, h))

  settle-Tracks :
      (u : ℕ) (latest cancelled : Bool) (st : RegistryState)
      → (u == s) ≡ false
      → Tracks s id latest cancelled st
      → Tracks s id latest cancelled (settle u st).1
  unfolding settle
  settle-Tracks u latest cancelled st other t = cases (call_of u st.calls)
    where
      cases : (o : Option Entry) → Tracks s id latest cancelled (settle_call u st o).1
      cases none = t
      cases (some e) = released-Tracks u e.id latest cancelled st other t

  stop_all-Tracks :
      (latest cancelled : Bool) (st : RegistryState)
      → Tracks s id latest cancelled st
      → Tracks s id latest cancelled (stop_all st)
  unfolding stop_all
  stop_all-Tracks latest cancelled st t = record {
    stop = t.stop;
    entry = t.entry;
    now = t.now;
    only = t.only;
    fresh = t.fresh;
  }

  stop-Tracks :
      (n : ℕ) (latest cancelled : Bool) (st : RegistryState)
      → Tracks s id latest cancelled st
      → Tracks s id latest cancelled (stop n st)
  unfolding tagents.Mcp.Registry.stop
  stop-Tracks n latest cancelled st t = elim (Bool-cases (is_in n st.taken)) [
    | inl taken ↦
        rw taken
          (record { stop = t.stop; entry = t.entry; now = t.now; only = t.only; fresh = t.fresh })
    | inr other ↦ rw other t
  ]

  -- What `settle` says of the call behind the actions.
  settled :
      (latest cancelled : Bool) (st : RegistryState)
      → Tracks s id latest cancelled st
      → (settle s st).0 ≡ not cancelled
  unfolding settle
  settled latest cancelled st t = ap (λ o. (settle_call s st o).0) t.entry

  settle-apply_all :
      (as_list : List Action) (latest cancelled : Bool) (st : RegistryState)
      → IsRunning s as_list
      → Tracks s id latest cancelled st
      → (settle s (apply_all as_list st)).0 ≡ not (cancelled || was_cancelled id latest as_list)
  unfolding apply_all apply
  settle-apply_all [] latest cancelled st run t =
      settled latest cancelled st t ∙ ap not (ground arith)
  settle-apply_all (begins j ∷ as_list) latest cancelled st run t =
      settle-apply_all as_list (latest && not (id_eq j id)) cancelled (begin j st) run
        (begin-Tracks j latest cancelled st t)
  settle-apply_all (cancels j ∷ as_list) latest cancelled st run t =
      settle-apply_all as_list latest ((latest && id_eq j id && not (is_falsy j)) || cancelled)
        (cancel j st) run (cancel-Tracks j latest cancelled st t)
      ∙ ap not (ground arith)
  settle-apply_all (settles u ∷ as_list) latest cancelled st run t =
      settle-apply_all as_list latest cancelled (settle u st).1 run.1
        (settle-Tracks u latest cancelled st run.0 t)
  settle-apply_all (finishes u ∷ as_list) latest cancelled st run t =
      settle-apply_all as_list latest cancelled (finish u st) run.1
        (finish-Tracks u latest cancelled st run.0 t)
  settle-apply_all (stops n ∷ as_list) latest cancelled st run t =
      settle-apply_all as_list latest cancelled (stop n st) run
        (stop-Tracks n latest cancelled st t)
  settle-apply_all (stops_all ∷ as_list) latest cancelled st run t =
      settle-apply_all as_list latest cancelled (stop_all st) run
        (stop_all-Tracks latest cancelled st t)

-- The serials in the map of ids have been given out.
abbrev Below : ℕ → Option ℕ → Type 0
Below n none = Unit {0}
Below n (some u) = u < n

abbrev IsFresh : RegistryState → Type 0
IsFresh st = (j : RequestId) → Below st.next (serial_of j st.by_id)

Below-later : (n : ℕ) (o : Option ℕ) → Below n o → Below (n + 1) o
Below-later n none h = tt
Below-later n (some u) h = omega (arith, h)

Below-release :
    (n : ℕ) (i j : RequestId) (m : ById)
    → Below n (serial_of j m)
    → Below n (serial_of j (release i m))
Below-release n i j m h = subst (Below n) (sym (serial_of-release i j m)) (cases (id_eq i j))
  where
    cases : (b : Bool) → Below n (if b then none else serial_of j m)
    cases true = tt
    cases false = h

begin-IsFresh : (i : RequestId) (st : RegistryState) → IsFresh st → IsFresh (begin i st)
unfolding begin
begin-IsFresh i st h j =
    subst (Below (st.next + 1)) (sym (serial_of-begin j i st.next st.by_id)) (cases (id_eq i j))
  where
    cases : (b : Bool) → Below (st.next + 1) (if b then some st.next else serial_of j st.by_id)
    cases true = omega arith
    cases false = Below-later st.next (serial_of j st.by_id) (h j)

released-IsFresh :
    (s : ℕ) (i : RequestId) (st : RegistryState) → IsFresh st → IsFresh (released s i st)
released-IsFresh s i st h j = elim (Bool-cases (is_serial s (serial_of i st.by_id))) [
  | inl named ↦ rw named (Below-release st.next i j st.by_id (h j))
  | inr other ↦ rw other (h j)
]

cancel-IsFresh : (i : RequestId) (st : RegistryState) → IsFresh st → IsFresh (cancel i st)
unfolding cancel
cancel-IsFresh i st h = elim (Bool-cases (is_falsy i)) [
  | inl falsy ↦ rw falsy h
  | inr real ↦ rw real (cases (serial_of i st.by_id))
]
  where
    cases : (o : Option ℕ) → IsFresh (cancel_serial o st)
    cases none = h
    cases (some s) = taking s (call_of s st.calls)
      where
        taking : (s : ℕ) (o : Option Entry) → IsFresh (cancel_call s o st)
        taking s none = h
        taking s (some e) = h

stop-IsFresh : (n : ℕ) (st : RegistryState) → IsFresh st → IsFresh (stop n st)
unfolding tagents.Mcp.Registry.stop
stop-IsFresh n st h = elim (Bool-cases (is_in n st.taken)) [
  | inl taken ↦ rw taken h
  | inr other ↦ rw other h
]

settle-IsFresh : (s : ℕ) (st : RegistryState) → IsFresh st → IsFresh (settle s st).1
unfolding settle
settle-IsFresh s st h = cases (call_of s st.calls)
  where
    cases : (o : Option Entry) → IsFresh (settle_call s st o).1
    cases none = h
    cases (some e) = released-IsFresh s e.id st h

apply_all-IsFresh :
    (as_list : List Action) (st : RegistryState) → IsFresh st → IsFresh (apply_all as_list st)
unfolding apply_all apply finish stop_all
apply_all-IsFresh [] st h = h
apply_all-IsFresh (begins j ∷ as_list) st h =
    apply_all-IsFresh as_list (begin j st) (begin-IsFresh j st h)
apply_all-IsFresh (cancels j ∷ as_list) st h =
    apply_all-IsFresh as_list (cancel j st) (cancel-IsFresh j st h)
apply_all-IsFresh (settles s ∷ as_list) st h =
    apply_all-IsFresh as_list (settle s st).1 (settle-IsFresh s st h)
apply_all-IsFresh (finishes s ∷ as_list) st h = apply_all-IsFresh as_list (finish s st) h
apply_all-IsFresh (stops n ∷ as_list) st h =
    apply_all-IsFresh as_list (stop n st) (stop-IsFresh n st h)
apply_all-IsFresh (stops_all ∷ as_list) st h = apply_all-IsFresh as_list (stop_all st) h

begun-Tracks :
    (id : RequestId) (st : RegistryState) → IsFresh st → Tracks st.next id true false (begin id st)
unfolding begin call_of serial_of
begun-Tracks id st h =
    let self : (st.next == st.next) ≡ true = ground arith in
    let same : id_eq id id ≡ true = (id_eq_iff id id).1 refl in
    record {
      stop = st.next;
      entry = rw self refl;
      now = rw (same, self) refl;
      only = λ j apart.
          ap (is_serial st.next) (serial_of-begin j id st.next st.by_id)
          ∙ rw (apart_swap id j apart) (not_yet (serial_of j st.by_id) (h j));
      fresh = omega arith;
    }
  where
    apart_swap : (i j : RequestId) → id_eq j i ≡ false → id_eq i j ≡ false
    apart_swap i j h = ground (arith, h, id_eq_iff i j, id_eq_iff j i)

    not_yet : (o : Option ℕ) → Below st.next o → is_serial st.next o ≡ false
    not_yet none h = refl
    not_yet (some u) h = ground (arith, h)

-- In whatever order the threads take the lock: when a call that has begun is settled for the first time, it is to
-- be answered exactly if no cancellation of its id came while it was the latest call with this id. An id that
-- is 0 or empty is never cancelled.
pub settle-begin :
    (earlier later : List Action) (id : RequestId)
    → IsRunning (apply_all earlier empty).next later
    → let st = apply_all earlier empty in
      (settle st.next (apply_all later (begin id st))).0 ≡ not (was_cancelled id true later)
settle-begin earlier later id run =
    let st = apply_all earlier empty in
    settle-apply_all st.next id later true false (begin id st) run
      (begun-Tracks id st (apply_all-IsFresh earlier empty (λ j. unfold serial_of in tt)))
