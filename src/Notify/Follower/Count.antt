-- ===== src/Notify/Follower/Count.antt =====
-- crates/tagents-core/src/notify/events.rs: the proofs on the count of the followers of a directory.
use tagents.Prelude.{
  ℕ, ◌+◌, ◌-◌, ◌≤◌, ◌≡◌, refl, sym, ap, ◌∙◌, true, false, Option, none, some, ltb, arith,
  if◌then◌else◌, Bool-cases, inl, inr,
}
use tagents.Text.{Text, text_eq, text_eq_iff}
use tagents.Dict.{Dict, get, insert, get-insert, get-remove}
use tagents.Exec.{Result, ok, err, pure, gets, modify, ◌>>=◌, case_of}
use tagents.Notify.Follower.{Disk}
use tagents.Notify.Follower.Calls.{
  Process, ask_disk, count_in, first_in, switch_in, switch_out, count_or_one,
}

-- No directory is counted with nothing.
abbrev pub IsCounted : Dict ℕ → Type 0
IsCounted counted = (key : Text) (count : ℕ) → get key counted ≡ some count → 1 ≤ count

-- One follower more.
abbrev pub one_more : Option ℕ → Option ℕ
one_more none = some 1
one_more (some count) = some (count + 1)

-- One follower less, none being told as nothing.
abbrev pub one_less : Option ℕ → Option ℕ
one_less none = none
one_less (some count) = if ltb 1 count then some (count - 1) else none

less : (o : Option ℕ) → ltb 0 (count_or_one o - 1) ≡ true → some (count_or_one o - 1) ≡ one_less o
less none h = ground arith
less (some count) h = ground arith

least : (o : Option ℕ) → ltb 0 (count_or_one o - 1) ≡ false → none ≡ one_less o
least none h = refl
least (some count) h = ground arith

one_less-one_more :
    (o : Option ℕ) → ((count : ℕ) → o ≡ some count → 1 ≤ count) → one_less (one_more o) ≡ o
one_less-one_more none h = ground arith
one_less-one_more (some count) h = let positive = h count refl in ground (arith, positive)

module _ {W : Type 0} (d : Disk W) where
  -- What counting a follower in leaves: a count more, or an error and the counts as they were.
  abbrev Counted : Process W → Result Text Text → Process W → Type 0
  Counted s (err why) t = (j : Text) → get j t.counted ≡ get j s.counted
  Counted s (ok key) t =
      (j : Text)
      → get j t.counted ≡ (if text_eq key j then one_more (get key s.counted) else get j s.counted)

  counted_as :
      (key : Text) (count : ℕ) (s t : Process W)
      → t.counted ≡ s.counted
      → some count ≡ one_more (get key s.counted)
      → Counted s (count_in d key count t).0 (count_in d key count t).1
  unfolding count_in modify pure ◌>>=◌
  counted_as key count s t same more j =
      ap (λ c. get j (insert key count c)) same
      ∙ get-insert key j count s.counted
      ∙ (λ i. if text_eq key j then more i else get j s.counted)

  first-Counted :
      (key : Text) (made : Result Text (Unit {0})) (s t : Process W)
      → t.counted ≡ s.counted
      → get key s.counted ≡ none
      → Counted s (first_in d key made t).0 (first_in d key made t).1
  unfolding first_in pure
  first-Counted key (err why) s t same absent = λ j. ap (get j) same
  first-Counted key (ok _) s t same absent = counted_as key 1 s t same (ap one_more (sym absent))

  switch_in-Counted : (s : Process W) → Counted s (switch_in d s).0 (switch_in d s).1
  unfolding switch_in ask_disk gets ◌>>=◌
  switch_in-Counted s = held (get key s.counted) refl
    where
      key : Text
      key = (d.dir_key s.world).0

      held :
          (o : Option ℕ)
          → get key s.counted ≡ o
          → let t = record s { world = (d.dir_key s.world).1 } in
            let u =
              case_of o
                (do made ← ask_disk (d.set_events_on true); first_in d key made)
                (λ count. count_in d key (count + 1))
                t in
            Counted s u.0 u.1
      held none e = first-Counted key (d.set_events_on true (d.dir_key s.world).1).0 s _ refl e
      held (some count) e = counted_as key (count + 1) s _ refl (ap one_more (sym e))

  switch_out-counted :
      (key j : Text) (s : Process W)
      → get j (switch_out d key s).1.counted
        ≡ (if text_eq key j then one_less (get key s.counted) else get j s.counted)
  unfolding switch_out ask_disk gets modify pure ◌>>=◌
  switch_out-counted key j s =
      let left = count_or_one (get key s.counted) - 1 in
      elim (Bool-cases (ltb 0 left)) [
        | inl e ↦ rw e (
            get-insert key j left s.counted
            ∙ (λ i. if text_eq key j then less (get key s.counted) e i else get j s.counted))
        | inr e ↦ rw e (
            get-remove key j s.counted
            ∙ (λ i. if text_eq key j then least (get key s.counted) e i else get j s.counted))
      ]

  -- What counting in left, when a follower is counted out again: the counts that there were.
  abbrev pub Restores : Process W → Result Text Text → Process W → Type 0
  Restores s (err why) t = (j : Text) → get j t.counted ≡ get j s.counted
  Restores s (ok key) t = (j : Text) → get j (switch_out d key t).1.counted ≡ get j s.counted

  restored :
      (s : Process W) (r : Result Text Text) (t : Process W)
      → IsCounted s.counted
      → Counted s r t
      → Restores s r t
  restored s (err why) t positive counted = counted
  restored s (ok key) t positive counted = λ j.
      let itself : text_eq key key ≡ true = (text_eq_iff key key).1 refl in
      let here : get key t.counted ≡ one_more (get key s.counted) =
        counted key ∙ (λ i. if itself i then one_more (get key s.counted) else get key s.counted) in
      let back = one_less-one_more (get key s.counted) (positive key) in
      switch_out-counted key j t ∙ elim (Bool-cases (text_eq key j)) [
        | inl e ↦
            rw e (ap one_less here ∙ back ∙ ap (λ k. get k s.counted) ((text_eq_iff key j).0 e))
        | inr e ↦
            rw e (counted j ∙ (λ i. if e i then one_more (get key s.counted) else get j s.counted))
      ]

  -- No directory being counted with nothing, a follower that is counted in and out again leaves every
  -- directory with the count that it had; one whose switch could not be made leaves no count behind.
  pub switch_in-Restores :
      (s : Process W) → IsCounted s.counted → Restores s (switch_in d s).0 (switch_in d s).1
  switch_in-Restores s positive =
      restored s (switch_in d s).0 (switch_in d s).1 positive (switch_in-Counted s)
