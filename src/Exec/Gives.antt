-- ===== src/Exec/Gives.antt =====
-- The result of an action and the state behind it, from the state before.
use tagents.Text.{Text}
use tagents.Prelude.{Bool, true, false, if◌then◌else◌, ◌≡◌, refl, ap, Option, none, some}
use tagents.Exec.{Exec, Result, ok, err, pure, gets, modify, ◌>>=◌, case_of, case_result}

-- From a state with the invariant the action ends in one, with a result as it should be.
pub record Gives {S A : Type 0} (Inv : S → Type 0) (Post : A → Type 0) (action : Exec S A)
    : Type 0 where
  pub at : (before : S) → Inv before → Inv (action before).1 × Post (action before).0

module _ {S A B : Type 0} {Inv : S → Type 0} where
  pub Gives-bind :
      (Mid : A → Type 0) {Post : B → Type 0} (first : Exec S A) (next : A → Exec S B)
      → Gives Inv Mid first
      → ((a : A) → Mid a → Gives Inv Post (next a))
      → Gives Inv Post (first >>= next)
  unfolding ◌>>=◌
  Gives-bind Mid first next here later = record {
    at = λ w h. let r = here.at w h in (later (first w).0 r.1).at (first w).1 r.0;
  }

  pub Gives-case :
      {Post : B → Type 0} (o : Option A) (absent : Exec S B) (present : A → Exec S B)
      → Gives Inv Post absent
      → ((a : A) → o ≡ some a → Gives Inv Post (present a))
      → Gives Inv Post (case_of o absent present)
  Gives-case none absent present h k = h
  Gives-case (some a) absent present h k = k a refl

  pub Gives-case_some :
      {Post : B → Type 0} (o : Option A) (a : A) (absent : Exec S B) (present : A → Exec S B)
      → o ≡ some a
      → Gives Inv Post (present a)
      → Gives Inv Post (case_of o absent present)
  Gives-case_some o a absent present e h = rw e h

module _ {S A : Type 0} {Inv : S → Type 0} where
  pub Gives-pure : {Post : A → Type 0} (a : A) → Post a → Gives Inv Post (pure {S = S} a)
  unfolding pure
  Gives-pure a h = record { at = λ w k. (k, h) }

  pub Gives-gets :
      {Post : A → Type 0} (read : S → A)
      → ((w : S) → Inv w → Post (read w))
      → Gives Inv Post (gets read)
  unfolding gets
  Gives-gets read h = record { at = λ w k. (k, h w k) }

  pub Gives-if :
      {Post : A → Type 0} (test : Bool) (this other : Exec S A)
      → (test ≡ true → Gives Inv Post this)
      → (test ≡ false → Gives Inv Post other)
      → Gives Inv Post (if test then this else other)
  Gives-if true this other h k = h refl
  Gives-if false this other h k = k refl

  pub Gives-weaker :
      {Post : A → Type 0} (Better : A → Type 0) (m : Exec S A)
      → ((a : A) → Better a → Post a)
      → Gives Inv Better m
      → Gives Inv Post m
  Gives-weaker Better m h g = record { at = λ w k. let r = g.at w k in (r.0, h (m w).0 r.1) }

module _ {S : Type 0} {Inv : S → Type 0} where
  pub Gives-modify :
      {Post : Unit {0} → Type 0} (f : S → S)
      → ((w : S) → Inv w → Inv (f w))
      → Post tt
      → Gives Inv Post (modify f)
  unfolding modify
  Gives-modify f h p = record { at = λ w k. (h w k, p) }

module _ {S A B : Type 0} {Inv : S → Type 0} where
  pub Gives-case_result :
      {Post : B → Type 0} (r : Result Text A) (bad : Text → Exec S B) (good : A → Exec S B)
      → ((why : Text) → r ≡ err why → Gives Inv Post (bad why))
      → ((a : A) → r ≡ ok a → Gives Inv Post (good a))
      → Gives Inv Post (case_result r bad good)
  Gives-case_result (ok a) bad good h k = k a refl
  Gives-case_result (err why) bad good h k = h why refl

-- A first part that is known to give a result and a state.
pub run-bind :
    {S A B : Type 0} (first : Exec S A) (next : A → Exec S B) (before : S) (a : A) (after : S)
    → first before ≡ (a, after)
    → (first >>= next) before ≡ next a after
unfolding ◌>>=◌
run-bind first next before a after h = ap (λ r. next r.0 r.1) h
