-- ===== src/Exec.antt =====
-- Code that changes a state: an action takes the state and gives its result with the new state.
-- `Keeps` is an invariant of an action, with one rule for each way to build one.
use tagents.Text.{Text}
pub mod Gives
use tagents.Prelude.{◌≡◌, refl, Bool, true, false, Option, none, some, if◌then◌else◌}

-- Rust's `Result<A, E>`
pub data Result {ℓ} (E A : Type ℓ) : Type ℓ where
  ok : A → Result E A
  err : E → Result E A

abbrev pub Exec : Type 0 → Type 0 → Type 0
Exec S A = S → A × S

module _ {S A : Type 0} where
  unfoldable pub pure : A → Exec S A
  pure a s = (a, s)

  unfoldable pub gets : (S → A) → Exec S A
  gets f s = (f s, s)

unfoldable pub modify : {S : Type 0} → (S → S) → Exec S (Unit {0})
modify f s = (tt, f s)

module _ {S A B : Type 0} where
  infixl 5 ◌>>=◌ ◌>>◌
  -- Opening this opens `pure`, `gets` and `modify` too.
  unfoldable pub ◌>>=◌ : Exec S A → (A → Exec S B) → Exec S B
  unfolding pure gets modify
  ◌>>=◌ m f s = f (m s).0 (m s).1

  abbrev pub ◌>>◌ : Exec S A → Exec S B → Exec S B
  m >> n = m >>= λ _. n

-- `if test { action }`
abbrev pub when : {S : Type 0} → Bool → Exec S (Unit {0}) → Exec S (Unit {0})
when b m = if b then m else pure tt

-- `match option`
abbrev pub case_of : {S A B : Type 0} → Option A → Exec S B → (A → Exec S B) → Exec S B
case_of none m f = m
case_of (some a) m f = f a

-- `match result`
abbrev pub case_result :
    {S A B : Type 0} → Result Text A → (Text → Exec S B) → (A → Exec S B) → Exec S B
case_result (err why) m f = m why
case_result (ok a) m f = f a

-- Whatever holds of the state before the action holds of it after the action.
pub record Keeps {State A : Type 0} (Inv : State → Type 0) (action : Exec State A) : Type 0 where
  pub at : (before : State) → Inv before → Inv (action before).1

module _ {State A B : Type 0} {Inv : State → Type 0} where
  -- An action whose first part is known to give a result of some kind.
  pub Keeps-bind_result :
      (Good : A → Type 0) (first : Exec State A) (next : A → Exec State B)
      → Keeps Inv first
      → ((before : State) → Good (first before).0)
      → ((result : A) → Good result → Keeps Inv (next result))
      → Keeps Inv (first >>= next)
  unfolding ◌>>=◌
  Keeps-bind_result Good first next here good later = record {
    at = λ before holds. (later _ (good before)).at _ (here.at before holds);
  }

  -- A value read from the state is known at that state.
  pub Keeps-gets_bind :
      (read : State → A) (next : A → Exec State B)
      → ((before : State) → Inv before → Inv (next (read before) before).1)
      → Keeps Inv (gets read >>= next)
  unfolding ◌>>=◌
  Keeps-gets_bind read next later = record { at = later }

  pub Keeps-bind :
      (first : Exec State A) (next : A → Exec State B)
      → Keeps Inv first
      → ((result : A) → Keeps Inv (next result))
      → Keeps Inv (first >>= next)
  Keeps-bind first next here later =
      Keeps-bind_result (λ _. Unit {0}) first next here (λ _. tt) (λ result _. later result)

  pub Keeps-case :
      (option : Option A) (absent : Exec State B) (present : A → Exec State B)
      → Keeps Inv absent
      → ((value : A) → option ≡ some value → Keeps Inv (present value))
      → Keeps Inv (case_of option absent present)
  Keeps-case (some value) absent present _ this = this value refl
  Keeps-case none absent present that _ = that

  pub Keeps-case_result :
      (result : Result Text A) (failed : Text → Exec State B) (worked : A → Exec State B)
      → ((why : Text) → Keeps Inv (failed why))
      → ((value : A) → result ≡ ok value → Keeps Inv (worked value))
      → Keeps Inv (case_result result failed worked)
  Keeps-case_result (ok value) failed worked _ this = this value refl
  Keeps-case_result (err why) failed worked that _ = that why

module _ {State A : Type 0} {Inv : State → Type 0} where
  pub Keeps-if :
      (test : Bool) (this other : Exec State A)
      → (test ≡ true → Keeps Inv this)
      → (test ≡ false → Keeps Inv other)
      → Keeps Inv (if test then this else other)
  Keeps-if false this other _ keeps = keeps refl
  Keeps-if true this other keeps _ = keeps refl

  -- What does not change the state.
  pub Keeps-gets : (read : State → A) → Keeps Inv (gets read)
  unfolding gets
  Keeps-gets read = record { at = λ _ holds. holds }

  pub Keeps-pure : (value : A) → Keeps Inv (pure {S = State} value)
  unfolding pure
  Keeps-pure value = record { at = λ _ holds. holds }

module _ {State : Type 0} {Inv : State → Type 0} where
  pub Keeps-modify :
      (change : State → State)
      → ((before : State) → Inv before → Inv (change before))
      → Keeps Inv (modify change)
  unfolding modify
  Keeps-modify change keeps = record { at = keeps }

pub ruleset keeps_rules =
    (Keeps-bind, Keeps-if, Keeps-case, Keeps-case_result, Keeps-gets, Keeps-pure)
