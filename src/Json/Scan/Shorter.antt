-- ===== src/Json/Scan/Shorter.antt =====
-- crates/tagents-core/src/json.rs: the lemmas on the length of what a scanner leaves.
use tagents.Prelude.{
  ℕ, zero, suc, ◌-◌, ◌<◌, ◌≤◌, ◌≡◌, refl, sym, subst, Bool, ◌&&◌, ◌||◌, Option, none, some, [], ◌∷◌,
  ◌++◌, ltb, leb, ◌==◌, arith, length, Bool-cases, inl, inr,
}
use tagents.Text.{Text, strip_prefix, is_empty}
use tagents.Text.Pieces.{drop}
use tagents.Json.Scan.{
  Literal, push, skip_space, digits_at, some_digits, whole_at, fraction_at, exponent_at,
  exponent_sign_at, sign_at, unsigned_at, number_at, unicode_escape, add_escape, short_escape,
  escape_at, string_rounds, string_at,
}

pub skip_space-le : (s : Text) → length (skip_space s) ≤ length s
unfolding skip_space
skip_space-le [] = omega arith
skip_space-le (c ∷ s) = ground (arith, skip_space-le s)

pub strip_prefix-le : (p s : Text) {r : Text} → strip_prefix p s ≡ some r → length r ≤ length s
unfolding strip_prefix
strip_prefix-le [] s h = ground arith
strip_prefix-le (c ∷ p) [] h = absurd (cc)
strip_prefix-le (c ∷ p) (d ∷ s) {r} h = ground (arith, strip_prefix-le p s {r = r})

drop-le : (n : ℕ) (s : Text) → length (drop n s) ≤ length s
unfolding drop
drop-le zero s = omega arith
drop-le (suc n) [] = omega arith
drop-le (suc n) (c ∷ s) = omega (arith, drop-le n s)

digits_at-le : (s : Text) → length (digits_at s).1 ≤ length s
unfolding digits_at
digits_at-le [] = omega arith
digits_at-le (c ∷ s) = ground (arith, digits_at-le s)

-- Nothing, or a rest that is not longer than `n`.
abbrev pub Within : {A : Type 0} → ℕ → Option (A × Text) → Type 0
Within n none = Unit {0}
Within n (some (a, rest)) = length rest ≤ n

some_digits-Within : (s : Text) → Within (length s) (some_digits s)
unfolding some_digits
some_digits-Within s = elim (Bool-cases (is_empty (digits_at s).0)) [
  | inl nothing ↦ rw nothing tt
  | inr found ↦ rw found (digits_at-le s)
]

whole_at-Within : (c : ℕ) (s : Text) → Within (length s) (whole_at (c ∷ s))
unfolding whole_at
whole_at-Within c s = elim (Bool-cases (c == b'0')) [
  | inl zero_first ↦ rw zero_first (omega arith)
  | inr other ↦ rw other (elim (Bool-cases (leb b'1' c && leb c b'9')) [
    | inl digit ↦ rw digit (digits_at-le s)
    | inr bad ↦ rw bad tt
  ])
]

pub Within-bind :
    {A B : Type 0} {n : ℕ} (m : ℕ) (o : Option (A × Text)) (f : A × Text → Option (B × Text))
    → Within n o
    → ((a : A) (rest : Text) → length rest ≤ n → Within m (f (a, rest)))
    → Within m (elim o [ none ↦ none | some r ↦ f r ])
Within-bind m none f h next = tt
Within-bind m (some (a, rest)) f h next = next a rest h

fraction_at-Within : (s : Text) → Within (length s) (fraction_at s)
unfolding fraction_at
fraction_at-Within [] = omega arith
fraction_at-Within (c ∷ s) = elim (Bool-cases (c == b'.')) [
  | inl dot ↦ rw dot (
      Within-bind (suc (length s)) (some_digits s) (λ r. some (c ∷ r.0, r.1)) (some_digits-Within s)
        (λ ds rest h. omega (arith, h)))
  | inr other ↦ rw other (omega arith)
]

exponent_sign-le : (s : Text) → length (exponent_sign_at s).1 ≤ length s
exponent_sign-le [] = omega arith
exponent_sign-le (c ∷ s) = ground arith

exponent_at-Within : (s : Text) → Within (length s) (exponent_at s)
unfolding exponent_at
exponent_at-Within [] = omega arith
exponent_at-Within (c ∷ s) = elim (Bool-cases (c == b'e' || c == b'E')) [
  | inl marked ↦ rw marked (
      Within-bind (suc (length s)) (some_digits (exponent_sign_at s).1)
        (λ r. some (c ∷ (exponent_sign_at s).0 ++ r.0, r.1))
        (some_digits-Within (exponent_sign_at s).1)
        (λ ds rest h. omega (arith, h, exponent_sign-le s)))
  | inr other ↦ rw other (omega arith)
]

-- A number takes a digit at least.
unsigned_at-Within : (sign : Text) (c : ℕ) (s : Text) → Within (length s) (unsigned_at sign (c ∷ s))
unfolding unsigned_at
unsigned_at-Within sign c s =
    Within-bind (length s) (whole_at (c ∷ s)) _ (whole_at-Within c s) (λ whole s1 h1.
      Within-bind (length s) (fraction_at s1) _ (fraction_at-Within s1) (λ fraction s2 h2.
        Within-bind (length s) (exponent_at s2) _ (exponent_at-Within s2)
          (λ exponent s3 h3. omega (arith, h1, h2, h3))))

Within-suc : {A : Type 0} (n : ℕ) (o : Option (A × Text)) → Within n o → Within (suc n) o
Within-suc n none h = tt
Within-suc n (some r) h = omega (arith, h)

signed-Within : (sign s : Text) → Within (length s) (unsigned_at sign s)
signed-Within sign [] = unfold unsigned_at whole_at in tt
signed-Within sign (c ∷ s) =
    Within-suc (length s) (unsigned_at sign (c ∷ s)) (unsigned_at-Within sign c s)

pub number_at-Within : (c : ℕ) (s : Text) → Within (length s) (number_at (c ∷ s))
unfolding number_at
number_at-Within c s =
    let P : Text × Text → Type 0 = λ q. Within (length s) (unsigned_at q.0 q.1) in
    elim (Bool-cases (c == b'-')) [
      | inl minus ↦
          let e : sign_at (c ∷ s) ≡ (c ∷ [], s) = rw minus refl in
          subst P (sym e) (signed-Within (c ∷ []) s)
      | inr other ↦
          let e : sign_at (c ∷ s) ≡ ([], c ∷ s) = rw other refl in
          subst P (sym e) (unsigned_at-Within [] c s)
    ]

pub Within-mono : {A : Type 0} (n m : ℕ) (o : Option (A × Text)) → n ≤ m → Within n o → Within m o
Within-mono n m none le h = tt
Within-mono n m (some r) le h = omega (arith, le, h)

added_Within :
    (o : Option Literal) (n : ℕ) (s : Text)
    → Within (suc (length s)) (elim o [ none ↦ none | some more ↦ some (more, drop n s) ])
added_Within none n s = tt
added_Within (some more) n s = omega (arith, drop-le n s)

unicode_Within :
    (o : Option (Option ℕ × ℕ)) (exact : Bool) (out : Literal) (e : ℕ) (s : Text)
    → Within (suc (length s)) (elim o [
      | none ↦ none
      | some (unit, len) ↦ elim (add_escape exact unit (b'\\' ∷ e ∷ s) out) [
        | none ↦ none
        | some more ↦ some (more, drop (len - 2) s)
      ]
    ])
unicode_Within none exact out e s = tt
unicode_Within (some (unit, len)) exact out e s =
    added_Within (add_escape exact unit (b'\\' ∷ e ∷ s) out) (len - 2) s

letter_Within :
    (o : Option ℕ) (out : Literal) (s : Text)
    → Within (suc (length s)) (elim o [ none ↦ none | some c ↦ some (push c out, s) ])
letter_Within none out s = tt
letter_Within (some c) out s = omega arith

escape_at-Within :
    (exact : Bool) (out : Literal) (s : Text) → Within (length s) (escape_at exact out s)
unfolding escape_at
escape_at-Within exact out [] = tt
escape_at-Within exact out (e ∷ s) = elim (Bool-cases (e == b'u')) [
  | inl unicode ↦ rw unicode (unicode_Within (unicode_escape (b'\\' ∷ e ∷ s)) exact out e s)
  | inr letter ↦ rw letter (letter_Within (short_escape e) out s)
]

string_rounds-Within :
    (fuel : ℕ) (exact : Bool) (out : Literal) (s : Text)
    → Within (length s) (string_rounds fuel exact out s)
unfolding string_rounds
string_rounds-Within zero exact out s = tt
string_rounds-Within (suc fuel) exact out [] = tt
string_rounds-Within (suc fuel) exact out (c ∷ s) = elim (Bool-cases (c == b'"')) [
  | inl quote ↦ rw quote (omega arith)
  | inr other ↦ rw other (elim (Bool-cases (c == b'\\')) [
    | inl marked ↦ rw marked (
        Within-bind (suc (length s)) (escape_at exact out s) (λ r. string_rounds fuel exact r.0 r.1)
          (escape_at-Within exact out s)
          (λ more rest h.
            Within-mono (length rest) (suc (length s)) (string_rounds fuel exact more rest)
              (omega (arith, h)) (string_rounds-Within fuel exact more rest)))
    | inr unmarked ↦ rw unmarked (elim (Bool-cases (ltb c 0x20)) [
      | inl low ↦ rw low tt
      | inr plain ↦ rw plain (
          Within-suc (length s) (string_rounds fuel exact (push c out) s)
            (string_rounds-Within fuel exact (push c out) s))
    ])
  ])
]

-- A string takes its closing quote at least.
pub string_at-Within : (exact : Bool) (s : Text) → Within (length s) (string_at exact s)
unfolding string_at
string_at-Within exact s = string_rounds-Within (suc (length s)) exact _ s

same_behind :
    (n : ℕ) (o : Option (Literal × Text)) (f g : Literal → Text → Option (Literal × Text))
    → Within n o
    → ((more : Literal) (rest : Text) → length rest ≤ n → f more rest ≡ g more rest)
    → elim o [ none ↦ none | some r ↦ f r.0 r.1 ] ≡ elim o [ none ↦ none | some r ↦ g r.0 r.1 ]
same_behind n none f g h same = refl
same_behind n (some (more, rest)) f g h same = same more rest h

-- The rounds that `string_at` allows are enough: with more the result is the same.
pub string_rounds-enough :
    (f g : ℕ) (exact : Bool) (out : Literal) (s : Text)
    → length s < f
    → length s < g
    → string_rounds f exact out s ≡ string_rounds g exact out s
unfolding string_rounds
string_rounds-enough zero g exact out s hf hg = absurd (omega (arith, hf))
string_rounds-enough (suc f) zero exact out s hf hg = absurd (omega (arith, hg))
string_rounds-enough (suc f) (suc g) exact out [] hf hg = refl
string_rounds-enough (suc f) (suc g) exact out (c ∷ s) hf hg = elim (Bool-cases (c == b'"')) [
  | inl quote ↦ rw quote refl
  | inr other ↦ rw other (elim (Bool-cases (c == b'\\')) [
    | inl marked ↦ rw marked (
        same_behind (length s) (escape_at exact out s) (string_rounds f exact)
          (string_rounds g exact) (escape_at-Within exact out s)
          (λ more rest h.
            string_rounds-enough f g exact more rest (omega (arith, h, hf)) (omega (arith, h, hg))))
    | inr unmarked ↦ rw unmarked (elim (Bool-cases (ltb c 0x20)) [
      | inl low ↦ rw low refl
      | inr plain ↦
          rw plain
            (string_rounds-enough f g exact (push c out) s (omega (arith, hf)) (omega (arith, hg)))
    ])
  ])
]
