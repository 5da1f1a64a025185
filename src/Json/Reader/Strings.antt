-- ===== src/Json/Reader/Strings.antt =====
-- crates/tagents-core/src/json.rs: the lemmas on the text of a string and the parser.
use tagents.Prelude.{
  ℕ, suc, ◌+◌, ◌*◌, ◌/◌, ◌%◌, ◌<◌, ◌≡◌, refl, ap, ◌∙◌, Bool, true, false, none, some, [], ◌∷◌, ◌++◌,
  ltb, ◌==◌, arith, Bool-cases, Option-cases, inl, inr, ltb→lt,
}
use tagents.Text.{Text}
use tagents.Text.Pieces.{drop}
use tagents.Utf16.{is_high, Piece, char, lone}
use tagents.Json.Scan.{
  Literal, push, push_lone, hex_value, hex_digits, code_unit, low_half, scalar, short_escape,
  unicode_escape, add_escape, escape_at, string_rounds,
}
use tagents.Json.Writer.{hex_digit, unit_escape}
use tagents.Json.Writer.Quoted.{letter, escape}

hex_value-hex_digit : (d : ℕ) → d < 16 → hex_value (hex_digit d) ≡ some d
unfolding hex_value hex_digit
hex_value-hex_digit d h = ground arith

hex_digits-cons :
    (n d : ℕ) (t : Text) → d < 16 → hex_digits n (hex_digit d ∷ t) ≡ hex_digits (n * 16 + d) t
unfolding hex_digits
hex_digits-cons n d t h = rw (hex_digits, hex_value-hex_digit d h) refl

-- The escape of a code unit is read as that unit.
pub code_unit-unit_escape :
    (u : ℕ) (t : Text) → ltb u 0x10000 ≡ true → code_unit (unit_escape u ++ t) ≡ some u
unfolding code_unit unit_escape
code_unit-unit_escape u t h =
    let d3 = u / 4096 % 16 in
    let d2 = u / 256 % 16 in
    let d1 = u / 16 % 16 in
    let d0 = u % 16 in
    let value : (((0 * 16 + d3) * 16 + d2) * 16 + d1) * 16 + d0 ≡ u =
      omega (arith, ltb→lt u 0x10000 h) in
    hex_digits-cons 0 d3 (hex_digit d2 ∷ hex_digit d1 ∷ hex_digit d0 ∷ []) (omega arith)
    ∙ hex_digits-cons (0 * 16 + d3) d2 (hex_digit d1 ∷ hex_digit d0 ∷ []) (omega arith)
    ∙ hex_digits-cons ((0 * 16 + d3) * 16 + d2) d1 (hex_digit d0 ∷ []) (omega arith)
    ∙ hex_digits-cons (((0 * 16 + d3) * 16 + d2) * 16 + d1) d0 [] (omega arith)
    ∙ end value
  where
    end : {n : ℕ} → n ≡ u → hex_digits n [] ≡ some u
    end e = unfold hex_digits in ap some e

-- What begins with no backslash is no escape.
pub code_unit-plain : (c : ℕ) (t : Text) → (c == b'\\') ≡ false → code_unit (c ∷ t) ≡ none
unfolding code_unit
code_unit-plain c (b ∷ h1 ∷ h2 ∷ h3 ∷ h4 ∷ t) h = ground arith
code_unit-plain c [] h = refl
code_unit-plain c (b ∷ []) h = refl
code_unit-plain c (b ∷ h1 ∷ []) h = refl
code_unit-plain c (b ∷ h1 ∷ h2 ∷ []) h = refl
code_unit-plain c (b ∷ h1 ∷ h2 ∷ h3 ∷ []) h = refl

-- Nor is an escape of one letter that is not `u`.
code_unit-letter : (e : ℕ) (t : Text) → (e == b'u') ≡ false → code_unit (b'\\' ∷ e ∷ t) ≡ none
unfolding code_unit
code_unit-letter e (h1 ∷ h2 ∷ h3 ∷ h4 ∷ t) h = ground arith
code_unit-letter e [] h = refl
code_unit-letter e (h1 ∷ []) h = refl
code_unit-letter e (h1 ∷ h2 ∷ []) h = refl
code_unit-letter e (h1 ∷ h2 ∷ h3 ∷ []) h = refl

abbrev pub NoLow : Text → Type 0
NoLow t = low_half (code_unit t) ≡ none

letter_lem : (c e : ℕ) → letter c ≡ some e → ((e == b'u') ≡ false) × (short_escape e ≡ some c)
unfolding letter
letter_lem c e h = ground arith

letter-none : (c : ℕ) → letter c ≡ none → ((c == b'"') ≡ false) × ((c == b'\\') ≡ false)
unfolding letter
letter-none c h = ground arith

-- The three forms of an escape: a letter, a code unit, and the character.
escape-letter : (c e : ℕ) → letter c ≡ some e → escape c ≡ b'\\' ∷ e ∷ []
unfolding escape
escape-letter c e h = rw (escape, h) refl

escape-unit : (c : ℕ) → letter c ≡ none → ltb c 0x20 ≡ true → escape c ≡ unit_escape c
unfolding escape
escape-unit c h low = rw (escape, h, low) refl

escape-plain : (c : ℕ) → letter c ≡ none → ltb c 0x20 ≡ false → escape c ≡ c ∷ []
unfolding escape
escape-plain c h high = rw (escape, h, high) refl

pub NoLow-escape : (c : ℕ) (t : Text) → NoLow (escape c ++ t)
NoLow-escape c t = elim (Option-cases (letter c)) [
  | inr (e, h) ↦ rw (escape-letter c e h) (ap low_half (code_unit-letter e t (letter_lem c e h).0))
  | inl h ↦ elim (Bool-cases (ltb c 0x20)) [
    | inl low ↦
        rw (escape-unit c h low)
          (ap low_half (code_unit-unit_escape c t (ground (arith, low))) ∙ ground (arith, low))
    | inr high ↦ rw (escape-plain c h high) (ap low_half (code_unit-plain c t (letter-none c h).1))
  ]
]

-- The escape of a unit, where no low half follows a high one.
unicode_escape-single :
    (s : Text) (u : ℕ)
    → code_unit s ≡ some u
    → (is_high u ≡ true → NoLow (drop 6 s))
    → unicode_escape s ≡ some (scalar u, 6)
unfolding unicode_escape
unicode_escape-single s u h apart = ground (arith, apart)

abbrev pub read_piece : Literal → Piece → Literal
read_piece out (char c) = push c out
read_piece out (lone u) = push_lone u out

-- A round that reads an escape.
read_marked :
    (fuel : ℕ) (exact : Bool) (out more : Literal) (s rest : Text)
    → escape_at exact out s ≡ some (more, rest)
    → string_rounds (suc fuel) exact out (b'\\' ∷ s) ≡ string_rounds fuel exact more rest
unfolding string_rounds
read_marked fuel exact out more s rest h = rw (string_rounds, h) refl

-- One round reads one escape.
module _ (fuel : ℕ) (exact : Bool) (out : Literal) (t : Text) where
  escape_at-letter :
      (c e : ℕ) → letter c ≡ some e → escape_at exact out (e ∷ t) ≡ some (push c out, t)
  unfolding escape_at
  escape_at-letter c e h = rw ((letter_lem c e h).0, (letter_lem c e h).1) refl

  read_plain :
      (c : ℕ)
      → letter c ≡ none
      → ltb c 0x20 ≡ false
      → string_rounds (suc fuel) exact out (c ∷ t) ≡ string_rounds fuel exact (push c out) t
  unfolding string_rounds
  read_plain c h high = rw ((letter-none c h).0, (letter-none c h).1, high) refl

  escape_at-unit :
      (s : Text) (u : ℕ) (more : Literal)
      → unicode_escape (b'\\' ∷ b'u' ∷ s) ≡ some (scalar u, 6)
      → add_escape exact (scalar u) (b'\\' ∷ b'u' ∷ s) out ≡ some more
      → escape_at exact out (b'u' ∷ s) ≡ some (more, drop 5 (b'u' ∷ s))
  unfolding escape_at drop
  escape_at-unit s u more h added = rw (h, escape_at, added) refl

  pub read_unit :
      (u : ℕ) (p : Piece)
      → ltb u 0x10000 ≡ true
      → (is_high u ≡ true → NoLow t)
      → add_escape exact (scalar u) (unit_escape u ++ t) out ≡ some (read_piece out p)
      → string_rounds (suc fuel) exact out (unit_escape u ++ t)
        ≡ string_rounds fuel exact (read_piece out p) t
  unfolding unit_escape drop
  read_unit u p h apart added =
      let single =
        unicode_escape-single (unit_escape u ++ t) u (code_unit-unit_escape u t h) apart in
      read_marked fuel exact out (read_piece out p) _ t
        (escape_at-unit _ u (read_piece out p) single added)

  read_letter :
      (c e : ℕ)
      → letter c ≡ some e
      → string_rounds (suc fuel) exact out (b'\\' ∷ e ∷ t) ≡ string_rounds fuel exact (push c out) t
  read_letter c e h = read_marked fuel exact out (push c out) (e ∷ t) t (escape_at-letter c e h)

  -- A character is read back, whatever is behind it.
  pub read-escape :
      (c : ℕ)
      → string_rounds (suc fuel) exact out (escape c ++ t) ≡ string_rounds fuel exact (push c out) t
  read-escape c = elim (Option-cases (letter c)) [
    | inr (e, h) ↦ rw (escape-letter c e h) (read_letter c e h)
    | inl h ↦ elim (Bool-cases (ltb c 0x20)) [
      | inl low ↦ rw (escape-unit c h low) (
          read_unit c (char c) (ground (arith, low)) (λ high. absurd (ground (arith, low, high)))
            (unfold add_escape in ground (arith, low)))
      | inr high ↦ rw (escape-plain c h high) (read_plain c h high)
    ]
  ]
