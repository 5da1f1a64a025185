-- ===== src/Json/Number/Scientific.antt =====
-- crates/tagents-core/src/js.rs, `number_text`: the text in scientific notation that Rust's formatter prints, and the
-- lemmas on what is made of it.
use tagents.Prelude.{
  ℕ, zero, suc, ◌+◌, ◌*◌, ◌^◌, ◌<◌, ◌≡◌, refl, ap, ◌∙◌, Bool, true, false, none, some, [], ◌∷◌,
  ◌++◌, leb, ltb, ◌==◌, length, arith, if◌then◌else◌, Bool-cases, inl, inr,
}
use tagents.Int.{pos, add, sub_nat}
use tagents.Text.{Text, word, is_ascii_digit, is_empty, all_chars}
use tagents.Text.Pieces.{split_once}
use tagents.Json.{F64}
use tagents.Json.Number.{Floats, digits_of, signed, unsigned_i32, parse_i32, or_zero, zeros, layout}
use tagents.Json.Number.Digits.{
  AllDigits, all_chars-digit, digits_value-number_text, number_text-AllDigits, number_text-filled,
}
use tagents.Json.Number.Decimal.{
  up, down, Decimal, written, fraction_text, power_text, figures, raised, lowered, IsDecimal,
}
use tagents.Json.Number.Layout.{Laid, IsPoint, layout-Laid}

-- A decimal as `{:e}` prints it: a digit that is not 0, more digits behind a point, and a power of ten.
pub record Scientific : Type 0 where
  pub first : ℕ
  pub more : Text
  pub minus : Bool
  pub power : ℕ
  pub first_digit : is_ascii_digit first ≡ true
  pub nonzero : (first == b'0') ≡ false
  pub more_digits : AllDigits more
  pub small : power < 1000

abbrev pub decimal : Scientific → Decimal
decimal s = record {
  first = s.first;
  more = [];
  fraction = s.more;
  power = if s.minus then down (s.power) else up (s.power);
}

pub decimal-IsDecimal : (s : Scientific) → IsDecimal (decimal s)
decimal-IsDecimal s = (s.first_digit, tt, s.more_digits, (λ e. absurd (cc)))

abbrev pub IsScientific : Text → Type 0
IsScientific text = (s : Scientific) × (text ≡ written (decimal s))

-- What is documented of Rust's formatter and parser of floats. The parser reads a decimal by its value
-- alone: zeros around the figures, with the power of ten that makes up for them, change nothing.
pub record IsFloats (std : Floats) : Type 0 where
  pub spelled : (x : F64) → 0 < x → x < 2047 * 2 ^ 52 → IsScientific (std.lower_exp x)
  pub spelled_places :
      (places : ℕ) (x : F64)
      → 0 < x
      → x < 2047 * 2 ^ 52
      → IsScientific (std.lower_exp_places places x)
  pub back : (x : F64) → 0 < x → x < 2047 * 2 ^ 52 → std.parse_f64 (std.lower_exp x) ≡ some x
  pub by_value :
      (p q : Decimal) (front back : ℕ)
      → IsDecimal p
      → IsDecimal q
      → figures q ≡ zeros front ++ (figures p ++ zeros back)
      → raised q + back + lowered p ≡ raised p + lowered q
      → std.parse_f64 (written q) ≡ std.parse_f64 (written p)
  pub minus :
      (d : Decimal) (x : F64)
      → IsDecimal d
      → x < 2 ^ 63
      → std.parse_f64 (written d) ≡ some x
      → std.parse_f64 (b'-' ∷ written d) ≡ some (x + 2 ^ 63)
  pub zero_text : std.parse_f64 (b'0' ∷ []) ≡ some 0

-- The parts of a text in scientific notation.
abbrev exponent_text : Scientific → Text
exponent_text s = (if s.minus then b'-' ∷ [] else []) ++ tagents.Text.number_text (s.power)

split_once-digits : (s t : Text) → AllDigits s → split_once b'e' (s ++ (b'e' ∷ t)) ≡ some (s, t)
unfolding split_once
split_once-digits [] t h = refl
split_once-digits (c ∷ s) t h =
    let digit = h.0 in
    let other : (c == b'e') ≡ false = ground (arith, digit) in
    rw (other, split_once, split_once-digits s t h.1) refl

split_once-fraction :
    (s t : Text)
    → AllDigits s
    → split_once b'e' (fraction_text s ++ (b'e' ∷ t)) ≡ some (fraction_text s, t)
unfolding split_once
split_once-fraction [] t h = refl
split_once-fraction (c ∷ s) t h =
    ap (λ r. elim r [ none ↦ none | some (a, b) ↦ some (b'.' ∷ a, b) ])
      (split_once-digits (c ∷ s) t h)

power-text :
    (minus : Bool) (n : ℕ)
    → power_text (if minus then down n else up n)
      ≡ b'e' ∷ ((if minus then b'-' ∷ [] else []) ++ tagents.Text.number_text n)
power-text true n = refl
power-text false n = refl

pub split_once-Scientific :
    (s : Scientific)
    → split_once b'e' (written (decimal s))
      ≡ some (s.first ∷ fraction_text (s.more), exponent_text s)
unfolding split_once
split_once-Scientific s =
    let digit = s.first_digit in
    let other : (s.first == b'e') ≡ false = ground (arith, digit) in
    rw
      (
        power-text (s.minus) (s.power),
        other,
        split_once,
        split_once-fraction (s.more) (exponent_text s) (s.more_digits),
      )
      refl

digits_of-digits : (s : Text) → AllDigits s → digits_of s ≡ s
unfolding digits_of
digits_of-digits [] h = refl
digits_of-digits (c ∷ s) h = rw (h.0, digits_of-digits s h.1) refl

digits_of-fraction : (s : Text) → AllDigits s → digits_of (fraction_text s) ≡ s
unfolding digits_of
digits_of-fraction [] h = refl
digits_of-fraction (c ∷ s) h = digits_of-digits (c ∷ s) h

digits_of-mantissa :
    (s : Scientific) → digits_of (s.first ∷ fraction_text (s.more)) ≡ s.first ∷ s.more
unfolding digits_of
digits_of-mantissa s = rw (s.first_digit, digits_of-fraction (s.more) (s.more_digits)) refl

unsigned_i32-number_text :
    (minus : Bool) (n : ℕ) → unsigned_i32 minus (tagents.Text.number_text n) ≡ signed minus n
unfolding unsigned_i32
unsigned_i32-number_text minus n =
    rw
      (
        number_text-filled n,
        all_chars-digit (tagents.Text.number_text n) (number_text-AllDigits n),
        digits_value-number_text n,
      )
      refl

parse_i32-digits :
    (s : Text) → is_empty s ≡ false → AllDigits s → parse_i32 s ≡ unsigned_i32 false s
unfolding parse_i32
parse_i32-digits [] filled h = absurd (cc)
parse_i32-digits (c ∷ s) filled h =
    let digit = h.0 in
    let no_minus : (c == b'-') ≡ false = ground (arith, digit) in
    let no_plus : (c == b'+') ≡ false = ground (arith, digit) in rw (no_minus, no_plus) refl

parse_i32-exponent :
    (minus : Bool) (n : ℕ)
    → parse_i32 ((if minus then b'-' ∷ [] else []) ++ tagents.Text.number_text n) ≡ signed minus n
unfolding parse_i32
parse_i32-exponent true n = unsigned_i32-number_text true n
parse_i32-exponent false n =
    parse_i32-digits (tagents.Text.number_text n) (number_text-filled n) (number_text-AllDigits n)
    ∙ unsigned_i32-number_text false n

-- The place of the point behind the first digit.
signed-IsPoint :
    (minus : Bool) (n : ℕ)
    → n < 1000
    → IsPoint
        (add (or_zero (signed minus n)) (pos 1))
        (if minus then 0 else n)
        (if minus then n else 0)
unfolding add sub_nat
signed-IsPoint false n h =
    let near : ltb n (2 ^ 31) ≡ true = ground (arith, h) in rw near (omega arith)
signed-IsPoint true zero h = omega arith
signed-IsPoint true (suc n) h =
    let near : ltb n (2 ^ 31) ≡ true = ground (arith, h) in
    rw near (elim (Bool-cases (leb (n + 1) 1)) [
      | inl one ↦ rw one (ground (arith, one))
      | inr many ↦ rw many (ground (arith, many))
    ])

pub raised-decimal : (s : Scientific) → raised (decimal s) ≡ (if s.minus then 0 else s.power)
raised-decimal s = cases (s.minus)
  where
    cases :
        (m : Bool)
        → raised (record {
          first = s.first;
          more = [];
          fraction = s.more;
          power = if m then down (s.power) else up (s.power);
        })
          ≡ (if m then 0 else s.power)
    cases true = refl
    cases false = refl

pub lowered-decimal :
    (s : Scientific) → lowered (decimal s) ≡ length (s.more) + (if s.minus then s.power else 0)
lowered-decimal s = cases (s.minus)
  where
    cases :
        (m : Bool)
        → lowered (record {
          first = s.first;
          more = [];
          fraction = s.more;
          power = if m then down (s.power) else up (s.power);
        })
          ≡ length (s.more) + (if m then s.power else 0)
    cases true = refl
    cases false = refl

-- What `number_text` prints of a text in scientific notation.
abbrev pub relaid : Scientific → Text
relaid s =
    layout (digits_of (s.first ∷ fraction_text (s.more)))
      (add (or_zero (parse_i32 (exponent_text s))) (pos 1))

pub relaid-Laid :
    (s : Scientific)
    → Laid
        (s.first ∷ s.more)
        (if s.minus then 0 else s.power)
        (length (s.more) + (if s.minus then s.power else 0))
        (relaid s)
relaid-Laid s =
    rw (digits_of-mantissa s, parse_i32-exponent (s.minus) (s.power))
      (layout-Laid (s.first) (s.more) (s.first_digit) (s.nonzero) (s.more_digits)
        (if s.minus then 0 else s.power) (if s.minus then s.power else 0)
        (add (or_zero (signed (s.minus) (s.power))) (pos 1))
        (signed-IsPoint (s.minus) (s.power) (s.small)))
