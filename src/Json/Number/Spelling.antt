-- ===== src/Json/Number/Spelling.antt =====
-- crates/tagents-core/src/js.rs, `number_text`: the proofs on the text of a finite number.
use tagents.Prelude.{
  ◌+◌, ◌-◌, ◌*◌, ◌^◌, ◌%◌, ◌<◌, ◌≡◌, ◌≢◌, refl, sym, ap, ◌∙◌, Bool, true, false, not, ◌&&◌, Option,
  none, some, [], ◌∷◌, ◌++◌, ltb, ◌==◌, length, arith, if◌then◌else◌, Bool-cases, inl, inr,
}
use tagents.Text.{Text}
use tagents.Text.Pieces.{split_once}
use tagents.Json.{F64, is_finite, is_zero}
use tagents.Json.Scan.{number_at}
use tagents.Json.Reader.Pieces.{IsEnd}
use tagents.Json.Reader.Plain.{IsSpelling}
use tagents.Json.Number.{
  Floats, is_negative, magnitude, digits_of, same_float, shortest_scientific, signed, unsigned_i32,
  parse_i32, or_zero, zeros, layout, number_text,
}
use tagents.Json.Number.Decimal.{
  plain, Decimal, written, IsDecimal, number_at-written, number_at-minus,
}
use tagents.Json.Number.Layout.{Laid}
use tagents.Json.Number.Scientific.{
  Scientific, decimal, decimal-IsDecimal, IsScientific, split_once-Scientific, raised-decimal,
  lowered-decimal, relaid, relaid-Laid, IsFloats,
}

-- A number with its text: a decimal, with a sign if it is negative.
record Spelled (std : Floats) (x : F64) (text : Text) : Type 0 where
  minus : Bool
  number : Decimal
  sound : IsDecimal number
  shown : text ≡ (if minus then b'-' ∷ [] else []) ++ written number
  parses : std.parse_f64 (written number) ≡ some (magnitude x)
  sign : minus ≡ (is_negative x && not (is_zero x))

module _ (std : Floats) (laws : IsFloats std) where
  same_float-eq : (r : Option F64) (x : F64) → same_float r x ≡ true → r ≡ some x
  same_float-eq none x h = absurd (cc)
  same_float-eq (some y) x h = ap some (ground (arith, h))

  shortest_scientific-back :
      (x : F64)
      → 0 < x
      → x < 2047 * 2 ^ 52
      → IsScientific (shortest_scientific std x)
        × (std.parse_f64 (shortest_scientific std x) ≡ some x)
  unfolding shortest_scientific
  shortest_scientific-back x some_size finite =
      let places = tagents.Json.Number.digit_count (split_once b'e' (std.lower_exp x)) - 1 in
      let exact = std.lower_exp_places places x in
      elim (Bool-cases (same_float (std.parse_f64 exact) x)) [
        | inl same ↦ rw same (
          laws.spelled_places places x some_size finite,
          same_float-eq (std.parse_f64 exact) x same,
        )
        | inr other ↦ rw other (laws.spelled x some_size finite, laws.back x some_size finite)
      ]

  relaid-back :
      (s : Scientific) (x : F64)
      (laid : Laid
        (s.first ∷ s.more)
        (if s.minus then 0 else s.power)
        (length (s.more) + (if s.minus then s.power else 0))
        (relaid s))
      → std.parse_f64 (written (decimal s)) ≡ some x
      → std.parse_f64 (written (laid.number)) ≡ some x
  relaid-back s x laid h =
      laws.by_value (decimal s) (laid.number) (laid.front) (laid.back) (decimal-IsDecimal s)
        (laid.sound) (laid.same) (omega (arith, laid.scale, raised-decimal s, lowered-decimal s))
      ∙ h

  size_bounds :
      (x : F64)
      → is_finite x ≡ true
      → is_zero x ≡ false
      → (0 < magnitude x) × (magnitude x < 2047 * 2 ^ 52)
  size_bounds x finite nonzero = (ground (arith, nonzero), ground (arith, finite))

  nonzero_text :
      (x : F64) (text : Text) (s : Scientific)
      → shortest_scientific std (magnitude x) ≡ text
      → text ≡ written (decimal s)
      → is_finite x ≡ true
      → is_zero x ≡ false
      → number_text std x ≡ (if is_negative x then b'-' ∷ [] else []) ++ relaid s
  unfolding number_text
  nonzero_text x text s short shown finite nonzero =
      let no_limit : (x % 2 ^ 63 == 2047 * 2 ^ 52) ≡ false =
        let bounds = size_bounds x finite nonzero in ground (arith, bounds.1) in
      rw (finite, nonzero, no_limit, short, shown, split_once-Scientific s) refl

  number_text-Spelled : (x : F64) → is_finite x ≡ true → Spelled std x (number_text std x)
  unfolding number_text
  number_text-Spelled x finite = elim (Bool-cases (is_zero x)) [
    | inl empty ↦
        rw (finite, empty)
          (record {
            minus = false;
            number = record { first = b'0'; more = []; fraction = []; power = plain };
            sound = (refl, tt, tt, (λ e. absurd (cc)));
            shown = refl;
            parses = laws.zero_text ∙ ap some (ground (arith, empty));
            sign = sym (rw empty (ground arith));
          })
    | inr nonzero ↦
        let bounds = size_bounds x finite nonzero in
        let back = shortest_scientific-back (magnitude x) bounds.0 bounds.1 in
        let s = back.0.0 in
        let laid = relaid-Laid s in
        record {
          minus = is_negative x;
          number = laid.number;
          sound = laid.sound;
          shown =
              nonzero_text x (shortest_scientific std (magnitude x)) s refl back.0.1 finite nonzero
              ∙ ap (λ t. (if is_negative x then b'-' ∷ [] else []) ++ t) laid.shown;
          parses = relaid-back s (magnitude x) laid (ap (std.parse_f64) (sym back.0.1) ∙ back.1);
          sign = sym (rw nonzero (ground arith));
        }
  ]

  number_text-scanned :
      (x : F64) (text rest : Text)
      → Spelled std x text
      → IsEnd rest
      → number_at (text ++ rest) ≡ some (text, rest)
  number_text-scanned x text rest spelled ends =
      rw (spelled.shown) (cases (spelled.minus) (spelled.number) (spelled.sound))
    where
      cases :
          (minus : Bool) (d : Decimal)
          → IsDecimal d
          → number_at (((if minus then b'-' ∷ [] else []) ++ written d) ++ rest)
            ≡ some ((if minus then b'-' ∷ [] else []) ++ written d, rest)
      cases true d h = number_at-minus d rest h ends
      cases false d h = number_at-written d rest h ends

  number_text-parsed :
      (x : F64) (text : Text)
      → Spelled std x text
      → x ≢ 2 ^ 63
      → ltb x (2 ^ 64) ≡ true
      → std.parse_f64 text ≡ some x
  number_text-parsed x text spelled not_minus_zero bits =
      rw (spelled.shown)
        (cases (spelled.minus) (spelled.number) (spelled.sound) (spelled.parses) (spelled.sign))
    where
      cases :
          (minus : Bool) (d : Decimal)
          → IsDecimal d
          → std.parse_f64 (written d) ≡ some (magnitude x)
          → minus ≡ (is_negative x && not (is_zero x))
          → std.parse_f64 ((if minus then b'-' ∷ [] else []) ++ written d) ≡ some x
      cases true d h parses sign =
          laws.minus d (magnitude x) h (omega arith) parses ∙ ap some (ground (arith, sign, bits))
      cases false d h parses sign = parses ∙ ap some (ground (arith, sign, bits, not_minus_zero))

-- `number_text` writes numbers as the scanner and Rust's parser read them.
pub number_text-IsSpelling :
    (std : Floats) → IsFloats std → IsSpelling (number_text std) std.parse_f64
number_text-IsSpelling std laws = record {
  scanned = λ x rest finite ends.
      number_text-scanned std laws x (number_text std x) rest
        (number_text-Spelled std laws x finite) ends;
  parsed = λ x finite not_minus_zero bits.
      number_text-parsed std laws x (number_text std x) (number_text-Spelled std laws x finite)
        not_minus_zero bits;
}
