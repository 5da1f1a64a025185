-- ===== src/Json/Number/Decimal.antt =====
-- Decimals: the texts that the scanner takes for a number, by their parts.
use tagents.Prelude.{
  ℕ, ◌+◌, ◌≡◌, refl, ap, ◌∙◌, true, false, ◌||◌, some, [], ◌∷◌, ◌++◌, ◌==◌, length, arith,
  append_assoc,
}
use tagents.Text.{Text, is_ascii_digit, is_empty, number_text}
use tagents.Json.Scan.{
  digits_at, some_digits, whole_at, fraction_at, exponent_sign_at, exponent_at, number_at,
  unsigned_at,
}
use tagents.Json.Reader.Pieces.{IsEnd, unsigned_at-parts}
use tagents.Json.Number.Digits.{AllDigits, number_text-AllDigits, number_text-filled}

-- Nothing, `e5`, `e+5` and `e-5`.
pub data Power : Type 0 where
  plain : Power
  up plus down : ℕ → Power

pub record Decimal : Type 0 where
  pub first : ℕ
  pub more : Text
  pub fraction : Text
  pub power : Power

abbrev pub power_text : Power → Text
power_text plain = []
power_text (up n) = b'e' ∷ number_text n
power_text (plus n) = b'e' ∷ b'+' ∷ number_text n
power_text (down n) = b'e' ∷ b'-' ∷ number_text n

abbrev pub fraction_text : Text → Text
fraction_text [] = []
fraction_text (c ∷ s) = b'.' ∷ c ∷ s

abbrev pub written : Decimal → Text
written d = (d.first ∷ d.more) ++ (fraction_text d.fraction ++ power_text d.power)

-- The digits, and the power of ten with which they count, as what is added and what is taken away.
abbrev pub figures : Decimal → Text
figures d = (d.first ∷ d.more) ++ d.fraction

abbrev pub raised : Decimal → ℕ
raised d = elim (d.power) [ plain ↦ 0 | up n ↦ n | plus n ↦ n | down n ↦ 0 ]

abbrev pub lowered : Decimal → ℕ
lowered d = length (d.fraction) + elim (d.power) [ plain ↦ 0 | up n ↦ 0 | plus n ↦ 0 | down n ↦ n ]

-- The whole part is 0, or it does not begin with 0.
abbrev pub IsDecimal : Decimal → Type 0
IsDecimal d =
    (is_ascii_digit (d.first) ≡ true)
    × AllDigits (d.more)
    × AllDigits (d.fraction)
    × (is_empty (d.more) ≡ false → (d.first == b'0') ≡ false)

digits_at-end : (rest : Text) → IsEnd rest → digits_at rest ≡ ([], rest)
unfolding digits_at
digits_at-end [] h = refl
digits_at-end (c ∷ s) h = ground (arith, h)

-- What is behind digits, and is not a digit.
abbrev NoDigit : Text → Type 0
NoDigit [] = Unit {0}
NoDigit (c ∷ s) = is_ascii_digit c ≡ false

IsEnd-NoDigit : (t : Text) → IsEnd t → NoDigit t
IsEnd-NoDigit [] h = tt
IsEnd-NoDigit (c ∷ t) h = ground (arith, h)

digits_at-append : (s t : Text) → AllDigits s → NoDigit t → digits_at (s ++ t) ≡ (s, t)
unfolding digits_at
digits_at-append [] [] h e = refl
digits_at-append [] (c ∷ t) h e = rw e refl
digits_at-append (c ∷ s) t h e = rw (h.0, digits_at-append s t h.1 e) refl

some_digits-append :
    (s t : Text) → is_empty s ≡ false → AllDigits s → NoDigit t → some_digits (s ++ t) ≡ some (s, t)
unfolding some_digits
some_digits-append s t filled h e = rw (digits_at-append s t h e, filled) refl

whole_at-digits :
    (c : ℕ) (s t : Text)
    → is_ascii_digit c ≡ true
    → AllDigits s
    → (is_empty s ≡ false → (c == b'0') ≡ false)
    → NoDigit t
    → whole_at ((c ∷ s) ++ t) ≡ some (c ∷ s, t)
unfolding whole_at
whole_at-digits c [] t digit all lead e = rw (digits_at-append [] t tt e) (ground (arith, digit))
whole_at-digits c (d ∷ s) t digit all lead e =
    let nonzero = lead refl in
    rw (digits_at-append (d ∷ s) t all e) (ground (arith, digit, nonzero))

fraction_at-fraction_text :
    (s t : Text)
    → AllDigits s
    → NoDigit t
    → fraction_at t ≡ some ([], t)
    → fraction_at (fraction_text s ++ t) ≡ some (fraction_text s, t)
unfolding fraction_at
fraction_at-fraction_text [] t h e none_here = none_here
fraction_at-fraction_text (c ∷ s) t h e none_here =
    rw (some_digits-append (c ∷ s) t refl h e, fraction_at) refl

no_fraction : (t : Text) → IsEnd t → fraction_at t ≡ some ([], t)
unfolding fraction_at
no_fraction [] h = refl
no_fraction (c ∷ s) h = ground (arith, h)

no_exponent : (t : Text) → IsEnd t → exponent_at t ≡ some ([], t)
unfolding exponent_at
no_exponent [] h = refl
no_exponent (c ∷ s) h = ground (arith, h)

exponent_at-parts :
    (s sign t ds rest : Text)
    → exponent_sign_at s ≡ (sign, t)
    → some_digits t ≡ some (ds, rest)
    → exponent_at (b'e' ∷ s) ≡ some (b'e' ∷ (sign ++ ds), rest)
unfolding exponent_at
exponent_at-parts s sign t ds rest signed read =
    rw (signed, exponent_at, read) (ap (λ r. some (b'e' ∷ (r.0 ++ ds), rest)) signed)

exponent_at-unsigned :
    (s rest : Text)
    → is_empty s ≡ false
    → AllDigits s
    → NoDigit rest
    → exponent_at (b'e' ∷ (s ++ rest)) ≡ some (b'e' ∷ s, rest)
exponent_at-unsigned [] rest filled h e = absurd (cc)
exponent_at-unsigned (c ∷ s) rest filled h e =
    let digit = h.0 in
    let unsigned : (c == b'+' || c == b'-') ≡ false = ground (arith, digit) in
    exponent_at-parts ((c ∷ s) ++ rest) [] ((c ∷ s) ++ rest) (c ∷ s) rest (rw unsigned refl)
      (some_digits-append (c ∷ s) rest filled h e)

exponent_at-signed :
    (sign : ℕ) (s rest : Text)
    → (sign == b'+' || sign == b'-') ≡ true
    → is_empty s ≡ false
    → AllDigits s
    → NoDigit rest
    → exponent_at (b'e' ∷ sign ∷ (s ++ rest)) ≡ some (b'e' ∷ sign ∷ s, rest)
exponent_at-signed sign s rest signed filled h e =
    exponent_at-parts (sign ∷ (s ++ rest)) (sign ∷ []) (s ++ rest) s rest (rw signed refl)
      (some_digits-append s rest filled h e)

exponent_at-power_text :
    (p : Power) (rest : Text)
    → IsEnd rest
    → exponent_at (power_text p ++ rest) ≡ some (power_text p, rest)
exponent_at-power_text plain rest h = no_exponent rest h
exponent_at-power_text (up n) rest h =
    exponent_at-unsigned (number_text n) rest (number_text-filled n) (number_text-AllDigits n)
      (IsEnd-NoDigit rest h)
exponent_at-power_text (plus n) rest h =
    exponent_at-signed b'+' (number_text n) rest refl (number_text-filled n)
      (number_text-AllDigits n) (IsEnd-NoDigit rest h)
exponent_at-power_text (down n) rest h =
    exponent_at-signed b'-' (number_text n) rest refl (number_text-filled n)
      (number_text-AllDigits n) (IsEnd-NoDigit rest h)

-- What is behind the fraction is no digit and no fraction.
behind_fraction :
    (p : Power) (rest : Text)
    → IsEnd rest
    → NoDigit (power_text p ++ rest)
      × (fraction_at (power_text p ++ rest) ≡ some ([], power_text p ++ rest))
unfolding fraction_at
behind_fraction plain rest h = (IsEnd-NoDigit rest h, no_fraction rest h)
behind_fraction (up n) rest h = (refl, refl)
behind_fraction (plus n) rest h = (refl, refl)
behind_fraction (down n) rest h = (refl, refl)

behind_whole : (s t : Text) → NoDigit t → NoDigit (fraction_text s ++ t)
behind_whole [] t h = h
behind_whole (c ∷ s) t h = refl

-- The scanner takes a decimal whole, with a sign before it or without.
unsigned_at-written :
    (sign : Text) (d : Decimal) (rest : Text)
    → IsDecimal d
    → IsEnd rest
    → unsigned_at sign (written d ++ rest) ≡ some (sign ++ written d, rest)
unsigned_at-written sign d rest h ends =
    let w = d.first ∷ d.more in
    let f = fraction_text (d.fraction) in
    let e = power_text (d.power) in
    let behind = behind_fraction (d.power) rest ends in
    ap (λ t. unsigned_at sign t)
      (append_assoc w (f ++ e) rest ∙ ap (λ t. w ++ t) (append_assoc f e rest))
    ∙ unsigned_at-parts sign (w ++ (f ++ (e ++ rest))) w f e (f ++ (e ++ rest)) (e ++ rest) rest
        (whole_at-digits (d.first) (d.more) (f ++ (e ++ rest)) h.0 h.1 h.3
          (behind_whole (d.fraction) (e ++ rest) behind.0))
        (fraction_at-fraction_text (d.fraction) (e ++ rest) h.2 behind.0 behind.1)
        (exponent_at-power_text (d.power) rest ends)

pub number_at-written :
    (d : Decimal) (rest : Text)
    → IsDecimal d
    → IsEnd rest
    → number_at (written d ++ rest) ≡ some (written d, rest)
unfolding number_at
number_at-written d rest h ends =
    let digit = h.0 in
    let unsigned : (d.first == b'-') ≡ false = ground (arith, digit) in
    rw unsigned (unsigned_at-written [] d rest h ends)

pub number_at-minus :
    (d : Decimal) (rest : Text)
    → IsDecimal d
    → IsEnd rest
    → number_at (b'-' ∷ (written d ++ rest)) ≡ some (b'-' ∷ written d, rest)
unfolding number_at
number_at-minus d rest h ends = unsigned_at-written (b'-' ∷ []) d rest h ends
