-- ===== src/Tests/Floats.antt =====
-- A spelling of floats that stands for Rust's: as many ones as the number says.
use tagents.Prelude.{
  ℕ, zero, suc, ◌+◌, ◌^◌, ◌<◌, ◌≡◌, refl, sym, ap, ◌∙◌, false, Option, none, some, [], ◌∷◌, ◌++◌,
  ◌==◌, arith, if◌then◌else◌,
}
use tagents.Text.{Text}
use tagents.Json.{F64}
use tagents.Json.Number.{Floats, zeros}
use tagents.Json.Number.Digits.{AllDigits, AllDigits-append}
use tagents.Json.Number.Decimal.{
  Power, plain, up, plus, down, Decimal, written, fraction_text, power_text, figures, IsDecimal,
}
use tagents.Json.Number.Scientific.{Scientific, decimal, IsFloats}

abbrev ones : ℕ → Text
ones zero = []
ones (suc n) = b'1' ∷ ones n

pub ones-AllDigits : (n : ℕ) → AllDigits (ones n)
ones-AllDigits zero = tt
ones-AllDigits (suc n) = (refl, ones-AllDigits n)

abbrev count : Text → ℕ
count [] = 0
count (c ∷ s) = let rest = count s in if c == b'e' then 0 else if c == b'1' then suc rest else rest

abbrev count_of : Text → Option F64
count_of [] = none
count_of (c ∷ s) = if c == b'-' then some (count s + 2 ^ 63) else some (count (c ∷ s))

-- `n + 1` as a decimal.
abbrev spelling : ℕ → Scientific
spelling n = record {
  first = b'1';
  more = ones n;
  minus = false;
  power = 0;
  first_digit = refl;
  nonzero = refl;
  more_digits = ones-AllDigits n;
  small = omega arith;
}

abbrev spelled : F64 → Text
spelled zero = []
spelled (suc n) = written (decimal (spelling n))

abbrev pub floats : Floats
floats = record {
  lower_exp = spelled;
  lower_exp_places = λ places x. spelled x;
  parse_f64 = count_of;
}

count-append : (s t : Text) → AllDigits s → count (s ++ t) ≡ count s + count t
count-append [] t h = omega arith
count-append (c ∷ s) t h =
    let digit = h.0 in let rest = count-append s t h.1 in ground (arith, digit, rest)

count-zeros : (n : ℕ) → count (zeros n) ≡ 0
count-zeros zero = refl
count-zeros (suc n) = count-zeros n

count-power_text : (p : Power) → count (power_text p) ≡ 0
count-power_text plain = refl
count-power_text (up n) = refl
count-power_text (plus n) = refl
count-power_text (down n) = refl

count-fraction_text : (s t : Text) → AllDigits s → count (fraction_text s ++ t) ≡ count s + count t
count-fraction_text [] t h = omega arith
count-fraction_text (c ∷ s) t h = count-append (c ∷ s) t h

count-written : (d : Decimal) → IsDecimal d → count (written d) ≡ count (figures d)
count-written d h =
    let whole = d.first ∷ d.more in
    let all : AllDigits whole = (h.0, h.1) in
    let behind = fraction_text (d.fraction) ++ power_text (d.power) in
    omega (
      arith,
      count-append whole behind all,
      count-append whole (d.fraction) all,
      count-fraction_text (d.fraction) (power_text (d.power)) h.2,
      count-power_text (d.power),
    )

read-written : (d : Decimal) → IsDecimal d → count_of (written d) ≡ some (count (figures d))
read-written d h =
    let digit = h.0 in
    let unsigned : (d.first == b'-') ≡ false = ground (arith, digit) in
    rw unsigned (ap some (count-written d h))

figures-AllDigits : (d : Decimal) → IsDecimal d → AllDigits (figures d)
figures-AllDigits d h = AllDigits-append (d.first ∷ d.more) (d.fraction) (h.0, h.1) h.2

count-ones : (n : ℕ) → count (ones n) ≡ n
count-ones zero = refl
count-ones (suc n) = ap suc (count-ones n)

read-spelled : (n : ℕ) → count_of (spelled (suc n)) ≡ some (suc n)
read-spelled n =
    read-written (decimal (spelling n)) (refl, tt, ones-AllDigits n, (λ e. absurd (cc)))
    ∙ ap (λ m. some (suc m)) (count-ones n)

zeros-AllDigits : (n : ℕ) → AllDigits (zeros n)
zeros-AllDigits zero = tt
zeros-AllDigits (suc n) = (refl, zeros-AllDigits n)

count-zeros_around :
    (front back : ℕ) (s : Text) → AllDigits s → count (zeros front ++ (s ++ zeros back)) ≡ count s
count-zeros_around front back s h = omega (
  arith,
  count-append (zeros front) (s ++ zeros back) (zeros-AllDigits front),
  count-append s (zeros back) h,
  count-zeros front,
  count-zeros back,
)

pub floats-IsFloats : IsFloats floats
floats-IsFloats = record {
  spelled = λ x some_size _. scientific x some_size;
  spelled_places = λ _ x some_size _. scientific x some_size;
  back = λ x some_size _. back x some_size;
  by_value = λ p q front back hp hq same _.
      read-written q hq
      ∙ ap (λ t. some (count t)) same
      ∙ ap some (count-zeros_around front back (figures p) (figures-AllDigits p hp))
      ∙ sym (read-written p hp);
  minus = λ d x h _ read_so. negated d x h read_so;
  zero_text = refl;
}
  where
    scientific : (x : F64) → 0 < x → tagents.Json.Number.Scientific.IsScientific (spelled x)
    scientific zero h = absurd (omega (arith, h))
    scientific (suc n) h = (spelling n, refl)

    back : (x : F64) → 0 < x → count_of (spelled x) ≡ some x
    back zero h = absurd (omega (arith, h))
    back (suc n) h = read-spelled n

    negated :
        (d : Decimal) (x : F64)
        → IsDecimal d
        → count_of (written d) ≡ some x
        → count_of (b'-' ∷ written d) ≡ some (x + 2 ^ 63)
    negated d x h read_so =
        let same : some (count (written d)) ≡ some x =
          ap some (count-written d h) ∙ sym (read-written d h) ∙ read_so in
        ap (λ r. elim r [ none ↦ none | some n ↦ some (n + 2 ^ 63) ]) same
