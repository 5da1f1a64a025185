-- ===== src/Json/Number/Digits.antt =====
-- The lemmas on numbers and their digits.
use tagents.Prelude.{
  ℕ, zero, suc, ◌+◌, ◌-◌, ◌*◌, ◌/◌, ◌%◌, ◌<◌, ◌≡◌, refl, ap, ◌∙◌, true, false, [], ◌∷◌, ◌++◌, ltb,
  arith, Bool-cases, inl, inr,
}
use tagents.Text.{Text, is_ascii_digit, all_chars, digits, number_text, is_empty}
use tagents.Json.Order.{digits_value}

-- A text of digits.
abbrev pub AllDigits : Text → Type 0
AllDigits [] = Unit {0}
AllDigits (c ∷ s) = (is_ascii_digit c ≡ true) × AllDigits s

pub AllDigits-append : (s t : Text) → AllDigits s → AllDigits t → AllDigits (s ++ t)
AllDigits-append [] t hs ht = ht
AllDigits-append (c ∷ s) t hs ht = (hs.0, AllDigits-append s t hs.1 ht)

pub all_chars-digit : (s : Text) → AllDigits s → all_chars is_ascii_digit s ≡ true
unfolding all_chars
all_chars-digit [] h = refl
all_chars-digit (c ∷ s) h = rw (h.0, all_chars-digit s h.1) refl

digits_value-digits :
    (fuel n : ℕ) (tail : Text)
    → n < fuel
    → digits_value 0 (digits fuel n tail) ≡ digits_value n tail
unfolding digits digits_value
digits_value-digits zero n tail h = absurd (omega (arith, h))
digits_value-digits (suc fuel) n tail h = elim (Bool-cases (ltb n 10)) [
  | inl small ↦ rw small (ap (λ m. digits_value m tail) (ground (arith, small)))
  | inr big ↦ rw big (
      digits_value-digits fuel (n / 10) ((b'0' + n % 10) ∷ tail) (ground (arith, big, h))
      ∙ ap (λ m. digits_value m tail) (omega arith))
]

-- The number that is printed is read.
pub digits_value-number_text : (n : ℕ) → digits_value 0 (number_text n) ≡ n
unfolding number_text digits_value
digits_value-number_text n = digits_value-digits (suc n) n [] (omega arith)

digits-AllDigits : (fuel n : ℕ) (tail : Text) → AllDigits tail → AllDigits (digits fuel n tail)
unfolding digits
digits-AllDigits zero n tail h = h
digits-AllDigits (suc fuel) n tail h = elim (Bool-cases (ltb n 10)) [
  | inl small ↦ rw small (ground arith, h)
  | inr big ↦ rw big (digits-AllDigits fuel (n / 10) ((b'0' + n % 10) ∷ tail) (ground arith, h))
]

pub number_text-AllDigits : (n : ℕ) → AllDigits (number_text n)
unfolding number_text
number_text-AllDigits n = digits-AllDigits (suc n) n [] tt

digits-filled :
    (fuel n : ℕ) (tail : Text) → is_empty tail ≡ false → is_empty (digits fuel n tail) ≡ false
unfolding digits
digits-filled zero n tail h = h
digits-filled (suc fuel) n tail h = elim (Bool-cases (ltb n 10)) [
  | inl small ↦ rw small refl
  | inr big ↦ rw big (digits-filled fuel (n / 10) ((b'0' + n % 10) ∷ tail) refl)
]

pub number_text-filled : (n : ℕ) → is_empty (number_text n) ≡ false
unfolding number_text digits
number_text-filled n = elim (Bool-cases (ltb n 10)) [
  | inl small ↦ rw small refl
  | inr big ↦ rw big (digits-filled n (n / 10) ((b'0' + n % 10) ∷ []) refl)
]

pub digits_value-append :
    (a : ℕ) (s t : Text) → digits_value a (s ++ t) ≡ digits_value (digits_value a s) t
unfolding digits_value
digits_value-append a [] t = refl
digits_value-append a (c ∷ s) t = digits_value-append (a * 10 + (c - b'0')) s t
