-- ===== src/Json/Number/Layout.antt =====
-- crates/tagents-core/src/js.rs, `number_text`: the lemmas on the place of the point.
use tagents.Prelude.{
  ℕ, zero, suc, ◌+◌, ◌-◌, ◌<◌, ◌≤◌, ◌≡◌, refl, sym, ap, ◌∙◌, true, false, ◌&&◌, [], ◌∷◌, ◌++◌, leb,
  ltb, ◌==◌, length, min, arith, if◌then◌else◌, append_nil, Bool-cases, inl, inr, length-append,
}
use tagents.Int.{ℤ, pos, negsuc}
use tagents.Text.{Text, is_ascii_digit, is_empty, take}
use tagents.Text.Pieces.{drop}
use tagents.Json.Number.{zeros, with_power, layout}
use tagents.Json.Number.Digits.{AllDigits, AllDigits-append}
use tagents.Json.Number.Decimal.{
  Power, plain, up, plus, down, Decimal, written, fraction_text, figures, raised, lowered,
  IsDecimal,
}

-- The text of a decimal with the figures `ds`, but for zeros around them, that counts as they do with
-- `ups` and `downs` as their powers of ten.
pub record Laid (ds : Text) (ups downs : ℕ) (text : Text) : Type 0 where
  pub number : Decimal
  pub sound : IsDecimal number
  pub shown : text ≡ written number
  pub front : ℕ
  pub back : ℕ
  pub same : figures number ≡ zeros front ++ (ds ++ zeros back)
  pub scale : raised number + back + downs ≡ ups + lowered number

-- The place of the point behind one digit with `ups` and `downs` as its powers of ten.
abbrev pub IsPoint : ℤ → ℕ → ℕ → Type 0
IsPoint (pos p) ups downs = p + downs ≡ ups + 1
IsPoint (negsuc n) ups downs = ups + n + 2 ≡ downs

zeros-AllDigits : (n : ℕ) → AllDigits (zeros n)
zeros-AllDigits zero = tt
zeros-AllDigits (suc n) = (refl, zeros-AllDigits n)

length-zeros : (n : ℕ) → length (zeros n) ≡ n
length-zeros zero = refl
length-zeros (suc n) = ap suc (length-zeros n)

take-AllDigits : (n : ℕ) (s : Text) → AllDigits s → AllDigits (take n s)
unfolding take
take-AllDigits zero s h = tt
take-AllDigits (suc n) [] h = tt
take-AllDigits (suc n) (c ∷ s) h = (h.0, take-AllDigits n s h.1)

drop-AllDigits : (n : ℕ) (s : Text) → AllDigits s → AllDigits (drop n s)
unfolding drop
drop-AllDigits zero s h = h
drop-AllDigits (suc n) [] h = tt
drop-AllDigits (suc n) (c ∷ s) h = drop-AllDigits n s h.1

take-drop : (n : ℕ) (s : Text) → take n s ++ drop n s ≡ s
unfolding take drop
take-drop zero s = refl
take-drop (suc n) [] = refl
take-drop (suc n) (c ∷ s) = ap (λ t. c ∷ t) (take-drop n s)

length-drop : (n : ℕ) (s : Text) → n ≤ length s → n + length (drop n s) ≡ length s
unfolding drop
length-drop zero s h = omega arith
length-drop (suc n) [] h = absurd (omega (arith, h))
length-drop (suc n) (c ∷ s) h = omega (arith, length-drop n s (omega (arith, h)))

drop-filled : (n : ℕ) (s : Text) → n < length s → is_empty (drop n s) ≡ false
unfolding drop
drop-filled zero [] h = absurd (omega (arith, h))
drop-filled zero (c ∷ s) h = refl
drop-filled (suc n) [] h = absurd (omega (arith, h))
drop-filled (suc n) (c ∷ s) h = drop-filled n s (omega (arith, h))

fraction_text-filled : (s : Text) → is_empty s ≡ false → b'.' ∷ s ≡ fraction_text s ++ []
fraction_text-filled [] h = absurd (cc)
fraction_text-filled (c ∷ s) h = ap (λ t. b'.' ∷ c ∷ t) (sym (append_nil s))

fraction_text-if : (s : Text) → (if is_empty s then [] else b'.' ∷ s) ≡ fraction_text s
fraction_text-if [] = refl
fraction_text-if (c ∷ s) = refl

module _ (c : ℕ) (more : Text) (digit : is_ascii_digit c ≡ true) (nonzero : (c == b'0') ≡ false)
    (all : AllDigits more) (ups downs : ℕ) where
  abbrev LaidAs : Text → Type 0
  LaidAs text = Laid (c ∷ more) ups (length more + downs) text

  filled_up : (n : ℕ) → 1 + length more + n + downs ≡ ups + 1 → LaidAs ((c ∷ more) ++ zeros n)
  filled_up n h = record {
    number = record { first = c; more = more ++ zeros n; fraction = []; power = plain };
    sound = (digit, AllDigits-append more (zeros n) all (zeros-AllDigits n), tt, (λ _. nonzero));
    shown = sym (append_nil ((c ∷ more) ++ zeros n));
    front = 0;
    back = n;
    same = append_nil ((c ∷ more) ++ zeros n);
    scale = omega (arith, h);
  }

  pointed :
      (n : ℕ)
      → n < length more
      → suc n + downs ≡ ups + 1
      → LaidAs ((c ∷ take n more) ++ (b'.' ∷ drop n more))
  pointed n inside h = record {
    number = record { first = c; more = take n more; fraction = drop n more; power = plain };
    sound = (digit, take-AllDigits n more all, drop-AllDigits n more all, (λ _. nonzero));
    shown =
        ap (λ t. (c ∷ take n more) ++ t)
          (fraction_text-filled (drop n more) (drop-filled n more inside));
    front = 0;
    back = 0;
    same = ap (λ t. c ∷ t) (take-drop n more ∙ sym (append_nil more));
    scale = omega (arith, h, length-drop n more (omega (arith, inside)));
  }

  leading : (n : ℕ) → ups + n + 1 ≡ downs → LaidAs (b'0' ∷ b'.' ∷ (zeros n ++ (c ∷ more)))
  leading n h = record {
    number = record { first = b'0'; more = []; fraction = zeros n ++ (c ∷ more); power = plain };
    sound = (
      refl,
      tt,
      AllDigits-append (zeros n) (c ∷ more) (zeros-AllDigits n) (digit, all),
      (λ e. absurd (cc)),
    );
    shown = ap (λ t. b'0' ∷ t) (fraction_text-filled (zeros n ++ (c ∷ more)) (behind n));
    front = suc n;
    back = 0;
    same = ap (λ t. b'0' ∷ (zeros n ++ t)) (sym (append_nil (c ∷ more)));
    scale = omega (arith, h, length-append (zeros n) (c ∷ more), length-zeros n);
  }
    where
      behind : (n : ℕ) → is_empty (zeros n ++ (c ∷ more)) ≡ false
      behind zero = refl
      behind (suc n) = refl

  powered :
      (p : Power) (sign n : ℕ)
      → tagents.Json.Number.Decimal.power_text p ≡ b'e' ∷ sign ∷ tagents.Text.number_text n
      → raised (record { first = c; more = []; fraction = more; power = p }) + downs + length more
        ≡ ups + lowered (record { first = c; more = []; fraction = more; power = p })
      → LaidAs (with_power (c ∷ more) sign n)
  unfolding with_power take drop
  powered p sign n text h = record {
    number = record { first = c; more = []; fraction = more; power = p };
    sound = (digit, tt, all, (λ e. absurd (cc)));
    shown =
        ap (λ t. c ∷ (t ++ (b'e' ∷ sign ∷ tagents.Text.number_text n))) (fraction_text-if more)
        ∙ ap (λ t. c ∷ (fraction_text more ++ t)) (sym text);
    front = 0;
    back = 0;
    same = ap (λ t. c ∷ t) (sym (append_nil more));
    scale = omega (arith, h);
  }

  -- The text is a decimal of the value that the digits have.
  pub layout-Laid : (point : ℤ) → IsPoint point ups downs → LaidAs (layout (c ∷ more) point)
  unfolding layout take drop
  layout-Laid (negsuc n) h = elim (Bool-cases (ltb (n + 1) 6)) [
    | inl near ↦ rw near (leading (n + 1) (omega (arith, h)))
    | inr far ↦ rw far (powered (down (n + 2)) b'-' (n + 2) refl (omega (arith, h)))
  ]
  layout-Laid (pos zero) h =
      let outside : (leb (suc (length more)) 0 && leb 0 21) ≡ false = ground arith in
      rw outside (leading 0 (omega (arith, h)))
  layout-Laid (pos (suc p)) h =
      elim (Bool-cases (leb (suc (length more)) (suc p) && leb (suc p) 21)) [
        | inl short ↦ rw short (filled_up (suc p - suc (length more)) (ground (arith, h, short)))
        | inr long ↦ rw long (elim (Bool-cases (ltb 0 (suc p) && leb (suc p) 21)) [
          | inl inside ↦
              let least : min (suc p) (suc (length more)) ≡ suc p = ground (arith, long, inside) in
              rw (inside, least) (pointed p (ground (arith, long, inside)) (omega (arith, h)))
          | inr outside ↦
              let some_place : (suc p == 0) ≡ false = ground arith in
              let less : suc p - 1 ≡ p = omega arith in
              rw (outside, some_place, less) (powered (plus p) b'+' p refl (omega (arith, h)))
        ])
      ]
