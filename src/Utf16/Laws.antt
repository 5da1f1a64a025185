-- ===== src/Utf16/Laws.antt =====
-- The lemmas on a text and its code units.
use tagents.Prelude.{
  ℕ, ◌≡◌, refl, ap, ◌∙◌, true, ◌&&◌, some, List, [], ◌∷◌, ◌++◌, map, arith, All, Bool-cases, inl,
  inr, ltb,
}
use tagents.Text.{Text}
use tagents.Utf16.{
  Units, is_high, is_low, is_char, paired, encode, units, Piece, char, lone, alone, decode_utf16,
  whole, from_utf16,
}

-- Of scalar values, as Rust's `String` is.
abbrev pub IsText : Text → Type 0
IsText s = All (λ c. is_char c ≡ true) s

decode-encode :
    (c : ℕ) (us : Units)
    → is_char c ≡ true
    → decode_utf16 (encode c ++ us) ≡ char c ∷ decode_utf16 us
unfolding encode decode_utf16 alone paired
decode-encode c [] h = ground arith
decode-encode c (u ∷ us) h = ground arith

pub decode_utf16-units : (s : Text) → IsText s → decode_utf16 (units s) ≡ map char s
unfolding units decode_utf16
decode_utf16-units [] h = refl
decode_utf16-units (c ∷ s) h =
    decode-encode c (units s) h.0 ∙ ap (λ ps. char c ∷ ps) (decode_utf16-units s h.1)

abbrev pub piece_units : Piece → Units
piece_units (char c) = encode c
piece_units (lone u) = u ∷ []

abbrev pub all_units : List Piece → Units
all_units [] = []
all_units (p ∷ ps) = piece_units p ++ all_units ps

encode-paired : (u v : ℕ) → (is_high u && is_low v) ≡ true → encode (paired u v) ≡ u ∷ v ∷ []
unfolding encode paired
encode-paired u v h = ground arith

encode_alone : (u : ℕ) → ltb u 0x10000 ≡ true → piece_units (alone u) ≡ u ∷ []
unfolding encode alone
encode_alone u h = ground arith

-- Taking units apart loses nothing.
pub all_units-decode_utf16 :
    (us : Units) → All (λ u. ltb u 0x10000 ≡ true) us → all_units (decode_utf16 us) ≡ us
unfolding decode_utf16
all_units-decode_utf16 [] h = refl
all_units-decode_utf16 (u ∷ []) h = rw (encode_alone u h.0) refl
all_units-decode_utf16 (u ∷ v ∷ us) h = elim (Bool-cases (is_high u && is_low v)) [
  | inl pair ↦ rw (pair, encode-paired u v pair, all_units-decode_utf16 us h.1.1) refl
  | inr no_pair ↦ rw (no_pair, encode_alone u h.0, all_units-decode_utf16 (v ∷ us) h.1) refl
]

pub whole-char : (s : Text) → whole (map char s) ≡ some s
unfolding whole
whole-char [] = refl
whole-char (c ∷ s) = rw (whole-char s) refl

-- A text has its units and they have it.
pub from_utf16-units : (s : Text) → IsText s → from_utf16 (units s) ≡ some s
unfolding from_utf16
from_utf16-units s h = ap whole (decode_utf16-units s h) ∙ whole-char s
