-- ===== src/Text.antt =====
-- Texts as the sequence of their characters, and what the code asks of them: Rust's `str` methods
-- and the helpers of crates/tagents-core/src/js.rs and node.rs that the modelled parts call.
pub mod Split
pub mod Pieces
use Prim.Native.Char.{code}
use tagents.Prelude.{
  ℕ, zero, suc, ◌+◌, ◌/◌, ◌%◌, String, ◌≡◌, refl, ◌↔◌, Bool, true, false, ◌&&◌, ◌||◌, Option, none,
  some, List, [], ◌∷◌, arith, leb, ltb, ◌==◌, if◌then◌else◌,
}

-- A Rust `String`: its characters, each by its code point.
abbrev pub Text : Type 0
Text = List ℕ

abbrev codes : String → Text
codes String.[] = []
codes (String.◌∷◌ c s) = code c ∷ codes s

-- A literal of the source. It stays folded in proofs.
unfoldable pub word : String → Text
word s = codes s

unfoldable pub text_eq : Text → Text → Bool
text_eq [] [] = true
text_eq (a ∷ s) (b ∷ t) = (a == b) && text_eq s t
text_eq _ _ = false

pub text_eq_iff : (s t : Text) → (text_eq s t ≡ true) ↔ (s ≡ t)
unfolding text_eq
text_eq_iff [] [] = ((λ _. refl), (λ _. refl))
text_eq_iff [] (b ∷ t) = ((λ h. cc), (λ h. cc))
text_eq_iff (a ∷ s) [] = ((λ h. cc), (λ h. cc))
text_eq_iff (a ∷ s) (b ∷ t) = let ih = text_eq_iff s t in ground arith

-- `text.is_empty()`
abbrev pub is_empty : Text → Bool
is_empty [] = true
is_empty (c ∷ s) = false

-- `text.strip_prefix(p)`
unfoldable pub strip_prefix : Text → Text → Option Text
strip_prefix [] s = some s
strip_prefix (p ∷ ps) [] = none
strip_prefix (p ∷ ps) (c ∷ s) = if p == c then strip_prefix ps s else none

-- `text.starts_with(p)`
unfoldable pub starts_with : Text → Text → Bool
unfolding strip_prefix
starts_with p s = elim (strip_prefix p s) [ none ↦ false | some _ ↦ true ]

-- `text.contains(p)` for a text `p`
unfoldable pub contains : Text → Text → Bool
unfolding starts_with
contains p [] = starts_with p []
contains p (c ∷ s) = starts_with p (c ∷ s) || contains p s

-- `text.chars().all(p)`
unfoldable pub all_chars : (ℕ → Bool) → Text → Bool
all_chars p [] = true
all_chars p (c ∷ s) = p c && all_chars p s

-- `b.is_ascii_digit()`
abbrev pub is_ascii_digit : ℕ → Bool
is_ascii_digit c = leb b'0' c && leb c b'9'

-- `text.to_ascii_lowercase()`
unfoldable pub to_ascii_lowercase : Text → Text
to_ascii_lowercase [] = []
to_ascii_lowercase (c ∷ s) = (if leb b'A' c && leb c b'Z' then c + 32 else c) ∷ to_ascii_lowercase s

-- `js::is_space`: the ECMAScript white space and line terminators.
unfoldable pub is_space : ℕ → Bool
is_space c =
    (leb 0x9 c && leb c 0xd)
    || c == 0x20
    || c == 0xa0
    || c == 0x1680
    || (leb 0x2000 c && leb c 0x200a)
    || c == 0x2028
    || c == 0x2029
    || c == 0x202f
    || c == 0x205f
    || c == 0x3000
    || c == 0xfeff

-- `text.trim_start_matches(p)`
unfoldable pub trim_start : (ℕ → Bool) → Text → Text
trim_start p [] = []
trim_start p (c ∷ s) = if p c then trim_start p s else c ∷ s

-- `text.trim_end_matches(p)`
unfoldable pub trim_end : (ℕ → Bool) → Text → Text
trim_end p [] = []
trim_end p (c ∷ s) = let rest = trim_end p s in if p c && is_empty rest then [] else c ∷ rest

-- `js::trim`
unfoldable pub trim : Text → Text
unfolding trim_start trim_end is_space
trim s = trim_end is_space (trim_start is_space s)

-- `text.strip_suffix(c).unwrap_or(text)`
unfoldable pub strip_last : ℕ → Text → Text
strip_last a [] = []
strip_last a (c ∷ []) = if c == a then [] else c ∷ []
strip_last a (c ∷ d ∷ s) = c ∷ strip_last a (d ∷ s)

-- `text.split(c)`: always one piece at least.
abbrev pub cons_piece : ℕ → List Text → List Text
cons_piece c [] = (c ∷ []) ∷ []
cons_piece c (p ∷ ps) = (c ∷ p) ∷ ps

unfoldable pub split : ℕ → Text → List Text
split sep [] = [] ∷ []
split sep (c ∷ s) = let rest = split sep s in if c == sep then [] ∷ rest else cons_piece c rest

-- The decimal digits of a number, before a tail; the fuel bounds the divisions.
unfoldable pub digits : ℕ → ℕ → Text → Text
digits zero n tail = tail
digits (suc fuel) n tail =
    let here = (b'0' + n % 10) ∷ tail in
    let rest = digits fuel (n / 10) here in if ltb n 10 then here else rest

-- `js::number_text` of a whole number that is not negative.
unfoldable pub number_text : ℕ → Text
unfolding digits
number_text n = digits (suc n) n []

-- The text behind the last separator, from the text behind the last one so far.
unfoldable pub last_piece : ℕ → Text → Text → Text
last_piece sep kept [] = kept
last_piece sep kept (c ∷ s) = last_piece sep (if c == sep then s else kept) s

-- `node::basename`
unfoldable pub basename : Text → Text
unfolding trim_end last_piece
basename p = let trimmed = trim_end (λ c. c == b'/') p in last_piece b'/' trimmed trimmed

-- `text.split('.').next()`: the text before the first separator.
unfoldable pub before : ℕ → Text → Text
before sep [] = []
before sep (c ∷ s) = let rest = before sep s in if c == sep then [] else c ∷ rest

-- `text.chars().take(n)`
unfoldable pub take : ℕ → Text → Text
take zero s = []
take (suc n) [] = []
take (suc n) (c ∷ s) = c ∷ take n s
