-- ===== src/Utf8/Lines.antt =====
-- The lemmas on lines of bytes and lines of text.
use tagents.Prelude.{
  ℕ, ◌≡◌, refl, sym, ap, ◌∙◌, zero, suc, ◌&&◌, Bool, true, false, [], ◌∷◌, ◌++◌, leb, ltb, arith,
}
use tagents.Text.{Text, all_chars}
use tagents.Utf8.{Bytes, Decoder, between, inside, begin, feed, decode, from_utf8_lossy}

-- ASCII is read as itself.
pub from_utf8_lossy-ascii :
    (bytes : Bytes) → all_chars (λ b. ltb b 0x80) bytes ≡ true → from_utf8_lossy bytes ≡ bytes
unfolding from_utf8_lossy decode feed begin all_chars
from_utf8_lossy-ascii [] h = refl
from_utf8_lossy-ascii (b ∷ bytes) h = let ih = from_utf8_lossy-ascii bytes in ground arith

++-assoc : (a b c : Text) → (a ++ b) ++ c ≡ a ++ (b ++ c)
++-assoc [] b c = refl
++-assoc (x ∷ a) b c = ap (λ t. x ∷ t) (++-assoc a b c)

-- A byte below 0x80 never goes on with a character.
abbrev is_bound : Decoder → Bool
is_bound between = true
is_bound (inside more bits low high) = leb 0x80 low

abbrev IsBound : Decoder → Type 0
IsBound d = is_bound d ≡ true

begin-IsBound : (b : ℕ) → IsBound (begin b).1
unfolding begin
begin-IsBound b = ground arith

feed-IsBound : (d : Decoder) (b : ℕ) → IsBound (feed d b).1
unfolding feed
feed-IsBound between b = begin-IsBound b
feed-IsBound (inside zero bits low high) b = let begun = begin-IsBound b in ground (arith, begun)
feed-IsBound (inside (suc more) bits low high) b =
    let begun = begin-IsBound b in ground (arith, begun)

newline :
    (d : Decoder) (rest : Bytes)
    → IsBound d
    → decode d (0xa ∷ rest) ≡ decode d [] ++ 0xa ∷ decode between rest
unfolding decode feed begin
newline between rest h = refl
newline (inside more bits low high) rest h =
    let early : (leb low 0xa && leb 0xa high) ≡ false = ground arith in rw early refl

decode-newline :
    (d : Decoder) (line rest : Bytes)
    → IsBound d
    → decode d (line ++ 0xa ∷ rest) ≡ decode d line ++ 0xa ∷ decode between rest
unfolding decode
decode-newline d [] rest h = newline d rest h
decode-newline d (b ∷ line) rest h =
    ap (λ t. (feed d b).0 ++ t) (decode-newline (feed d b).1 line rest (feed-IsBound d b))
    ∙ sym (++-assoc (feed d b).0 (decode (feed d b).1 line) (0xa ∷ decode between rest))

-- A newline ends whatever character is open: the text of the bytes around it is the texts of both, with
-- the newline between them.
pub from_utf8_lossy-newline :
    (line rest : Bytes)
    → from_utf8_lossy (line ++ 0xa ∷ rest) ≡ from_utf8_lossy line ++ 0xa ∷ from_utf8_lossy rest
unfolding from_utf8_lossy
from_utf8_lossy-newline line rest = decode-newline between line rest refl
