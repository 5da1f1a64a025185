-- ===== src/Utf8.antt =====
-- `String::from_utf8_lossy`, as the source uses it on command lines, on the events file and on the lines of
-- the protocol: the bytes of a sequence that is not UTF-8 become U+FFFD, one for each maximal piece.
use tagents.Prelude.{
  ℕ, zero, suc, ◌+◌, ◌-◌, ◌*◌, ◌%◌, Bool, true, false, ◌&&◌, List, [], ◌∷◌, ◌++◌, leb, ltb, ◌==◌,
  if◌then◌else◌,
}
use tagents.Text.{Text}
pub mod Lines

-- A sequence of bytes.
abbrev pub Bytes : Type 0
Bytes = List ℕ

abbrev pub replacement : ℕ
replacement = 0xfffd

-- Between two characters, or inside one: how many bytes are to come after the next one, the bits so
-- far, and the range of the next byte.
pub data Decoder : Type 0 where
  between : Decoder
  inside : (more bits low high : ℕ) → Decoder

-- A byte at the start of a character.
unfoldable pub begin : ℕ → Text × Decoder
begin b =
    if ltb b 0x80
    then (b ∷ [], between)
    else if leb 0xc2 b && leb b 0xdf
    then ([], inside 0 (b - 0xc0) 0x80 0xbf)
    else if b == 0xe0
    then ([], inside 1 0 0xa0 0xbf)
    else if b == 0xed
    then ([], inside 1 0xd 0x80 0x9f)
    else if leb 0xe1 b && leb b 0xef
    then ([], inside 1 (b - 0xe0) 0x80 0xbf)
    else if b == 0xf0
    then ([], inside 2 0 0x90 0xbf)
    else if leb 0xf1 b && leb b 0xf3
    then ([], inside 2 (b - 0xf0) 0x80 0xbf)
    else if b == 0xf4
    then ([], inside 2 4 0x80 0x8f)
    else (replacement ∷ [], between)

-- The next byte of a character, or the end of a piece that is none.
unfoldable pub feed : Decoder → ℕ → Text × Decoder
unfolding begin
feed between b = begin b
feed (inside more bits low high) b =
    if leb low b && leb b high
    then continued more (bits * 64 + (b - 0x80))
    else (replacement ∷ (begin b).0, (begin b).1)
  where
    continued : ℕ → ℕ → Text × Decoder
    continued zero code = (code ∷ [], between)
    continued (suc more) code = ([], inside more code 0x80 0xbf)

unfoldable pub decode : Decoder → Bytes → Text
unfolding feed
decode between [] = []
decode (inside _ _ _ _) [] = replacement ∷ []
decode d (b ∷ bytes) = (feed d b).0 ++ decode (feed d b).1 bytes

unfoldable pub from_utf8_lossy : Bytes → Text
unfolding decode
from_utf8_lossy bytes = decode between bytes
