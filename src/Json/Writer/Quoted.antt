-- ===== src/Json/Writer/Quoted.antt =====
-- crates/tagents-core/src/json.rs: the lemmas on the text of a string, a character at a time.
use tagents.Prelude.{
  ℕ, ◌≡◌, refl, sym, ap, ◌∙◌, ◌||◌, Option, none, some, List, [], ◌∷◌, ◌++◌, ltb, ◌==◌,
  if◌then◌else◌, append_assoc, append_nil,
}
use tagents.Text.{Text}
use tagents.Utf16.{Units, Piece, char, lone, decode_utf16}
use tagents.Json.Writer.{Printing, unit_escape, between_quotes, quote_pieces, quote_units}

-- The letter that stands behind the backslash in the escape of a character.
unfoldable pub letter : ℕ → Option ℕ
letter c =
    if c == b'"' || c == b'\\'
    then some c
    else if c == 0x8
    then some b'b'
    else if c == 0x9
    then some b't'
    else if c == 0xa
    then some b'n'
    else if c == 0xc
    then some b'f'
    else if c == 0xd
    then some b'r'
    else none

-- `JSON.stringify` of one character.
unfoldable pub escape : ℕ → Text
unfolding letter
escape c = elim (letter c) [
  | some e ↦ b'\\' ∷ e ∷ []
  | none ↦ if ltb c 0x20 then unit_escape c else c ∷ []
]

unfoldable pub escapes : Text → Text
unfolding escape
escapes [] = []
escapes (c ∷ s) = escape c ++ escapes s

-- What serde_json's documentation promises of the text of a string.
pub record IsQuoting (quote : Text → Text) : Type 0 where
  pub escaped : (s : Text) → quote s ≡ b'"' ∷ (escapes s ++ b'"' ∷ [])

escapes-snoc : (s : Text) (c : ℕ) → escapes (s ++ c ∷ []) ≡ escapes s ++ escape c
unfolding escapes
escapes-snoc [] c = append_nil (escape c)
escapes-snoc (d ∷ s) c =
    ap (λ t. escape d ++ t) (escapes-snoc s c)
    ∙ sym (append_assoc (escape d) (escapes s) (escape c))

without_quotes : (s : Text) → between_quotes (b'"' ∷ (s ++ b'"' ∷ [])) ≡ s
unfolding between_quotes
without_quotes [] = refl
without_quotes (c ∷ []) = refl
without_quotes (c ∷ d ∷ s) = ap (λ t. c ∷ t) (without_quotes (d ∷ s))

unfoldable pub pieces_text : List Piece → Text
unfolding escape
pieces_text [] = []
pieces_text (char c ∷ ps) = escape c ++ pieces_text ps
pieces_text (lone u ∷ ps) = unit_escape u ++ pieces_text ps

module _ (std : Printing) (quoting : IsQuoting std.quote) where
  quoted_run : (s : Text) → between_quotes (std.quote s) ≡ escapes s
  quoted_run s = ap between_quotes (quoting.escaped s) ∙ without_quotes (escapes s)

  quote_pieces-text :
      (ps : List Piece) (run : Text) → quote_pieces std run ps ≡ escapes run ++ pieces_text ps
  unfolding quote_pieces pieces_text escapes
  quote_pieces-text [] run = quoted_run run ∙ sym (append_nil (escapes run))
  quote_pieces-text (char c ∷ ps) run =
      quote_pieces-text ps (run ++ c ∷ [])
      ∙ ap (λ t. t ++ pieces_text ps) (escapes-snoc run c)
      ∙ append_assoc (escapes run) (escape c) (pieces_text ps)
  quote_pieces-text (lone u ∷ ps) run =
      ap (λ t. t ++ (unit_escape u ++ quote_pieces std [] ps)) (quoted_run run)
      ∙ ap (λ t. escapes run ++ (unit_escape u ++ t)) (quote_pieces-text ps [])

  -- The text of code units is that of their pieces, one after the other.
  pub quote_units-text :
      (us : Units) → quote_units std us ≡ b'"' ∷ (pieces_text (decode_utf16 us) ++ b'"' ∷ [])
  unfolding quote_units escapes
  quote_units-text us = ap (λ t. b'"' ∷ (t ++ b'"' ∷ [])) (quote_pieces-text (decode_utf16 us) [])
