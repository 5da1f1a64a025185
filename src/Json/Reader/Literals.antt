-- ===== src/Json/Reader/Literals.antt =====
-- crates/tagents-core/src/json.rs: the lemmas on the characters of a literal and its halves.
use tagents.Prelude.{
  ℕ, suc, ◌+◌, ◌≡◌, refl, sym, ap, ◌∙◌, Bool, true, false, ◌&&◌, ◌||◌, none, some, List, [], ◌∷◌,
  ◌++◌, ltb, arith, append_assoc, append_nil, length, Bool-cases, Option-cases, inl, inr, All, map,
  ◌-◌, ◌≤◌, length-append,
}
use tagents.Text.{Text}
use tagents.Utf16.{
  Units, units, encode, is_high, is_low, is_char, Piece, char, lone, alone, decode_utf16, whole,
  from_utf16,
}
use tagents.Utf16.Laws.{all_units, all_units-decode_utf16}
use tagents.Json.Scan.{
  Literal, chars, coded, push, push_lone, low_half, scalar, add_escape, string_rounds, string_at,
}
use tagents.Json.Writer.{unit_escape}
use tagents.Json.Writer.Quoted.{letter, escape, escapes, pieces_text}
use tagents.Json.Reader.Strings.{
  NoLow, NoLow-escape, code_unit-plain, code_unit-unit_escape, read_piece, read_unit, read-escape,
}

abbrev begins_low : List Piece → Bool
begins_low [] = false
begins_low (char c ∷ ps) = false
begins_low (lone u ∷ ps) = is_low u

-- Pieces of which no two halves make a character.
abbrev IsApart : List Piece → Type 0
IsApart [] = Unit {0}
IsApart (char c ∷ ps) = IsApart ps
IsApart (lone u ∷ ps) =
    (ltb u 0x10000 ≡ true)
    × (is_char u ≡ false)
    × (is_high u ≡ true → begins_low ps ≡ false)
    × IsApart ps

abbrev all_whole : List Piece → Bool
all_whole [] = true
all_whole (char c ∷ ps) = all_whole ps
all_whole (lone u ∷ ps) = false

begins_low-decode_utf16 :
    (v : ℕ) (us : Units) → is_low v ≡ false → begins_low (decode_utf16 (v ∷ us)) ≡ false
unfolding decode_utf16 alone
begins_low-decode_utf16 v [] h = ground arith
begins_low-decode_utf16 v (w ∷ us) h = ground arith

alone-IsApart :
    (u : ℕ) (ps : List Piece)
    → ltb u 0x10000 ≡ true
    → (is_high u ≡ true → begins_low ps ≡ false)
    → IsApart ps
    → IsApart (alone u ∷ ps)
unfolding alone
alone-IsApart u ps h apart rest = elim (Bool-cases (is_high u || is_low u)) [
  | inl half ↦ rw half (h, ground (arith, half), apart, rest)
  | inr other ↦ rw other rest
]

decode_utf16-IsApart : (us : Units) → All (λ u. ltb u 0x10000 ≡ true) us → IsApart (decode_utf16 us)
unfolding decode_utf16
decode_utf16-IsApart [] h = tt
decode_utf16-IsApart (u ∷ []) h = alone-IsApart u [] h.0 (λ _. refl) tt
decode_utf16-IsApart (u ∷ v ∷ us) h = elim (Bool-cases (is_high u && is_low v)) [
  | inl pair ↦ rw pair (decode_utf16-IsApart us h.1.1)
  | inr no_pair ↦ rw no_pair (
      alone-IsApart u (decode_utf16 (v ∷ us)) h.0
        (λ high. begins_low-decode_utf16 v us (ground (arith, no_pair, high)))
        (decode_utf16-IsApart (v ∷ us) h.1))
]

NoLow-pieces_text :
    (ps : List Piece) (t : Text)
    → IsApart ps
    → begins_low ps ≡ false
    → NoLow (pieces_text ps ++ b'"' ∷ t)
unfolding pieces_text
NoLow-pieces_text [] t apart h = ap low_half (code_unit-plain b'"' t refl)
NoLow-pieces_text (char c ∷ ps) t apart h =
    rw (append_assoc (escape c) (pieces_text ps) (b'"' ∷ t)) (NoLow-escape c _)
NoLow-pieces_text (lone u ∷ ps) t apart h =
    rw (append_assoc (unit_escape u) (pieces_text ps) (b'"' ∷ t))
      (ap low_half (code_unit-unit_escape u _ apart.0) ∙ rw h refl)

read_all : Literal → List Piece → Literal
read_all out [] = out
read_all out (p ∷ ps) = read_all (read_piece out p) ps

add_escape-lone :
    (u : ℕ) (t : Text) (out : Literal)
    → ltb u 0x10000 ≡ true
    → is_char u ≡ false
    → add_escape true (scalar u) (unit_escape u ++ t) out ≡ some (push_lone u out)
unfolding add_escape
add_escape-lone u t out h half = rw (half, add_escape, code_unit-unit_escape u t h) refl

read_end :
    (k : ℕ) (exact : Bool) (out : Literal) (t : Text)
    → string_rounds (suc k) exact out (b'"' ∷ t) ≡ some (out, t)
unfolding string_rounds
read_end k exact out t = refl

-- The pieces are read back one after the other, up to the closing quote.
read_pieces :
    (ps : List Piece) (exact : Bool) (out : Literal) (t : Text) (k : ℕ)
    → IsApart ps
    → (exact || all_whole ps) ≡ true
    → string_rounds (length ps + suc k) exact out (pieces_text ps ++ b'"' ∷ t)
      ≡ some (read_all out ps, t)
unfolding pieces_text read_all
read_pieces [] exact out t k apart kept =
    ap (λ n. string_rounds n exact out (b'"' ∷ t)) (omega arith) ∙ read_end k exact out t
read_pieces (char c ∷ ps) exact out t k apart kept =
    ap (λ s. string_rounds (suc (length ps) + suc k) exact out s)
      (append_assoc (escape c) (pieces_text ps) (b'"' ∷ t))
    ∙ ap (λ n. string_rounds n exact out (escape c ++ (pieces_text ps ++ b'"' ∷ t))) (omega arith)
    ∙ read-escape (length ps + suc k) exact out (pieces_text ps ++ b'"' ∷ t) c
    ∙ read_pieces ps exact (push c out) t k apart kept
read_pieces (lone u ∷ ps) false out t k apart kept = absurd (cc)
read_pieces (lone u ∷ ps) true out t k apart kept =
    let rest = pieces_text ps ++ b'"' ∷ t in
    ap (λ s. string_rounds (suc (length ps) + suc k) true out s)
      (append_assoc (unit_escape u) (pieces_text ps) (b'"' ∷ t))
    ∙ ap (λ n. string_rounds n true out (unit_escape u ++ rest)) (omega arith)
    ∙ read_unit (length ps + suc k) true out rest u (lone u) apart.0
        (λ high. NoLow-pieces_text ps t apart.3 (apart.2 high))
        (add_escape-lone u rest out apart.0 apart.1)
    ∙ read_pieces ps true (push_lone u out) t k apart.3 refl

read_all-chars : (s out : Text) → read_all (chars out) (map char s) ≡ chars (out ++ s)
unfolding read_all push
read_all-chars [] out = ap chars (sym (append_nil out))
read_all-chars (c ∷ s) out =
    read_all-chars s (out ++ c ∷ []) ∙ ap chars (append_assoc out (c ∷ []) s)

read_all-coded :
    (ps : List Piece) (us : Units) → read_all (coded us) ps ≡ coded (us ++ all_units ps)
unfolding read_all push push_lone
read_all-coded [] us = ap coded (sym (append_nil us))
read_all-coded (char c ∷ ps) us =
    read_all-coded ps (us ++ encode c) ∙ ap coded (append_assoc us (encode c) (all_units ps))
read_all-coded (lone u ∷ ps) us =
    read_all-coded ps (us ++ u ∷ []) ∙ ap coded (append_assoc us (u ∷ []) (all_units ps))

units-snoc : (s : Text) (c : ℕ) → units (s ++ c ∷ []) ≡ units s ++ encode c
unfolding units
units-snoc [] c = append_nil (encode c)
units-snoc (d ∷ s) c =
    ap (λ t. encode d ++ t) (units-snoc s c) ∙ sym (append_assoc (encode d) (units s) (encode c))

read_all-lone :
    (ps : List Piece) (s : Text)
    → all_whole ps ≡ false
    → read_all (chars s) ps ≡ coded (units s ++ all_units ps)
unfolding read_all push push_lone
read_all-lone [] s h = absurd (cc)
read_all-lone (char c ∷ ps) s h =
    read_all-lone ps (s ++ c ∷ []) h
    ∙ ap (λ t. coded (t ++ all_units ps)) (units-snoc s c)
    ∙ ap coded (append_assoc (units s) (encode c) (all_units ps))
read_all-lone (lone u ∷ ps) s h =
    read_all-coded ps (units s ++ u ∷ [])
    ∙ ap coded (append_assoc (units s) (u ∷ []) (all_units ps))

whole-none : (ps : List Piece) → whole ps ≡ none → all_whole ps ≡ false
unfolding whole
whole-none [] h = absurd (cc)
whole-none (char c ∷ ps) h = whole-none ps (ground (arith, h))
whole-none (lone u ∷ ps) h = refl

map-IsApart : (s : Text) → IsApart (map char s)
map-IsApart [] = tt
map-IsApart (c ∷ s) = map-IsApart s

map-all_whole : (s : Text) → all_whole (map char s) ≡ true
map-all_whole [] = refl
map-all_whole (c ∷ s) = map-all_whole s

pieces_text-map : (s : Text) → pieces_text (map char s) ≡ escapes s
unfolding pieces_text escapes
pieces_text-map [] = refl
pieces_text-map (c ∷ s) = ap (λ t. escape c ++ t) (pieces_text-map s)

escape_pos : (c : ℕ) → 1 ≤ length (escape c)
unfolding escape unit_escape
escape_pos c = elim (Option-cases (letter c)) [
  | inr (e, h) ↦ rw (escape, h) (omega arith)
  | inl h ↦ elim (Bool-cases (ltb c 0x20)) [
    | inl low ↦ rw (escape, h, low) (omega arith)
    | inr high ↦ rw (escape, h, high) (omega arith)
  ]
]

pieces_text-length : (ps : List Piece) → length ps ≤ length (pieces_text ps)
unfolding pieces_text unit_escape
pieces_text-length [] = omega arith
pieces_text-length (char c ∷ ps) =
    omega (arith, length-append (escape c) (pieces_text ps), escape_pos c, pieces_text-length ps)
pieces_text-length (lone u ∷ ps) = omega (arith, pieces_text-length ps)

string_at-pieces_text :
    (exact : Bool) (ps : List Piece) (t : Text)
    → IsApart ps
    → (exact || all_whole ps) ≡ true
    → string_at exact (pieces_text ps ++ b'"' ∷ t) ≡ some (read_all (chars []) ps, t)
unfolding string_at
string_at-pieces_text exact ps t apart kept =
    let text = pieces_text ps ++ b'"' ∷ t in
    let long : suc (length text) ≡ length ps + suc (length text - length ps) =
      omega (arith, length-append (pieces_text ps) (b'"' ∷ t), pieces_text-length ps) in
    ap (λ n. string_rounds n exact (chars []) text) long
    ∙ read_pieces ps exact (chars []) t (length text - length ps) apart kept

-- A literal without halves is read back, whatever is behind its closing quote.
pub string_at-escapes :
    (exact : Bool) (s t : Text) → string_at exact (escapes s ++ b'"' ∷ t) ≡ some (chars s, t)
string_at-escapes exact s t =
    ap (λ r. string_at exact (r ++ b'"' ∷ t)) (sym (pieces_text-map s))
    ∙ string_at-pieces_text exact (map char s) t (map-IsApart s) (ground (arith, map-all_whole s))
    ∙ ap (λ l. some (l, t)) (read_all-chars s [])

-- Code units of which some half has no partner are read back when halves are kept.
pub string_at-units :
    (us : Units) (t : Text)
    → All (λ u. ltb u 0x10000 ≡ true) us
    → from_utf16 us ≡ none
    → string_at true (pieces_text (decode_utf16 us) ++ b'"' ∷ t) ≡ some (coded us, t)
unfolding from_utf16 units
string_at-units us t h lone_half =
    let ps = decode_utf16 us in
    string_at-pieces_text true ps t (decode_utf16-IsApart us h) refl
    ∙ ap (λ l. some (l, t))
        (read_all-lone ps [] (whole-none ps lone_half) ∙ ap coded (all_units-decode_utf16 us h))
