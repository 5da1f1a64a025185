-- ===== src/Json/Reader/Ends.antt =====
-- crates/tagents-core/src/json.rs: the proofs on the fuel of the parser.
use tagents.Prelude.{
  ℕ, zero, suc, ◌<◌, ◌≤◌, ◌≡◌, ◌≢◌, refl, true, false, ◌||◌, Option, none, some, List, [], ◌∷◌,
  ◌==◌, arith, if◌then◌else◌, length, Bool-cases, inl, inr,
}
use tagents.Text.{Text, word, strip_prefix, is_ascii_digit, is_empty}
use tagents.Json.{F64, Value, array, object, keyed, no_items, no_members, push_item, push_member}
use tagents.Json.Scan.{Literal, chars, coded, skip_space, number_at, string_at}
use tagents.Json.Scan.Shorter.{
  skip_space-le, strip_prefix-le, Within, Within-mono, number_at-Within, string_at-Within,
}
use tagents.Json.Reader.{
  Parser, at, Open, in_array, in_object, in_keyed, kept_key, expect, key_at, Started, complete,
  opened, array_at, object_at, literal_at, number_value, string_value, value_at, Handed, finished,
  more, after_value, next_key, hand, after_hand, after_start, Outcome, read, refused, exhausted,
  next_value, document, parse,
}

-- The parser that is left of a start, a key or a hand-over has no more than `n` characters.
abbrev StartWithin : ℕ → Option Started → Type 0
StartWithin n none = Unit {0}
StartWithin n (some (opened container p)) = length p.rest ≤ n
StartWithin n (some (complete v p)) = length p.rest ≤ n

abbrev KeyWithin : ℕ → Option (Literal × Parser) → Type 0
KeyWithin n none = Unit {0}
KeyWithin n (some (key, p)) = length p.rest ≤ n

abbrev HandWithin : ℕ → Option Handed → Type 0
HandWithin n none = Unit {0}
HandWithin n (some (finished v p)) = Unit {0}
HandWithin n (some (more stack p)) = length p.rest ≤ n

kept_key-rest : (p : Parser) (key : Literal) → (kept_key p key).1.rest ≡ p.rest
unfolding kept_key
kept_key-rest p (chars key) = refl
kept_key-rest p (coded key) = ground arith

expect-le : (b : ℕ) (s : Text) {r : Text} → expect b s ≡ some r → length r ≤ length s
expect-le b [] h = absurd (cc)
expect-le b (c ∷ s) h = ground arith

key_at-Within : (p : Parser) → KeyWithin (length p.rest) (key_at p)
unfolding key_at
key_at-Within p = opening (expect b'"' p.rest) refl
  where
    colon :
        (key : Literal) (s : Text) (o : Option Text)
        → expect b':' (skip_space s) ≡ o
        → length s ≤ length p.rest
        → KeyWithin (length p.rest) (elim o [
          | none ↦ none
          | some s2 ↦ some ((kept_key p key).0, record (kept_key p key).1 { rest = s2 })
        ])
    colon key s none e h = tt
    colon key s (some s2) e h = omega (arith, h, expect-le b':' (skip_space s) e, skip_space-le s)

    literal :
        (o : Option (Literal × Text))
        → Within (length p.rest) o
        → KeyWithin (length p.rest) (elim o [
          | none ↦ none
          | some (key, s1) ↦ elim (expect b':' (skip_space s1)) [
            | none ↦ none
            | some s2 ↦ some ((kept_key p key).0, record (kept_key p key).1 { rest = s2 })
          ]
        ])
    literal none h = tt
    literal (some (key, s)) h = colon key s (expect b':' (skip_space s)) refl h

    opening :
        (o : Option Text)
        → expect b'"' p.rest ≡ o
        → KeyWithin (length p.rest) (elim o [
          | none ↦ none
          | some s ↦ elim (string_at p.exact s) [
            | none ↦ none
            | some (key, s1) ↦ elim (expect b':' (skip_space s1)) [
              | none ↦ none
              | some s2 ↦ some ((kept_key p key).0, record (kept_key p key).1 { rest = s2 })
            ]
          ]
        ])
    opening none e = tt
    opening (some s) e = literal (string_at p.exact s) (
        Within-mono (length s) (length p.rest) (string_at p.exact s) (expect-le b'"' p.rest e)
          (string_at-Within p.exact s))

StartWithin-mono : (n m : ℕ) (o : Option Started) → n ≤ m → StartWithin n o → StartWithin m o
StartWithin-mono n m none le h = tt
StartWithin-mono n m (some (opened container p)) le h = omega (arith, le, h)
StartWithin-mono n m (some (complete v p)) le h = omega (arith, le, h)

array_at-Within : (p : Parser) (s : Text) → StartWithin (length s) (array_at p s)
unfolding array_at
array_at-Within p [] = tt
array_at-Within p (c ∷ s) = elim (Bool-cases (c == b']')) [
  | inl close ↦ rw close (omega arith)
  | inr other ↦ rw other (omega arith)
]

key_started :
    (n : ℕ) (o : Option (Literal × Parser)) (f : Literal → Open)
    → KeyWithin n o
    → StartWithin n (elim o [ none ↦ none | some (key, after) ↦ some (opened (f key) after) ])
key_started n none f h = tt
key_started n (some (key, p)) f h = h

object_at-Within : (p : Parser) (s : Text) → StartWithin (length s) (object_at p s)
unfolding object_at
object_at-Within p [] = tt
object_at-Within p (c ∷ s) = elim (Bool-cases (c == b'}')) [
  | inl close ↦ rw close (omega arith)
  | inr other ↦ rw other (
      key_started (length (c ∷ s)) (key_at (at p (c ∷ s)))
        (tagents.Json.Reader.open_object no_members) (key_at-Within (at p (c ∷ s))))
]

completed :
    {A : Type 0} (n : ℕ) (p : Parser) (o : Option (A × Text)) (f : A → Value)
    → Within n o
    → StartWithin n (elim o [ none ↦ none | some (a, rest) ↦ some (complete (f a) (at p rest)) ])
completed n p none f h = tt
completed n p (some (a, rest)) f h = h

parsed_Within :
    (n : ℕ) (p : Parser) (rest : Text) (o : Option F64)
    → length rest ≤ n
    → StartWithin n (elim o [ none ↦ none | some x ↦ some (complete (Value.number x) (at p rest)) ])
parsed_Within n p rest none h = tt
parsed_Within n p rest (some x) h = h

number_Within :
    (parse_f64 : Text → Option F64) (n : ℕ) (p : Parser) (o : Option (Text × Text))
    → Within n o
    → StartWithin n (elim o [
      | none ↦ none
      | some (spelled, rest) ↦ elim (parse_f64 spelled) [
        | none ↦ none
        | some x ↦ some (complete (Value.number x) (at p rest))
      ]
    ])
number_Within parse_f64 n p none h = tt
number_Within parse_f64 n p (some (spelled, rest)) h = parsed_Within n p rest (parse_f64 spelled) h

strip_prefix-le_tail :
    (d c : ℕ) (w s : Text) {r : Text} → strip_prefix (d ∷ w) (c ∷ s) ≡ some r → length r ≤ length s
unfolding strip_prefix
strip_prefix-le_tail d c w s {r} h = ground (arith, strip_prefix-le w s {r = r})

literal_at-Within :
    (p : Parser) (w : Text) (v : Value) (d c : ℕ) (s : Text)
    → StartWithin (length s) (literal_at p (d ∷ w) v (c ∷ s))
unfolding literal_at
literal_at-Within p w v d c s = behind (strip_prefix (d ∷ w) (c ∷ s)) refl
  where
    behind :
        (o : Option Text)
        → strip_prefix (d ∷ w) (c ∷ s) ≡ o
        → StartWithin
            (length s)
            (elim o [ none ↦ none | some rest ↦ some (complete v (at p rest)) ])
    behind none e = tt
    behind (some rest) e = strip_prefix-le_tail d c w s e

after_value-Within :
    (n close : ℕ) (s : Text) (comma closed : Text → Option Handed)
    → length s ≤ n
    → ((t : Text) → length t ≤ n → HandWithin n (comma t))
    → ((t : Text) → length t ≤ n → HandWithin n (closed t))
    → HandWithin n (after_value close s comma closed)
unfolding after_value
after_value-Within n close [] comma closed le hm hc = tt
after_value-Within n close (c ∷ s) comma closed le hm hc = elim (Bool-cases (c == b',')) [
  | inl next ↦ rw next (hm s (omega (arith, le)))
  | inr other ↦ rw other (elim (Bool-cases (c == close)) [
    | inl end ↦ rw end (hc s (omega (arith, le)))
    | inr bad ↦ rw bad tt
  ])
]

next_key-Within :
    (n : ℕ) (f : Literal → Open) (stack : List Open) (o : Option (Literal × Parser))
    → KeyWithin n o
    → HandWithin n (next_key f stack o)
unfolding next_key
next_key-Within n f stack none h = tt
next_key-Within n f stack (some (key, p)) h = h

-- A key behind white space, in what is left behind a value.
spaced_key-Within :
    (n : ℕ) (f : Literal → Open) (stack : List Open) (p : Parser) (s : Text)
    → length s ≤ n
    → HandWithin n (next_key f stack (key_at (at p (skip_space s))))
spaced_key-Within n f stack p s le =
    next_key-Within n f stack (key_at (at p (skip_space s)))
      (wider (key_at (at p (skip_space s))) (key_at-Within (at p (skip_space s))))
  where
    wider : (o : Option (Literal × Parser)) → KeyWithin (length (skip_space s)) o → KeyWithin n o
    wider none h = tt
    wider (some (key, q)) h = omega (arith, h, le, skip_space-le s)

-- With a bound on what is left before.
hand-Within :
    (n : ℕ) (v : Value) (stack : List Open) (p : Parser)
    → length p.rest ≤ n
    → HandWithin n (hand v stack p)
unfolding hand
hand-Within n v [] p le = elim (Bool-cases (is_empty (skip_space p.rest))) [
  | inl end ↦ rw end tt
  | inr other ↦ rw other tt
]
hand-Within n v (in_array vs ∷ stack) p le =
    after_value-Within n b']' (skip_space p.rest) _ _ (omega (arith, le, skip_space-le p.rest))
      (λ t h. h) (λ t h. hand-Within n (array (push_item v vs)) stack (at p t) h)
hand-Within n v (in_object ms key ∷ stack) p le =
    after_value-Within n b'}' (skip_space p.rest) _ _ (omega (arith, le, skip_space-le p.rest))
      (λ t h.
        spaced_key-Within n (tagents.Json.Reader.open_object (push_member key v ms)) stack p t h)
      (λ t h. hand-Within n (object (push_member key v ms)) stack (at p t) h)
hand-Within n v (in_keyed ms key ∷ stack) p le =
    after_value-Within n b'}' (skip_space p.rest) _ _ (omega (arith, le, skip_space-le p.rest))
      (λ t h.
        spaced_key-Within n
          (λ next. in_keyed (push_member key v ms) (tagents.Json.Scan.into_units next)) stack p t h)
      (λ t h. hand-Within n (keyed (push_member key v ms)) stack (at p t) h)

-- Fewer than `n`.
abbrev StartShorter : ℕ → Option Started → Type 0
StartShorter n none = Unit {0}
StartShorter n (some (opened container p)) = length p.rest < n
StartShorter n (some (complete v p)) = length p.rest < n

shorter : (m n : ℕ) (o : Option Started) → m < n → StartWithin m o → StartShorter n o
shorter m n none lt h = tt
shorter m n (some (opened container p)) lt h = omega (arith, lt, h)
shorter m n (some (complete v p)) lt h = omega (arith, lt, h)

handed_on :
    (n : ℕ) (next : List Open → Parser → Outcome)
    → ((stack : List Open) (p : Parser) → length p.rest < n → next stack p ≢ exhausted)
    → (m : ℕ) (o : Option Handed) → m < n
    → HandWithin m o
    → after_hand next o ≢ exhausted
unfolding after_hand
handed_on n next ends m none lt h = λ e. cc
handed_on n next ends m (some (finished v p)) lt h = λ e. cc
handed_on n next ends m (some (more stack p)) lt h = ends stack p (omega (arith, lt, h))

-- If the next round ends on fewer characters, so does what follows a start.
started :
    (n : ℕ) (next : List Open → Parser → Outcome)
    → ((stack : List Open) (p : Parser) → length p.rest < n → next stack p ≢ exhausted)
    → (stack : List Open) (o : Option Started) → StartShorter n o
    → after_start next stack o ≢ exhausted
unfolding after_start
started n next ends stack none h = λ e. cc
started n next ends stack (some (opened container p)) h = ends (container ∷ stack) p h
started n next ends stack (some (complete v p)) h =
    handed_on n next ends (length p.rest) (hand v stack p) h
      (hand-Within (length p.rest) v stack p (omega arith))

module _ (parse_f64 : Text → Option F64) where
  scalar_Within :
      (p : Parser) (c : ℕ) (s : Text)
      → StartWithin (length s) (
          if c == b't'
          then literal_at p (word "true") (Value.bool true) (c ∷ s)
          else if c == b'f'
          then literal_at p (word "false") (Value.bool false) (c ∷ s)
          else if c == b'n'
          then literal_at p (word "null") Value.null (c ∷ s)
          else if c == b'-' || is_ascii_digit c
          then number_value parse_f64 p (c ∷ s)
          else none)
  unfolding word number_value
  scalar_Within p c s = elim (Bool-cases (c == b't')) [
    | inl m ↦ rw m (literal_at-Within p (b'r' ∷ b'u' ∷ b'e' ∷ []) (Value.bool true) b't' c s)
    | inr n4 ↦ rw n4 (elim (Bool-cases (c == b'f')) [
      | inl m ↦
          rw m (literal_at-Within p (b'a' ∷ b'l' ∷ b's' ∷ b'e' ∷ []) (Value.bool false) b'f' c s)
      | inr n5 ↦ rw n5 (elim (Bool-cases (c == b'n')) [
        | inl m ↦ rw m (literal_at-Within p (b'u' ∷ b'l' ∷ b'l' ∷ []) Value.null b'n' c s)
        | inr n6 ↦ rw n6 (elim (Bool-cases (c == b'-' || is_ascii_digit c)) [
          | inl m ↦
              rw m (number_Within parse_f64 (length s) p (number_at (c ∷ s)) (number_at-Within c s))
          | inr n7 ↦ rw n7 tt
        ])
      ])
    ])
  ]

  -- The start of a value takes a character at least.
  value_at-Within :
      (p : Parser) (c : ℕ) (s : Text) → StartWithin (length s) (value_at parse_f64 p (c ∷ s))
  unfolding value_at word string_value number_value
  value_at-Within p c s = elim (Bool-cases (c == b'[')) [
    | inl bracket ↦ rw bracket (
        StartWithin-mono (length (skip_space s)) (length s) (array_at p (skip_space s))
          (skip_space-le s) (array_at-Within p (skip_space s)))
    | inr n1 ↦ rw n1 (elim (Bool-cases (c == b'{')) [
      | inl brace ↦ rw brace (
          StartWithin-mono (length (skip_space s)) (length s) (object_at p (skip_space s))
            (skip_space-le s) (object_at-Within p (skip_space s)))
      | inr n2 ↦ rw n2 (elim (Bool-cases (c == b'"')) [
        | inl quote ↦ rw quote (
            completed (length s) p (string_at p.exact s) tagents.Json.Scan.into_value
              (string_at-Within p.exact s))
        | inr n3 ↦ rw n3 (scalar_Within p c s)
      ])
    ])
  ]

  -- A round that starts leaves fewer characters.
  next_Within :
      (p : Parser) (s : Text)
      → length s ≤ length p.rest
      → StartShorter (length p.rest) (next_value parse_f64 (at p s))
  unfolding value_at
  next_Within p [] le = tt
  next_Within p (c ∷ s) le =
      shorter (length s) (length p.rest) (value_at parse_f64 (at p (c ∷ s)) (c ∷ s))
        (omega (arith, le)) (value_at-Within (at p (c ∷ s)) c s)

  -- With more rounds than characters left, the parser's loop over values ends by reading a document or by
  -- refusing the text: its fuel never runs out, whatever the text and the containers that are open.
  pub document-ne-exhausted :
      (fuel : ℕ) (stack : List Open) (p : Parser)
      → length p.rest < fuel
      → document parse_f64 fuel stack p ≢ exhausted
  unfolding document
  document-ne-exhausted zero stack p h = absurd (omega (arith, h))
  document-ne-exhausted (suc fuel) stack p h =
      started (length p.rest) (document parse_f64 fuel)
        (λ stack' q le. document-ne-exhausted fuel stack' q (omega (arith, h, le))) stack
        (next_value parse_f64 (at p (skip_space p.rest)))
        (next_Within p (skip_space p.rest) (skip_space-le p.rest))
