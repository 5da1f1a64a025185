-- ===== src/Json/Reader/Rounds.antt =====
-- crates/tagents-core/src/json.rs: the lemmas on the rounds of the parser's loop and on its containers.
use tagents.Prelude.{ℕ, zero, suc, ◌+◌, ◌≡◌, refl, Option, some, List, ◌∷◌}
use tagents.Text.{Text}
use tagents.Json.{
  F64, Value, array, object, keyed, Items, no_items, item, Members, no_members, member, push_item,
  push_member,
}
use tagents.Json.Scan.{chars, skip_space}
use tagents.Json.Reader.{
  Parser, at, key_at, complete, opened, Open, in_array, in_object, open_object, value_at, hand,
  Outcome, after_hand, next_key, document,
}

-- One round for each value.
unfoldable mutual
  pub turns : Value → ℕ
  turns (array vs) = suc (turns_items vs)
  turns (object ms) = suc (turns_members ms)
  turns (keyed ms) = suc (turns_members ms)
  turns _ = 1

  pub turns_items : Items → ℕ
  turns_items no_items = 0
  turns_items (item v vs) = turns v + turns_items vs

  pub turns_members : Members → ℕ
  turns_members no_members = 0
  turns_members (member k v ms) = turns v + turns_members ms

module _ (parse_f64 : Text → Option F64) where
  -- The loop behind a complete value.
  abbrev pub handed : ℕ → Value → List Open → Parser → Outcome
  handed fuel v stack p = after_hand (document parse_f64 fuel) (hand v stack p)

  -- A round that starts with a value that is complete at once.
  pub round_complete :
      (fuel : ℕ) (v : Value) (stack : List Open) (p : Parser) (s rest : Text)
      → skip_space s ≡ s
      → value_at parse_f64 (at p s) s ≡ some (complete v (at p rest))
      → document parse_f64 (suc fuel) stack (at p s) ≡ handed fuel v stack (at p rest)
  unfolding document
  round_complete fuel v stack p s rest skips reads = rw (document, skips, reads) refl

  pub round_opened :
      (fuel : ℕ) (container : Open) (stack : List Open) (p q : Parser) (s : Text)
      → skip_space s ≡ s
      → value_at parse_f64 (at p s) s ≡ some (opened container q)
      → document parse_f64 (suc fuel) stack (at p s) ≡ document parse_f64 fuel (container ∷ stack) q
  unfolding document
  round_opened fuel container stack p q s skips reads = rw (document, skips, reads) refl

  -- White space before a value.
  pub document-skip :
      (fuel : ℕ) (stack : List Open) (p : Parser) (s t : Text)
      → skip_space s ≡ skip_space t
      → document parse_f64 fuel stack (at p s) ≡ document parse_f64 fuel stack (at p t)
  unfolding document
  document-skip zero stack p s t h = refl
  document-skip (suc fuel) stack p s t h = rw (document, h) refl

  -- A complete value in an array: the next one starts, or the array is complete.
  pub next_item :
      (fuel : ℕ) (v : Value) (vs : Items) (stack : List Open) (p : Parser) (s t : Text)
      → skip_space s ≡ b',' ∷ t
      → handed fuel v (in_array vs ∷ stack) (at p s)
        ≡ document parse_f64 fuel (in_array (push_item v vs) ∷ stack) (at p t)
  unfolding hand document after_hand
  next_item fuel v vs stack p s t h = rw (hand, h) refl

  pub last_item :
      (fuel : ℕ) (v : Value) (vs : Items) (stack : List Open) (p : Parser) (s t : Text)
      → skip_space s ≡ b']' ∷ t
      → handed fuel v (in_array vs ∷ stack) (at p s)
        ≡ handed fuel (array (push_item v vs)) stack (at p t)
  unfolding hand document after_hand
  last_item fuel v vs stack p s t h = rw (hand, h) refl

  -- A complete value in an object: the next key is read, or the object is complete.
  pub next_pair :
      (fuel : ℕ) (v : Value) (ms : Members) (key next : Text) (stack : List Open) (p q : Parser)
      (s t : Text)
      → skip_space s ≡ b',' ∷ t
      → key_at (at p (skip_space t)) ≡ some (chars next, q)
      → handed fuel v (in_object ms key ∷ stack) (at p s)
        ≡ document parse_f64 fuel (in_object (push_member key v ms) next ∷ stack) q
  unfolding hand open_object document after_hand
  next_pair fuel v ms key next stack p q s t h k = rw (hand, h) (rw (next_key, k) refl)

  pub last_pair :
      (fuel : ℕ) (v : Value) (ms : Members) (key : Text) (stack : List Open) (p : Parser)
      (s t : Text)
      → skip_space s ≡ b'}' ∷ t
      → handed fuel v (in_object ms key ∷ stack) (at p s)
        ≡ handed fuel (object (push_member key v ms)) stack (at p t)
  unfolding hand document after_hand
  last_pair fuel v ms key stack p s t h = rw (hand, h) refl
