-- ===== src/Json/Order/Laws.antt =====
-- crates/tagents-core/src/json.rs, `js_order`: the lemmas on the order of the members.
use tagents.Prelude.{ℕ, ◌≡◌, refl, ap, ◌∙◌, Option, List, [], ◌∷◌, Bool-cases, inl, inr}
use tagents.Text.{text_eq}
use tagents.Json.{Value, Entry}
use tagents.Json.Order.{place, place_all, rank_le, insert_entry, sort_entries, js_order}

abbrev pub over : (Value → Value) → List Entry → List Entry
over f [] = []
over f ((k, v) ∷ es) = (k, f v) ∷ over f es

place-over :
    (f : Value → Value) (k : List ℕ) (v : Value) (slots : List Entry)
    → place k (f v) (over f slots) ≡ over f (place k v slots)
unfolding place
place-over f k v [] = refl
place-over f k v ((j, w) ∷ slots) = elim (Bool-cases (text_eq j k)) [
  | inl same ↦ rw same refl
  | inr other ↦ rw (other, place-over f k v slots) refl
]

place_all-over :
    (f : Value → Value) (slots ms : List Entry)
    → place_all (over f slots) (over f ms) ≡ over f (place_all slots ms)
unfolding place_all
place_all-over f slots [] = refl
place_all-over f slots ((k, v) ∷ ms) =
    ap (λ s. place_all s (over f ms)) (place-over f k v slots)
    ∙ place_all-over f (place k v slots) ms

module _ (index : List ℕ → Option ℕ) where
  insert-over :
      (f : Value → Value) (k : List ℕ) (v : Value) (es : List Entry)
      → insert_entry index (k, f v) (over f es) ≡ over f (insert_entry index (k, v) es)
  unfolding insert_entry
  insert-over f k v [] = refl
  insert-over f k v ((j, w) ∷ es) = elim (Bool-cases (rank_le (index k) (index j))) [
    | inl first ↦ rw first refl
    | inr later ↦ rw (later, insert-over f k v es) refl
  ]

  sort-over :
      (f : Value → Value) (es : List Entry)
      → sort_entries index (over f es) ≡ over f (sort_entries index es)
  unfolding sort_entries
  sort-over f [] = refl
  sort-over f ((k, v) ∷ es) =
      ap (insert_entry index (k, f v)) (sort-over f es) ∙ insert-over f k v (sort_entries index es)

  pub js_order-over :
      (f : Value → Value) (es : List Entry)
      → js_order index (over f es) ≡ over f (js_order index es)
  unfolding js_order
  js_order-over f es =
      ap (sort_entries index) (place_all-over f [] es) ∙ sort-over f (place_all [] es)

-- What holds of the values.
abbrev pub AllValues {ℓ} : (Value → Type ℓ) → List Entry → Type ℓ
AllValues P [] = Unit
AllValues P ((k, v) ∷ es) = P v × AllValues P es

module _ {ℓ} (P : Value → Type ℓ) where
  place-All :
      (k : List ℕ) (v : Value) (slots : List Entry)
      → P v
      → AllValues P slots
      → AllValues P (place k v slots)
  unfolding place
  place-All k v [] here hs = (here, hs)
  place-All k v ((j, w) ∷ slots) here hs = elim (Bool-cases (text_eq j k)) [
    | inl same ↦ rw same (here, hs.1)
    | inr other ↦ rw other (hs.0, place-All k v slots here hs.1)
  ]

  place_all-All :
      (slots ms : List Entry)
      → AllValues P slots
      → AllValues P ms
      → AllValues P (place_all slots ms)
  unfolding place_all
  place_all-All slots [] hs hm = hs
  place_all-All slots ((k, v) ∷ ms) hs hm =
      place_all-All (place k v slots) ms (place-All k v slots hm.0 hs) hm.1

  insert-All :
      (index : List ℕ → Option ℕ) (e : Entry) (es : List Entry)
      → P e.1
      → AllValues P es
      → AllValues P (insert_entry index e es)
  unfolding insert_entry
  insert-All index e [] here hs = (here, hs)
  insert-All index e ((j, w) ∷ es) here hs = elim (Bool-cases (rank_le (index e.0) (index j))) [
    | inl first ↦ rw first (here, hs)
    | inr later ↦ rw later (hs.0, insert-All index e es here hs.1)
  ]

  sort-All :
      (index : List ℕ → Option ℕ) (es : List Entry)
      → AllValues P es
      → AllValues P (sort_entries index es)
  unfolding sort_entries
  sort-All index [] hs = hs
  sort-All index ((k, v) ∷ es) hs =
      insert-All index (k, v) (sort_entries index es) hs.0 (sort-All index es hs.1)

  pub js_order-All :
      (index : List ℕ → Option ℕ) (es : List Entry)
      → AllValues P es
      → AllValues P (js_order index es)
  unfolding js_order
  js_order-All index es hs = sort-All index (place_all [] es) (place_all-All [] es tt hs)
