-- ===== src/Json/Order/Keys.antt =====
-- crates/tagents-core/src/json.rs, `js_order`: the proofs on the keys and the values in the order of the members.
use tagents.Prelude.{
  ℕ, ◌≡◌, refl, sym, ap, ◌∙◌, Bool, true, false, ◌||◌, Option, none, some, List, [], ◌∷◌, arith,
  All, Bool-cases, Option-cases, inl, inr, if◌then◌else◌,
}
use tagents.Text.{Text, text_eq, text_eq_iff}
use tagents.Json.{Value, object, Members, no_members, member, Entry, entries_of, find_last, get}
use tagents.Json.Order.{place, place_all, rank_le, insert_entry, sort_entries, js_order}
use tagents.Json.Writer.Shown.{members_of, entries_of-members_of}

abbrev has : Text → List Entry → Bool
has j [] = false
has j ((k, v) ∷ es) = text_eq k j || has j es

-- No key stands twice.
abbrev pub IsUnique : List Entry → Type 0
IsUnique [] = Unit {0}
IsUnique ((k, v) ∷ es) = (has k es ≡ false) × IsUnique es

abbrev lookup : Text → List Entry → Option Value
lookup j [] = none
lookup j ((k, v) ∷ es) = if text_eq k j then some v else lookup j es

abbrev last_value : Text → List Entry → Option Value
last_value j [] = none
last_value j ((k, v) ∷ es) = elim (last_value j es) [
  | some w ↦ some w
  | none ↦ if text_eq k j then some v else none
]

abbrev or_else : Option Value → Option Value → Option Value
or_else (some v) o = some v
or_else none o = o

has-place :
    (j k : Text) (v : Value) (slots : List Entry)
    → has j (place k v slots) ≡ (text_eq k j || has j slots)
unfolding place
has-place j k v [] = refl
has-place j k v ((i, w) ∷ slots) =
    ground (arith, has-place j k v slots, text_eq_iff i k, text_eq_iff i j, text_eq_iff k j)

lookup-place :
    (j k : Text) (v : Value) (slots : List Entry)
    → lookup j (place k v slots) ≡ (if text_eq k j then some v else lookup j slots)
unfolding place
lookup-place j k v [] = refl
lookup-place j k v ((i, w) ∷ slots) =
    ground (arith, lookup-place j k v slots, text_eq_iff i k, text_eq_iff i j, text_eq_iff k j)

place-IsUnique :
    (k : Text) (v : Value) (slots : List Entry) → IsUnique slots → IsUnique (place k v slots)
unfolding place
place-IsUnique k v [] h = (refl, tt)
place-IsUnique k v ((i, w) ∷ slots) h = elim (Bool-cases (text_eq i k)) [
  | inl same ↦ rw same h
  | inr other ↦ rw other (
    (has-place i k v slots ∙ ground (arith, h, other, text_eq_iff i k, text_eq_iff k i)),
    place-IsUnique k v slots h.1,
  )
]

place_all-IsUnique : (slots ms : List Entry) → IsUnique slots → IsUnique (place_all slots ms)
unfolding place_all
place_all-IsUnique slots [] h = h
place_all-IsUnique slots ((k, v) ∷ ms) h =
    place_all-IsUnique (place k v slots) ms (place-IsUnique k v slots h)

lookup-place_all :
    (j : Text) (slots ms : List Entry)
    → lookup j (place_all slots ms) ≡ or_else (last_value j ms) (lookup j slots)
unfolding place_all
lookup-place_all j slots [] = refl
lookup-place_all j slots ((k, v) ∷ ms) =
    ground (arith, lookup-place_all j (place k v slots) ms, lookup-place j k v slots)

module _ (index : List ℕ → Option ℕ) where
  has-insert :
      (j : Text) (e : Entry) (es : List Entry)
      → has j (insert_entry index e es) ≡ (text_eq e.0 j || has j es)
  unfolding insert_entry
  has-insert j e [] = refl
  has-insert j e ((i, w) ∷ es) = ground (arith, has-insert j e es)

  insert-IsUnique :
      (e : Entry) (es : List Entry)
      → has e.0 es ≡ false
      → IsUnique es
      → IsUnique (insert_entry index e es)
  unfolding insert_entry
  insert-IsUnique e [] new h = (refl, tt)
  insert-IsUnique e ((i, w) ∷ es) new h = elim (Bool-cases (rank_le (index e.0) (index i))) [
    | inl first ↦ rw first (new, h)
    | inr later ↦ rw later (
      (has-insert i e es ∙ ground (arith, new, h, text_eq_iff e.0 i, text_eq_iff i e.0)),
      insert-IsUnique e es (ground (arith, new)) h.1,
    )
  ]

  lookup-insert :
      (j : Text) (e : Entry) (es : List Entry)
      → has e.0 es ≡ false
      → lookup j (insert_entry index e es) ≡ (if text_eq e.0 j then some e.1 else lookup j es)
  unfolding insert_entry
  lookup-insert j e [] new = refl
  lookup-insert j e ((i, w) ∷ es) new =
      ground (arith, lookup-insert j e es, text_eq_iff e.0 j, text_eq_iff i j, text_eq_iff i e.0)

  has-sort : (j : Text) (es : List Entry) → has j (sort_entries index es) ≡ has j es
  unfolding sort_entries
  has-sort j [] = refl
  has-sort j ((k, v) ∷ es) =
      has-insert j (k, v) (sort_entries index es) ∙ ap (λ b. text_eq k j || b) (has-sort j es)

  sort-IsUnique : (es : List Entry) → IsUnique es → IsUnique (sort_entries index es)
  unfolding sort_entries
  sort-IsUnique [] h = tt
  sort-IsUnique ((k, v) ∷ es) h =
      insert-IsUnique (k, v) (sort_entries index es) (has-sort k es ∙ h.0) (sort-IsUnique es h.1)

  lookup-sort :
      (j : Text) (es : List Entry) → IsUnique es → lookup j (sort_entries index es) ≡ lookup j es
  unfolding sort_entries
  lookup-sort j [] h = refl
  lookup-sort j ((k, v) ∷ es) h =
      lookup-insert j (k, v) (sort_entries index es) (has-sort k es ∙ h.0)
      ∙ ap (λ o. if text_eq k j then some v else o) (lookup-sort j es h.1)

  -- Each key is not above the keys behind it.
  abbrev pub IsSorted : List Entry → Type 0
  IsSorted [] = Unit {0}
  IsSorted ((k, v) ∷ es) = All (λ e. rank_le (index k) (index e.0) ≡ true) es × IsSorted es

  insert-All_le :
      (k : Text) (e : Entry) (es : List Entry)
      → rank_le (index k) (index e.0) ≡ true
      → All (λ f. rank_le (index k) (index f.0) ≡ true) es
      → All (λ f. rank_le (index k) (index f.0) ≡ true) (insert_entry index e es)
  unfolding insert_entry
  insert-All_le k e [] le h = (le, tt)
  insert-All_le k e (f ∷ es) le h = elim (Bool-cases (rank_le (index e.0) (index f.0))) [
    | inl first ↦ rw first (le, h)
    | inr later ↦ rw later (h.0, insert-All_le k e es le h.1)
  ]

  rank_trans : (a b c : Option ℕ) → rank_le a b ≡ true → rank_le b c ≡ true → rank_le a c ≡ true
  rank_trans (some i) (some j) (some k) h g = ground arith
  rank_trans (some i) b none h g = refl
  rank_trans (some i) none (some k) h g = absurd (cc)
  rank_trans none none c h g = g
  rank_trans none (some j) c h g = absurd (cc)

  rank_total : (a b : Option ℕ) → rank_le a b ≡ false → rank_le b a ≡ true
  rank_total (some i) (some j) h = ground arith
  rank_total none (some j) h = refl
  rank_total none none h = refl
  rank_total (some i) none h = absurd (cc)

  All_le_trans :
      (j k : Text) (es : List Entry)
      → rank_le (index j) (index k) ≡ true
      → All (λ f. rank_le (index k) (index f.0) ≡ true) es
      → All (λ f. rank_le (index j) (index f.0) ≡ true) es
  All_le_trans j k [] le h = tt
  All_le_trans j k (f ∷ es) le h =
      (rank_trans (index j) (index k) (index f.0) le h.0, All_le_trans j k es le h.1)

  insert-IsSorted : (e : Entry) (es : List Entry) → IsSorted es → IsSorted (insert_entry index e es)
  unfolding insert_entry
  insert-IsSorted e [] h = (tt, tt)
  insert-IsSorted e ((k, v) ∷ es) h = elim (Bool-cases (rank_le (index e.0) (index k))) [
    | inl first ↦ rw first ((first, All_le_trans e.0 k es first h.0), h)
    | inr later ↦ rw later (
      insert-All_le k e es (rank_total (index e.0) (index k) later) h.0,
      insert-IsSorted e es h.1,
    )
  ]

  sort-IsSorted : (es : List Entry) → IsSorted (sort_entries index es)
  unfolding sort_entries
  sort-IsSorted [] = tt
  sort-IsSorted (e ∷ es) = insert-IsSorted e (sort_entries index es) (sort-IsSorted es)

find_last-entries :
    (j : Text) (ms : Members) → find_last (λ k. text_eq k j) ms ≡ last_value j (entries_of ms)
unfolding find_last
find_last-entries j no_members = refl
find_last-entries j (member k v ms) = rw (find_last-entries j ms) refl

last_value-lookup : (j : Text) (es : List Entry) → IsUnique es → last_value j es ≡ lookup j es
last_value-lookup j [] h = refl
last_value-lookup j ((k, v) ∷ es) h = elim (Bool-cases (text_eq k j)) [
  | inl same ↦
      let absent : lookup j es ≡ none =
        lookup-none j es (ap (λ t. has t es) (sym ((text_eq_iff k j).0 same)) ∙ h.0) in
      ground (arith, same, last_value-lookup j es h.1, absent)
  | inr other ↦ ground (arith, other, last_value-lookup j es h.1, Option-cases (lookup j es))
]
  where
    lookup-none : (j : Text) (es : List Entry) → has j es ≡ false → lookup j es ≡ none
    lookup-none j [] h = refl
    lookup-none j ((k, v) ∷ es) h = ground (arith, lookup-none j es)

-- In the order that an object is printed in, no key stands twice, the keys that are array indices come first
-- and ascending, and every key has the value that `get` finds in the object, its last one; a key that the
-- object has not is not there.
pub js_order_lem :
    (index : List ℕ → Option ℕ) (ms : Members) (key : Text)
    → let es = js_order index (entries_of ms) in
      IsUnique es × IsSorted index es × (get key (object (members_of es)) ≡ get key (object ms))
unfolding js_order get
js_order_lem index ms key =
    let es = entries_of ms in
    let slots = place_all [] es in
    let unique = place_all-IsUnique [] es tt in
    let sorted = sort_entries index slots in
    let kept = sort-IsUnique index slots unique in
    (
      kept,
      sort-IsSorted index slots,
      find_last-entries key (members_of sorted)
          ∙ ap (last_value key) (entries_of-members_of sorted)
          ∙ last_value-lookup key sorted kept
          ∙ lookup-sort index key slots unique
          ∙ lookup-place_all key [] es
          ∙ or_else-none (last_value key es)
          ∙ sym (find_last-entries key ms),
    )
  where
    or_else-none : (o : Option Value) → or_else o none ≡ o
    or_else-none none = refl
    or_else-none (some v) = refl
