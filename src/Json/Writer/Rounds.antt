-- ===== src/Json/Writer/Rounds.antt =====
-- crates/tagents-core/src/json.rs: the proofs on the fuel and the text of `stringify`.
use tagents.Prelude.{
  ℕ, suc, ◌+◌, ◌-◌, ◌≤◌, ◌≡◌, refl, ap, ◌∙◌, Bool, Option, none, some, List, [], ◌∷◌, arith,
  Bool-cases, inl, inr,
}
use tagents.Text.{text_eq}
use tagents.Json.{
  Value, null, bool, number, string, halves, array, object, keyed, Items, no_items, item, Members,
  no_members, member, Entry, entries_of,
}
use tagents.Json.Order.{
  place, place_all, rank_le, insert_entry, sort_entries, js_order, array_index, units_index,
}
use tagents.Json.Writer.{Printing, rounds, cost, cost_items, cost_members, stringify}
use tagents.Json.Writer.Shown.{members_of, ordered, ordered_items, ordered_members, show}
use tagents.Json.Writer.Loop.{prints}

entry_costs : List Entry → ℕ
entry_costs [] = 0
entry_costs ((k, v) ∷ es) = suc (cost v) + entry_costs es

entry_costs-place :
    (k : List ℕ) (v : Value) (slots : List Entry)
    → entry_costs (place k v slots) ≤ suc (cost v) + entry_costs slots
unfolding entry_costs place
entry_costs-place k v [] = omega arith
entry_costs-place k v ((j, w) ∷ slots) = elim (Bool-cases (text_eq j k)) [
  | inl same ↦ rw same (omega arith)
  | inr other ↦ rw other (omega (arith, entry_costs-place k v slots))
]

entry_costs-place_all :
    (slots ms : List Entry) → entry_costs (place_all slots ms) ≤ entry_costs slots + entry_costs ms
unfolding entry_costs place_all
entry_costs-place_all slots [] = omega arith
entry_costs-place_all slots ((k, v) ∷ ms) =
    omega (arith, entry_costs-place_all (place k v slots) ms, entry_costs-place k v slots)

module _ (index : List ℕ → Option ℕ) where
  entry_costs-insert :
      (k : List ℕ) (v : Value) (es : List Entry)
      → entry_costs (insert_entry index (k, v) es) ≡ suc (cost v) + entry_costs es
  unfolding entry_costs insert_entry
  entry_costs-insert k v [] = refl
  entry_costs-insert k v ((j, w) ∷ es) = elim (Bool-cases (rank_le (index k) (index j))) [
    | inl first ↦ rw first refl
    | inr later ↦ rw later (omega (arith, entry_costs-insert k v es))
  ]

  entry_costs-sort : (es : List Entry) → entry_costs (sort_entries index es) ≡ entry_costs es
  unfolding entry_costs sort_entries
  entry_costs-sort [] = refl
  entry_costs-sort ((k, v) ∷ es) =
      omega (arith, entry_costs-insert k v (sort_entries index es), entry_costs-sort es)

  entry_costs-js_order : (es : List Entry) → entry_costs (js_order index es) ≤ entry_costs es
  unfolding js_order entry_costs
  entry_costs-js_order es =
      omega (arith, entry_costs-sort (place_all [] es), entry_costs-place_all [] es)

cost-members_of : (es : List Entry) → cost_members (members_of es) ≡ entry_costs es
unfolding cost entry_costs
cost-members_of [] = refl
cost-members_of ((k, v) ∷ es) = omega (arith, cost-members_of es)

cost-entries_of : (ms : Members) → entry_costs (entries_of ms) ≡ cost_members ms
unfolding cost entry_costs
cost-entries_of no_members = refl
cost-entries_of (member k v ms) = omega (arith, cost-entries_of ms)

sorted-le :
    (index : List ℕ → Option ℕ) (ms : Members)
    → cost_members (members_of (js_order index (entries_of ms))) ≤ cost_members ms
sorted-le index ms = omega (
  arith,
  cost-members_of (js_order index (entries_of ms)),
  entry_costs-js_order index (entries_of ms),
  cost-entries_of ms,
)

-- Putting the members in order takes no rounds more.
mutual
  unfolding cost ordered

  cost-ordered : (v : Value) → cost (ordered v) ≤ cost v
  cost-ordered null = omega arith
  cost-ordered (bool b) = omega arith
  cost-ordered (number n) = omega arith
  cost-ordered (string s) = omega arith
  cost-ordered (halves us) = omega arith
  cost-ordered (array vs) = omega (arith, cost-ordered_items vs)
  cost-ordered (object ms) =
      omega (arith, sorted-le array_index (ordered_members ms), cost-ordered_members ms)
  cost-ordered (keyed ms) =
      omega (arith, sorted-le units_index (ordered_members ms), cost-ordered_members ms)

  cost-ordered_items : (vs : Items) → cost_items (ordered_items vs) ≤ cost_items vs
  cost-ordered_items no_items = omega arith
  cost-ordered_items (item v vs) = omega (arith, cost-ordered v, cost-ordered_items vs)

  cost-ordered_members : (ms : Members) → cost_members (ordered_members ms) ≤ cost_members ms
  cost-ordered_members no_members = omega arith
  cost-ordered_members (member k v ms) = omega (arith, cost-ordered v, cost-ordered_members ms)

-- `stringify` ends, and what its loop over the stack of open containers has written is the text that the
-- recursion on the value writes, with the members of each object once and in JavaScript's order.
pub stringify_lem :
    (std : Printing) (v : Value) (indent : Bool)
    → stringify std v indent ≡ some (show std indent 0 (ordered v))
unfolding stringify
stringify_lem std v indent =
    let spare = cost v - cost (ordered v) in
    let steps : suc (cost v) ≡ cost (ordered v) + suc spare = omega (arith, cost-ordered v) in
    ap (λ n. rounds std n indent (record { out = []; levels = []; pending = some v })) steps
    ∙ prints std indent v [] [] spare
    ∙ ending_round spare
  where
    ending_round :
        (n : ℕ)
        → rounds std
            (suc n)
            indent
            (record { out = show std indent 0 (ordered v); levels = []; pending = none })
          ≡ some (show std indent 0 (ordered v))
    ending_round n = unfold rounds tagents.Json.Writer.begun in refl
