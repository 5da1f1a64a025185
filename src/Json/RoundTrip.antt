-- ===== src/Json/RoundTrip.antt =====
-- crates/tagents-core/src/json.rs: the proofs on a document that is printed and parsed.
use tagents.Prelude.{
  ℕ, suc, ◌+◌, ◌-◌, ◌≤◌, ◌≡◌, refl, sym, ap, ◌∙◌, Bool, true, false, Option, none, some, List, [],
  ◌∷◌, ◌++◌, arith, append_nil, length, length-append,
}
use tagents.Text.{Text}
use tagents.Json.{
  F64, Value, null, bool, number, string, halves, array, object, keyed, Items, no_items, item,
  Members, no_members, member, Entry, entries_of,
}
use tagents.Json.Order.{array_index, js_order}
use tagents.Json.Order.Laws.{AllValues, js_order-All}
use tagents.Json.Writer.{Printing, text_name, stringify}
use tagents.Json.Writer.Quoted.{IsQuoting}
use tagents.Json.Writer.Shown.{
  members_of, ordered, ordered_items, ordered_members, lead, ending, show, show_items, show_members,
}
use tagents.Json.Writer.Rounds.{stringify_lem}
use tagents.Json.Reader.{
  Parser, at, Outcome, read, hand, document, parse, parse_exact, parse_whole, value_of, exact_of,
}
use tagents.Json.Number.{Floats, number_text}
use tagents.Json.Number.Scientific.{IsFloats}
use tagents.Json.Number.Spelling.{number_text-IsSpelling}
use tagents.Json.Reader.Rounds.{turns, turns_items, turns_members}
use tagents.Json.Reader.Plain.{IsSpelling, IsPlain, AllPlain, MembersPlain, Opening}
use tagents.Json.Reader.RoundTrip.{opens, reads_back}

MembersPlain-entries :
    (exact : Bool) (ms : Members)
    → MembersPlain exact ms
    → AllValues (IsPlain exact) (entries_of ms)
MembersPlain-entries exact no_members h = tt
MembersPlain-entries exact (member k v ms) h = (h.0, MembersPlain-entries exact ms h.1)

MembersPlain-members_of :
    (exact : Bool) (es : List Entry)
    → AllValues (IsPlain exact) es
    → MembersPlain exact (members_of es)
MembersPlain-members_of exact [] h = tt
MembersPlain-members_of exact ((k, v) ∷ es) h = (h.0, MembersPlain-members_of exact es h.1)

-- Putting the members in order leaves a plain value plain.
mutual
  unfolding ordered

  ordered-IsPlain : (exact : Bool) (v : Value) → IsPlain exact v → IsPlain exact (ordered v)
  ordered-IsPlain exact null h = h
  ordered-IsPlain exact (bool b) h = h
  ordered-IsPlain exact (number n) h = h
  ordered-IsPlain exact (string s) h = h
  ordered-IsPlain exact (halves us) h = h
  ordered-IsPlain exact (array vs) h = ordered-AllPlain exact vs h
  ordered-IsPlain exact (object ms) h =
      MembersPlain-members_of exact (js_order array_index (entries_of (ordered_members ms))) (
        js_order-All (IsPlain exact) array_index (entries_of (ordered_members ms))
          (MembersPlain-entries exact (ordered_members ms) (ordered-MembersPlain exact ms h)))
  ordered-IsPlain exact (keyed ms) h = absurd h

  ordered-AllPlain :
      (exact : Bool) (vs : Items) → AllPlain exact vs → AllPlain exact (ordered_items vs)
  ordered-AllPlain exact no_items h = tt
  ordered-AllPlain exact (item v vs) h =
      (ordered-IsPlain exact v h.0, ordered-AllPlain exact vs h.1)

  ordered-MembersPlain :
      (exact : Bool) (ms : Members)
      → MembersPlain exact ms
      → MembersPlain exact (ordered_members ms)
  ordered-MembersPlain exact no_members h = tt
  ordered-MembersPlain exact (member k v ms) h =
      (ordered-IsPlain exact v h.0, ordered-MembersPlain exact ms h.1)

-- A plain value has no text without keys with a half, so no more rounds than characters.
module _ (std : Printing) (parse_f64 : Text → Option F64) (quoting : IsQuoting std.quote)
    (spelling : IsSpelling std.number_text parse_f64) (indent : Bool) where
  Opening-length : {text : Text} → Opening text → 1 ≤ length text
  Opening-length o = rw (o.splits) (omega arith)

  mutual
    unfolding show turns ending

    turns-le :
        (exact : Bool) (depth : ℕ) (v : Value)
        → IsPlain exact v
        → turns v ≤ length (show std indent depth v)
    turns-le exact depth null h =
        Opening-length (opens std parse_f64 quoting spelling indent exact depth null h)
    turns-le exact depth (bool b) h =
        Opening-length (opens std parse_f64 quoting spelling indent exact depth (bool b) h)
    turns-le exact depth (number n) h =
        Opening-length (opens std parse_f64 quoting spelling indent exact depth (number n) h)
    turns-le exact depth (string s) h =
        Opening-length (opens std parse_f64 quoting spelling indent exact depth (string s) h)
    turns-le exact depth (halves us) h =
        Opening-length (opens std parse_f64 quoting spelling indent exact depth (halves us) h)
    turns-le exact depth (array vs) h = omega (arith, turns_items-le exact depth false vs h)
    turns-le exact depth (object ms) h = omega (arith, turns_members-le exact depth false ms h)
    turns-le exact depth (keyed ms) h = absurd h

    turns_items-le :
        (exact : Bool) (depth : ℕ) (written : Bool) (vs : Items)
        → AllPlain exact vs
        → turns_items vs ≤ length (show_items std indent depth written vs)
    turns_items-le exact depth written no_items h = omega arith
    turns_items-le exact depth written (item v vs) h = omega (
      arith,
      length-append (lead std indent depth written none)
          (show std indent (suc depth) v ++ show_items std indent depth true vs),
      length-append (show std indent (suc depth) v) (show_items std indent depth true vs),
      turns-le exact (suc depth) v h.0,
      turns_items-le exact depth true vs h.1,
    )

    turns_members-le :
        (exact : Bool) (depth : ℕ) (written : Bool) (ms : Members)
        → MembersPlain exact ms
        → turns_members ms ≤ length (show_members std indent depth written text_name ms)
    turns_members-le exact depth written no_members h = omega arith
    turns_members-le exact depth written (member k v ms) h = omega (
      arith,
      length-append (lead std indent depth written (some (text_name k)))
          (show std indent (suc depth) v ++ show_members std indent depth true text_name ms),
      length-append (show std indent (suc depth) v)
          (show_members std indent depth true text_name ms),
      turns-le exact (suc depth) v h.0,
      turns_members-le exact depth true ms h.1,
    )

  -- The whole text of a value is a document.
  document-show :
      (exact : Bool) (v : Value) (p : Parser)
      → IsPlain exact v
      → p.exact ≡ exact
      → let text = show std indent 0 v in
        document parse_f64 (suc (length text)) [] (at p text) ≡ read v (at p [])
  document-show exact v p h keeps =
      let text = show std indent 0 v in
      let spare = suc (length text) - turns v in
      let steps : suc (length text) ≡ turns v + spare = omega (arith, turns-le exact 0 v h) in
      let all = append_nil text in
      ap (λ n. document parse_f64 n [] (at p text)) steps
      ∙ ap (λ t. document parse_f64 (turns v + spare) [] (at p t)) (sym all)
      ∙ reads_back std parse_f64 quoting spelling indent exact v h 0 [] [] p spare keeps tt
      ∙ ended v p spare
    where
      ended :
          (v : Value) (p : Parser) (n : ℕ)
          → tagents.Json.Reader.Rounds.handed parse_f64 n v [] (at p []) ≡ read v (at p [])
      ended v p n = unfold hand tagents.Json.Scan.skip_space tagents.Json.Reader.after_hand in refl

-- The printer with its number text; the text of a string is Rust's and serde's.
abbrev pub printing : (Text → Text) → Floats → Printing
printing quote floats = record { quote = quote; number_text = number_text floats }

-- What `stringify` prints of a value without numbers that are not finite or -0, without keys with a
-- half, and in which every string of code units has a half, `parse_whole` and `parse_exact` read as the
-- value with each object's keys once and in JavaScript's order; so does `parse`, if no string has a half.
pub parse-stringify :
    (quote : Text → Text) (floats : Floats)
    → IsQuoting quote
    → IsFloats floats
    → (indent : Bool) (v : Value) → IsPlain true v
    → (text : Text) × (stringify (printing quote floats) v indent ≡ some text)
      × (parse_whole floats.parse_f64 text ≡ some (ordered v))
      × (parse_exact floats.parse_f64 text ≡ some (ordered v, false))
      × (IsPlain false v → parse floats.parse_f64 text ≡ some (ordered v))
unfolding parse parse_exact parse_whole
parse-stringify quote floats quoting laws indent v h =
    let std = printing quote floats in
    let spelling = number_text-IsSpelling floats laws in
    let text = show std indent 0 (ordered v) in
    let flags : Bool → Bool → Parser = λ exact keep_keys. record {
      rest = [];
      exact = exact;
      lone_key = false;
      keep_keys = keep_keys;
    } in
    let reads = λ (exact keep_keys : Bool) (plain : IsPlain exact v).
      document-show std floats.parse_f64 quoting spelling indent exact (ordered v)
        (flags exact keep_keys) (ordered-IsPlain exact v plain) refl in
    (
      text,
      stringify_lem std v indent,
      ap value_of (reads true true h),
      ap exact_of (reads true false h),
      (λ plain. ap value_of (reads false false plain)),
    )
