-- ===== src/ParseArgs/Values.antt =====
-- crates/tagents-core/src/parse_args.rs: the proofs on what `read` keeps of each option.
use tagents.Prelude.{
  ◌≡◌, refl, sym, ap, ◌∙◌, subst, true, false, Bool-cases, inl, inr, Option, none, some, List, [],
  ◌∷◌, ◌++◌, if◌then◌else◌, append_nil, append_assoc,
}
use tagents.Dict.{get, get-insert, member}
use tagents.Text.{Text, text_eq, text_eq_iff}
use tagents.Exec.{Result, ok, err}
use tagents.Utf8.{Bytes}
use tagents.ParseArgs.{
  Kind, text, many, flag, ParseError, Parsed, nothing_parsed, all_of, last, texts_of, text_of, keep,
  listed, Grammar, read,
}
use tagents.ParseArgs.Reading.{
  Item, switch, joined, apart, plain, meaning, meanings, line_of, IsListed, AllValid, read-line_of,
}
use tagents.ParseArgs.Given.{
  values_of, plains, is_switched, or_else-none, text_of-meanings, positionals-meanings,
  flags-meanings,
}

-- Only the last value, or the old ones if there is none.
last_only : List Bytes → List Bytes → List Bytes
last_only old [] = old
last_only old (value ∷ values) = last_only (value ∷ []) values

list_of : Option Bytes → List Bytes
list_of none = []
list_of (some value) = value ∷ []

-- What is kept of the values of an option: the last one of an option with one value, else all.
unfoldable pub kept_of : Option Kind → List Bytes → List Bytes
unfolding list_of
kept_of (some text) values = list_of (last values)
kept_of (some many) values = values
kept_of (some flag) values = values
kept_of none values = values

-- The same, behind older values.
kept_behind : Option Kind → List Bytes → List Bytes → List Bytes
unfolding last_only
kept_behind (some text) old values = last_only old values
kept_behind (some many) old values = old ++ values
kept_behind (some flag) old values = old ++ values
kept_behind none old values = old ++ values

last_only-one :
    (value : Bytes) (values : List Bytes)
    → last_only (value ∷ []) values ≡ list_of (last (value ∷ values))
unfolding last_only list_of last
last_only-one value [] = refl
last_only-one value (other ∷ values) = last_only-one other values

kept_behind-nothing :
    (kind : Option Kind) (values : List Bytes) → kept_behind kind [] values ≡ kept_of kind values
unfolding kept_behind kept_of last_only list_of last
kept_behind-nothing (some text) [] = refl
kept_behind-nothing (some text) (value ∷ values) = last_only-one value values
kept_behind-nothing (some many) values = refl
kept_behind-nothing (some flag) values = refl
kept_behind-nothing none values = refl

-- A value of the option itself, and one of another option.
texts_of-keep_self :
    (name other : Text) (kind : Kind) (value : Bytes) (values : List Bytes) (p : Parsed)
    → text_eq other name ≡ true
    → kept_behind (some kind) (texts_of name (keep p other kind value)) values
      ≡ kept_behind (some kind) (texts_of name p) (value ∷ values)
unfolding texts_of keep kept_behind last_only
texts_of-keep_self name other text value values p same =
    rw (get-insert other name ([] ++ value ∷ []) p.texts, same) refl
texts_of-keep_self name other many value values p same =
    let eq : other ≡ name = (text_eq_iff other name).0 same in
    rw (get-insert other name (all_of (get other p.texts) ++ value ∷ []) p.texts, same)
      (ap (λ n. (all_of (get n p.texts) ++ value ∷ []) ++ values) eq
        ∙ append_assoc (all_of (get name p.texts)) (value ∷ []) values)
texts_of-keep_self name other flag value values p same =
    let eq : other ≡ name = (text_eq_iff other name).0 same in
    rw (get-insert other name (all_of (get other p.texts) ++ value ∷ []) p.texts, same)
      (ap (λ n. (all_of (get n p.texts) ++ value ∷ []) ++ values) eq
        ∙ append_assoc (all_of (get name p.texts)) (value ∷ []) values)

texts_of-keep_other :
    (name other : Text) (kind : Kind) (value : Bytes) (p : Parsed)
    → text_eq other name ≡ false
    → texts_of name (keep p other kind value) ≡ texts_of name p
unfolding texts_of keep
texts_of-keep_other name other text value p apart_names =
    rw (get-insert other name ([] ++ value ∷ []) p.texts, apart_names) refl
texts_of-keep_other name other many value p apart_names =
    rw (get-insert other name (all_of (get other p.texts) ++ value ∷ []) p.texts, apart_names) refl
texts_of-keep_other name other flag value p apart_names =
    rw (get-insert other name (all_of (get other p.texts) ++ value ∷ []) p.texts, apart_names) refl

module _ (g : Grammar) (name : Text) where
  given :
      (other : Text) (kind : Kind) (value : Bytes) (items : List Item) (p : Parsed)
      → IsListed g other kind
      → texts_of name (meanings items (keep p other kind value))
        ≡ kept_behind
            (listed name g.options)
            (texts_of name (keep p other kind value))
            (values_of name items)
      → let vs = values_of name items in
        texts_of name (meanings items (keep p other kind value))
        ≡ kept_behind
            (listed name g.options)
            (texts_of name p)
            (if text_eq other name then value ∷ vs else vs)
  given other kind value items p valid ih = elim (Bool-cases (text_eq other name)) [
    | inl same ↦
        let eq : other ≡ name = (text_eq_iff other name).0 same in
        let its : listed name g.options ≡ some kind =
          ap (λ n. listed n g.options) (sym eq) ∙ valid.found in
        let vs = values_of name items in
        ih
        ∙ ap (λ k. kept_behind k (texts_of name (keep p other kind value)) vs) its
        ∙ texts_of-keep_self name other kind value vs p same
        ∙ ap (λ k. kept_behind k (texts_of name p) (value ∷ vs)) (sym its)
        ∙ rw same refl
    | inr apart_names ↦
        ih
        ∙ ap (λ old. kept_behind (listed name g.options) old (values_of name items))
            (texts_of-keep_other name other kind value p apart_names)
        ∙ rw apart_names refl
  ]

  kept_behind-none : (kind : Option Kind) (old : List Bytes) → old ≡ kept_behind kind old []
  unfolding kept_behind last_only
  kept_behind-none (some text) old = refl
  kept_behind-none (some many) old = sym (append_nil old)
  kept_behind-none (some flag) old = sym (append_nil old)
  kept_behind-none none old = sym (append_nil old)

  texts_of-meanings :
      (items : List Item) (p : Parsed)
      → AllValid g items
      → texts_of name (meanings items p)
        ≡ kept_behind (listed name g.options) (texts_of name p) (values_of name items)
  unfolding meanings meaning values_of
  texts_of-meanings [] p valid = kept_behind-none (listed name g.options) (texts_of name p)
  texts_of-meanings (switch other ∷ items) p valid =
      texts_of-meanings items _ valid.1 ∙ (unfold texts_of in refl)
  texts_of-meanings (plain bytes ∷ items) p valid =
      texts_of-meanings items _ valid.1 ∙ (unfold texts_of in refl)
  texts_of-meanings (joined other kind value ∷ items) p valid =
      given other kind value items p valid.0.0
        (texts_of-meanings items (keep p other kind value) valid.1)
  texts_of-meanings (apart other kind value ∷ items) p valid =
      given other kind value items p valid.0.0
        (texts_of-meanings items (keep p other kind value) valid.1)

-- A result of `read` that is no error and gives back what was written.
abbrev pub Gives : Grammar → Text → List Item → Result ParseError Parsed → Type 0
Gives g name items (err _) = ⊥
Gives g name items (ok parsed) =
    (texts_of name parsed ≡ kept_of (listed name g.options) (values_of name items))
    × (text_of name parsed ≡ last (values_of name items))
    × (member name parsed.flags ≡ is_switched name items)
    × (parsed.positionals ≡ plains items)

-- `read` of a line of flags, options with their values and positionals, each of a listed name and kind, is no
-- error. Of an option with one value it keeps the last that is given, of one with many values all in order;
-- the text of an option is the last of its values; a flag is there exactly if it is given; and the
-- positionals are all there in order.
pub read-values_of :
    (g : Grammar) (name : Text) (items : List Item)
    → AllValid g items
    → Gives g name items (read g (line_of items []))
read-values_of g name items valid =
    subst (Gives g name items) (sym (read-line_of g items [] valid).0) (
      texts_of-meanings g name items nothing_parsed valid
          ∙ (unfold texts_of get in
              kept_behind-nothing (listed name g.options) (values_of name items)),
      text_of-meanings name items nothing_parsed
          ∙ (unfold text_of texts_of last get in or_else-none (last (values_of name items))),
      (unfold member in flags-meanings name items nothing_parsed),
      positionals-meanings items nothing_parsed,
    )
