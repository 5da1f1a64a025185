-- ===== src/ParseArgs/Given.antt =====
-- crates/tagents-core/src/parse_args.rs: the lemmas on the values, flags and positionals of a line of items.
use tagents.Prelude.{
  ◌≡◌, refl, sym, ap, ◌∙◌, Bool, false, ◌||◌, Option, none, some, List, [], ◌∷◌, ◌++◌, arith,
  if◌then◌else◌, append_nil, append_assoc,
}
use tagents.Dict.{get, get-insert, member, member-append}
use tagents.Text.{Text, text_eq, text_eq_iff}
use tagents.Utf8.{Bytes}
use tagents.ParseArgs.{Kind, text, many, flag, Parsed, all_of, last, texts_of, text_of, keep}
use tagents.ParseArgs.Reading.{Item, switch, joined, apart, plain, meaning, meanings}

-- The values given for the name, in order.
unfoldable pub values_of : Text → List Item → List Bytes
values_of name [] = []
values_of name (switch _ ∷ items) = values_of name items
values_of name (plain _ ∷ items) = values_of name items
values_of name (joined other _ value ∷ items) =
    let rest = values_of name items in if text_eq other name then value ∷ rest else rest
values_of name (apart other _ value ∷ items) =
    let rest = values_of name items in if text_eq other name then value ∷ rest else rest

unfoldable pub plains : List Item → List Bytes
plains [] = []
plains (plain bytes ∷ items) = bytes ∷ plains items
plains (switch _ ∷ items) = plains items
plains (joined _ _ _ ∷ items) = plains items
plains (apart _ _ _ ∷ items) = plains items

unfoldable pub is_switched : Text → List Item → Bool
is_switched name [] = false
is_switched name (switch other ∷ items) = text_eq other name || is_switched name items
is_switched name (plain _ ∷ items) = is_switched name items
is_switched name (joined _ _ _ ∷ items) = is_switched name items
is_switched name (apart _ _ _ ∷ items) = is_switched name items

last-append : (xs : List Bytes) (x : Bytes) → last (xs ++ x ∷ []) ≡ some x
unfolding last
last-append [] x = refl
last-append (y ∷ []) x = refl
last-append (y ∷ z ∷ xs) x = last-append (z ∷ xs) x

abbrev pub or_else : Option Bytes → Option Bytes → Option Bytes
or_else none other = other
or_else (some value) other = some value

text_of-keep :
    (name other : Text) (kind : Kind) (value : Bytes) (p : Parsed)
    → text_of name (keep p other kind value)
      ≡ (if text_eq other name then some value else text_of name p)
unfolding text_of texts_of keep
text_of-keep name other text value p =
    ground (arith, get-insert other name ([] ++ value ∷ []) p.texts, last-append [] value)
text_of-keep name other many value p =
    let old = all_of (get other p.texts) in
    ground (arith, get-insert other name (old ++ value ∷ []) p.texts, last-append old value)
text_of-keep name other flag value p =
    let old = all_of (get other p.texts) in
    ground (arith, get-insert other name (old ++ value ∷ []) p.texts, last-append old value)

last-cons : (x : Bytes) (xs : List Bytes) → last (x ∷ xs) ≡ or_else (last xs) (some x)
unfolding last
last-cons x [] = refl
last-cons x (y ∷ []) = refl
last-cons x (y ∷ z ∷ xs) = let ih = last-cons y (z ∷ xs) in ground arith

pub or_else-none : (o : Option Bytes) → or_else o none ≡ o
or_else-none none = refl
or_else-none (some value) = refl

-- An option with a value, before other items.
one_value :
    (name other : Text) (kind : Kind) (value : Bytes) (items : List Item) (p : Parsed)
    → text_of name (meanings items (keep p other kind value))
      ≡ or_else (last (values_of name items)) (text_of name (keep p other kind value))
    → let vs = values_of name items in
      text_of name (meanings items (keep p other kind value))
      ≡ or_else (last (if text_eq other name then value ∷ vs else vs)) (text_of name p)
one_value name other kind value items p ih =
    let vs = values_of name items in
    ground (arith, ih, last-cons value vs, text_of-keep name other kind value p)

pub text_of-meanings :
    (name : Text) (items : List Item) (p : Parsed)
    → text_of name (meanings items p) ≡ or_else (last (values_of name items)) (text_of name p)
unfolding meanings meaning values_of last text_of texts_of
text_of-meanings name [] p = refl
text_of-meanings name (switch _ ∷ items) p = text_of-meanings name items _
text_of-meanings name (plain _ ∷ items) p = text_of-meanings name items _
text_of-meanings name (joined other kind value ∷ items) p =
    one_value name other kind value items p (text_of-meanings name items (keep p other kind value))
text_of-meanings name (apart other kind value ∷ items) p =
    one_value name other kind value items p (text_of-meanings name items (keep p other kind value))

pub positionals-meanings :
    (items : List Item) (p : Parsed)
    → (meanings items p).positionals ≡ p.positionals ++ plains items
unfolding meanings meaning plains keep
positionals-meanings [] p = sym (append_nil p.positionals)
positionals-meanings (switch _ ∷ items) p = positionals-meanings items _
positionals-meanings (plain bytes ∷ items) p =
    positionals-meanings items _ ∙ append_assoc p.positionals (bytes ∷ []) (plains items)
positionals-meanings (joined other kind value ∷ items) p = positionals-meanings items _
positionals-meanings (apart other kind value ∷ items) p = positionals-meanings items _

member-snoc :
    (name other : Text) (names : List Text)
    → member name (if member other names then names else names ++ other ∷ [])
      ≡ (member name names || text_eq other name)
member-snoc name other names =
    let same : name ≡ other → member name names ≡ member other names =
      λ e. ap (λ k. member k names) e in
    let swap : other ≡ name → name ≡ other = sym in
    ground (arith, member-append name other names, text_eq_iff other name, same, swap)

or_assoc : (a b c : Bool) → ((a || b) || c) ≡ (a || (b || c))
or_assoc a b c = ground arith

pub flags-meanings :
    (name : Text) (items : List Item) (p : Parsed)
    → member name (meanings items p).flags ≡ (member name p.flags || is_switched name items)
unfolding meanings meaning is_switched keep
flags-meanings name [] p = ground arith
flags-meanings name (switch other ∷ items) p =
    flags-meanings name items _
    ∙ ap (λ b. b || is_switched name items) (member-snoc name other p.flags)
    ∙ or_assoc (member name p.flags) (text_eq other name) (is_switched name items)
flags-meanings name (plain bytes ∷ items) p = flags-meanings name items _
flags-meanings name (joined other kind value ∷ items) p = flags-meanings name items _
flags-meanings name (apart other kind value ∷ items) p = flags-meanings name items _
