-- ===== src/Json/Writer/Shown.antt =====
-- The text of a value by recursion on the value.
use tagents.Prelude.{
  ℕ, suc, ◌≡◌, refl, ap, Bool, true, false, ◌&&◌, Option, none, some, List, [], ◌∷◌, ◌++◌,
  if◌then◌else◌,
}
use tagents.Text.{Text}
use tagents.Json.{
  Value, null, bool, number, string, halves, array, object, keyed, Items, no_items, item, Members,
  no_members, member, Entry, entries_of,
}
use tagents.Json.Order.{array_index, units_index, js_order}
use tagents.Json.Order.Laws.{over}
use tagents.Json.Writer.{Printing, Name, text_name, units_name, begin, key_text, newline}

abbrev pub members_of : List Entry → Members
members_of [] = no_members
members_of ((k, v) ∷ es) = member k v (members_of es)

pub entries_of-members_of : (es : List Entry) → entries_of (members_of es) ≡ es
entries_of-members_of [] = refl
entries_of-members_of ((k, v) ∷ es) = ap (λ fs. (k, v) ∷ fs) (entries_of-members_of es)

-- The value whose objects have each key once, in JavaScript's order, at every depth.
unfoldable mutual
  pub ordered : Value → Value
  ordered null = null
  ordered (bool b) = bool b
  ordered (number n) = number n
  ordered (string s) = string s
  ordered (halves us) = halves us
  ordered (array vs) = array (ordered_items vs)
  ordered (object ms) = object (members_of (js_order array_index (entries_of (ordered_members ms))))
  ordered (keyed ms) = keyed (members_of (js_order units_index (entries_of (ordered_members ms))))

  pub ordered_items : Items → Items
  ordered_items no_items = no_items
  ordered_items (item v vs) = item (ordered v) (ordered_items vs)

  pub ordered_members : Members → Members
  ordered_members no_members = no_members
  ordered_members (member k v ms) = member k (ordered v) (ordered_members ms)

pub ordered_members-over :
    (ms : Members) → entries_of (ordered_members ms) ≡ over ordered (entries_of ms)
unfolding ordered
ordered_members-over no_members = refl
ordered_members-over (member k v ms) = ap (λ es. (k, ordered v) ∷ es) (ordered_members-over ms)

-- What stands before a member, and the end of a container.
unfoldable pub lead : Printing → Bool → ℕ → Bool → Option Name → Text
lead std indent depth written name =
    (if written then b',' ∷ [] else [])
    ++ ((if indent then newline (suc depth) else []) ++ key_text std indent name)

unfoldable pub ending : Bool → ℕ → Bool → ℕ → Text
ending indent depth written close = (if indent && written then newline depth else []) ++ close ∷ []

module _ (std : Printing) (indent : Bool) where
  unfoldable mutual
    unfolding lead ending

    pub show : ℕ → Value → Text
    show depth (array vs) = b'[' ∷ show_items depth false vs
    show depth (object ms) = b'{' ∷ show_members depth false text_name ms
    show depth (keyed ms) = b'{' ∷ show_members depth false units_name ms
    show depth v = (begin std v).0

    pub show_items : ℕ → Bool → Items → Text
    show_items depth written no_items = ending indent depth written b']'
    show_items depth written (item v vs) =
        lead std indent depth written none ++ (show (suc depth) v ++ show_items depth true vs)

    pub show_members : ℕ → Bool → (List ℕ → Name) → Members → Text
    show_members depth written name no_members = ending indent depth written b'}'
    show_members depth written name (member k v ms) =
        lead std indent depth written (some (name k))
        ++ (show (suc depth) v ++ show_members depth true name ms)
