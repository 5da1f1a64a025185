-- ===== src/Notify/Rows/Labels.antt =====
-- crates/tagents-core/src/notify/state.rs: the proofs on the labels of the sessions.
use tagents.Prelude.{
  ℕ, ◌≡◌, refl, ap, ◌∙◌, false, ◌&&◌, not, ◌||◌, Option, none, some, List, [], ◌∷◌, arith,
  if◌then◌else◌,
}
use tagents.Text.{Text, word, text_eq, text_eq_iff, is_empty, split}
use tagents.Dict.{Dict, get, get-insert}
use tagents.Notify.Rows.{
  first, second, text_or_empty, or_insert, typed_labels, read_labels, history_label, history_labels,
  labels_by_session,
}

-- The second field of the first line whose first field is the key.
unfoldable pub first_typed : Text → List Text → Option Text
first_typed key [] = none
first_typed key (line ∷ lines) =
    let rest = first_typed key lines in
    if text_eq (text_or_empty (first (split 0x9 line))) key
    then some (text_or_empty (second (split 0x9 line)))
    else rest

-- The value, or else the other one.
abbrev pub or_else : Option Text → Option Text → Option Text
or_else none other = other
or_else (some value) other = some value

typed_lem :
    (key : Text) (labels : Dict Text) (lines : List Text)
    → is_empty key ≡ false
    → get key (typed_labels labels lines) ≡ or_else (get key labels) (first_typed key lines)
unfolding typed_labels first_typed
typed_lem key labels [] h = ground arith
typed_lem key labels (line ∷ lines) h =
    let k = text_or_empty (first (split 0x9 line)) in
    let v = text_or_empty (second (split 0x9 line)) in
    let next = if is_empty k then labels else or_insert k v labels in
    let ih = typed_lem key next lines h in
    ground (arith, ih, get-insert k key v labels, text_eq_iff k key)

-- `read_labels` gives a key the label of its first line, and none when no line has it.
pub get-read_labels :
    (key text : Text)
    → is_empty key ≡ false
    → get key (read_labels (some text)) ≡ first_typed key (split 0xa text)
unfolding read_labels get
get-read_labels key text h = typed_lem key [] (split 0xa text) h

-- The label that a line of `history.tsv` gives to the session.
unfoldable pub label_of : (Text → Option ℕ) → Text → List Text → Option Text
label_of number session (at ∷ kind ∷ session_id ∷ _ ∷ label ∷ _ ∷ _) =
    if text_eq session_id session
      && not (is_empty label)
      && (text_eq kind (word "start") || text_eq kind (word "turn") || text_eq kind (word "end"))
    then (elim (number at) [ none ↦ none | some _ ↦ some label ])
    else none
label_of number session _ = none

-- That of the last line which gives it one.
unfoldable pub last_label : (Text → Option ℕ) → Text → List Text → Option Text
last_label number session [] = none
last_label number session (line ∷ lines) =
    or_else (last_label number session lines) (label_of number session (split 0x9 line))

one_label :
    (number : Text → Option ℕ) (session : Text) (labels : Dict Text) (fields : List Text)
    → is_empty session ≡ false
    → get session (history_label number labels fields)
      ≡ or_else (label_of number session fields) (get session labels)
unfolding history_label label_of
one_label number session labels (at ∷ kind ∷ sid ∷ cwd ∷ label ∷ x ∷ rest) h =
    ground (arith, get-insert sid session label labels, text_eq_iff sid session)
one_label number session labels _ h = refl

or_else_assoc : (a b c : Option Text) → or_else a (or_else b c) ≡ or_else (or_else a b) c
or_else_assoc none b c = refl
or_else_assoc (some a) b c = refl

history_lem :
    (number : Text → Option ℕ) (session : Text) (labels : Dict Text) (lines : List Text)
    → is_empty session ≡ false
    → get session (history_labels number labels lines)
      ≡ or_else (last_label number session lines) (get session labels)
unfolding history_labels last_label label_of split
history_lem number session labels [] h = ground arith
history_lem number session labels ([] ∷ lines) h =
    let ih = history_lem number session labels lines h in ground (arith, ih)
history_lem number session labels ((c ∷ line) ∷ lines) h =
    let fields = split 0x9 (c ∷ line) in
    let ih = history_lem number session (history_label number labels fields) lines h in
    ih
    ∙ ap (or_else (last_label number session lines)) (one_label number session labels fields h)
    ∙ or_else_assoc (last_label number session lines) (label_of number session fields)
        (get session labels)

-- `labels_by_session` gives a session the label of its last `start`, `turn` or `end` line of the history
-- that has a time and a label, and none when there is no such line.
pub get-labels_by_session :
    (number : Text → Option ℕ) (session text : Text)
    → is_empty session ≡ false
    → get session (labels_by_session number (some text))
      ≡ last_label number session (split 0xa text)
unfolding labels_by_session get
get-labels_by_session number session text h =
    let e = history_lem number session [] (split 0xa text) h in ground (arith, e)
