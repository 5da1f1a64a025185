-- ===== src/Notify/Rows.antt =====
-- crates/tagents-core/src/notify/state.rs: the rows that the hook publishes, and the labels. A number
-- is read by `number`, `js::number` on the texts that it reads as a whole number.
pub mod Labels
use tagents.Prelude.{
  ℕ, ◌^◌, ◌-◌, ◌<◌, Bool, true, false, ◌&&◌, ◌||◌, not, Option, none, some, List, [], ◌∷◌, ltb, leb,
  ◌==◌, if◌then◌else◌,
}
use tagents.Text.{
  strip_last, Text, word, text_eq, is_empty, strip_prefix, all_chars, is_ascii_digit, split,
}
use tagents.Notify.Screen.{is_digits}
use tagents.Dict.{Dict, get, insert, member}

pub data RowState : Type 0 where
  new working blocked done gone subdone : RowState

-- `RowState::parse`
unfoldable pub parse : Text → Option RowState
parse name =
    if text_eq name (word "new")
    then some new
    else if text_eq name (word "working")
    then some working
    else if text_eq name (word "blocked")
    then some blocked
    else if text_eq name (word "done")
    then some done
    else if text_eq name (word "gone")
    then some gone
    else if text_eq name (word "subdone")
    then some subdone
    else none

-- `at` is in seconds.
pub record AgentStateRow : Type 0 where
  pub key : Text
  pub at : ℕ
  pub state : RowState
  pub session_id : Text
  pub cwd : Text
  pub transcript : Text
  pub detail : Text
  pub config_dir : Option Text
  pub pid : Option ℕ

-- `b.is_ascii_alphanumeric() || matches!(b, b'_' | b'.' | b'-')`
abbrev is_sid_char : ℕ → Bool
is_sid_char c =
    is_ascii_digit c
    || (leb b'A' c && leb c b'Z')
    || (leb b'a' c && leb c b'z')
    || c == b'_'
    || c == b'.'
    || c == b'-'

unfoldable pub is_key : Text → Bool
is_key key = elim (strip_prefix (word "s-") key) [
  | some sid ↦ not (is_empty sid) && all_chars is_sid_char sid
  | none ↦ is_digits key
]

-- `pid_of`: above zero, and one that a `u32` can hold.
unfoldable pub pid_of : ℕ → Option ℕ
pid_of number = if ltb 0 number && leb number (2 ^ 32 - 1) then some number else none

abbrev first : List Text → Option Text
first [] = none
first (x ∷ _) = some x

abbrev second : List Text → Option Text
second (_ ∷ x ∷ _) = some x
second _ = none

unfoldable pub row_of_fields : (Text → Option ℕ) → Text → List Text → Option AgentStateRow
unfolding pid_of
row_of_fields number key (at ∷ state ∷ session_id ∷ cwd ∷ transcript ∷ detail ∷ rest) =
    elim (parse state) [
      | none ↦ none
      | some state ↦ elim (number at) [
        | none ↦ none
        | some at ↦ some (record {
          key = key;
          at = at;
          state = state;
          session_id = session_id;
          cwd = cwd;
          transcript = transcript;
          detail = detail;
          config_dir = first rest;
          pid = elim (second rest) [
            | none ↦ none
            | some column ↦ elim (number column) [ none ↦ none | some n ↦ pid_of n ]
          ];
        })
      ]
    ]
row_of_fields number key _ = none

unfoldable pub parse_state_line : (Text → Option ℕ) → Text → Text → Option AgentStateRow
unfolding strip_last row_of_fields
parse_state_line number key line = row_of_fields number key (split 0x9 (strip_last 0xa line))

-- One line of `history.tsv` for `labels_by_session`.
unfoldable pub history_label : (Text → Option ℕ) → Dict Text → List Text → Dict Text
history_label number labels (at ∷ kind ∷ session_id ∷ _ ∷ label ∷ _ ∷ _) = elim (number at) [
  | none ↦ labels
  | some _ ↦
      if not
        (text_eq kind (word "start") || text_eq kind (word "turn") || text_eq kind (word "end"))
      then labels
      else if not (is_empty session_id) && not (is_empty label)
      then insert session_id label labels
      else labels
]
history_label number labels _ = labels

unfoldable pub history_labels : (Text → Option ℕ) → Dict Text → List Text → Dict Text
unfolding history_label
history_labels number labels [] = labels
history_labels number labels (line ∷ lines) =
    history_labels number
      (if is_empty line then labels else history_label number labels (split 0x9 line)) lines

-- `labels_by_session`, of the text of `history.tsv`
unfoldable pub labels_by_session : (Text → Option ℕ) → Option Text → Dict Text
unfolding history_labels
labels_by_session number none = []
labels_by_session number (some text) = history_labels number [] (split 0xa text)

-- `labels.entry(key).or_insert(name)`
abbrev or_insert : Text → Text → Dict Text → Dict Text
or_insert key name labels = elim (get key labels) [
  | none ↦ insert key name labels
  | some _ ↦ labels
]

abbrev text_or_empty : Option Text → Text
text_or_empty none = []
text_or_empty (some text) = text

unfoldable pub typed_labels : Dict Text → List Text → Dict Text
typed_labels labels [] = labels
typed_labels labels (line ∷ lines) =
    let fields = split 0x9 line in
    let key = text_or_empty (first fields) in
    typed_labels
      (if is_empty key then labels else or_insert key (text_or_empty (second fields)) labels) lines

-- `read_labels`, of the text of `labels.tsv`
unfoldable pub read_labels : Option Text → Dict Text
unfolding typed_labels
read_labels none = []
read_labels (some text) = typed_labels [] (split 0xa text)
