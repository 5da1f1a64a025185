-- ===== src/Notify/Lock.antt =====
-- crates/tagents-core/src/notify/lock.rs: what a lock file says and whether its holder still holds it.
-- Times are counted from an instant before all of them; the code compares and subtracts them only.
use tagents.Prelude.{
  ℕ, ◌+◌, ◌-◌, ◌^◌, Bool, true, false, not, ◌&&◌, ◌||◌, Option, none, some, [], ◌∷◌, ◌++◌, leb, ltb,
  ◌==◌, length, if◌then◌else◌,
}
use tagents.Text.{
  Text, word, is_empty, is_ascii_digit, is_space, all_chars, trim, trim_start, text_eq, number_text,
}
use tagents.Json.Order.{digits_value}
pub mod Disk
pub mod Take
pub mod Written
pub mod Kept
pub mod Alone

pub record LockHolder : Type 0 where
  pub pid : ℕ
  pub started : Option Text

pub data LockResult : Type 0 where
  taken : LockResult
  held : ℕ → LockResult

-- What signal 0 to a process meets.
pub data Signal : Type 0 where
  reached refused missing : Signal

-- `LockDeps`, with the signal that `is_alive` sends.
pub record LockDeps : Type 0 where
  pub me : LockHolder
  pub boot_ms : ℕ
  pub process_start : ℕ → Option Text
  pub signal : ℕ → Signal

pub record LockContent : Type 0 where
  pub raw : Text
  pub pid : Option ℕ
  pub started : Option Text
  pub mtime_ms : ℕ

abbrev pub max_safe_integer : ℕ
max_safe_integer = 9007199254740991

unfoldable pub render : LockHolder → Text
render holder =
    number_text holder.pid
    ++ elim (holder.started) [ some started ↦ b' ' ∷ (started ++ b'\n' ∷ []) | none ↦ b'\n' ∷ [] ]

-- The digits at the front, and the rest.
unfoldable pub digit_run : Text → Text × Text
digit_run [] = ([], [])
digit_run (c ∷ s) =
    let rest = digit_run s in if is_ascii_digit c then (c ∷ rest.0, rest.1) else ([], c ∷ s)

abbrev is_blank : ℕ → Bool
is_blank c = c == b' ' || c == b'\t'

-- The start time behind the digits.
unfoldable pub started_of : Text → Text → Option (Text × Option Text)
started_of digits [] = none
started_of digits (c ∷ s) =
    if is_space c || not (all_chars (λ d. not (d == b'\n')) (c ∷ s))
    then none
    else some (digits, some (trim (c ∷ s)))

unfoldable pub parse_line : Text → Option (Text × Option Text)
unfolding trim trim_start digit_run started_of
parse_line raw =
    let run = digit_run (trim raw) in
    let started = trim_start is_blank run.1 in
    if is_empty run.0
    then none
    else if is_empty run.1
    then some (run.0, none)
    else if ltb (length started) (length run.1)
    then started_of run.0 started
    else none

-- `digits.parse::<u64>().ok()`
abbrev pub parse_u64 : Text → Option ℕ
parse_u64 digits = let n = digits_value 0 digits in if ltb n (2 ^ 64) then some n else none

abbrev pub safe_pid : Option ℕ → Option ℕ
safe_pid none = none
safe_pid (some n) = if leb 1 n && leb n max_safe_integer then some n else none

-- `read_lock`, of the time and the text of the file.
unfoldable pub content_of : ℕ → Text → LockContent
unfolding parse_line
content_of mtime raw = record {
  raw = raw;
  pid = elim (parse_line raw) [
    | none ↦ none
    | some (digits, started) ↦ safe_pid (parse_u64 digits)
  ];
  started = elim (parse_line raw) [ none ↦ none | some (digits, started) ↦ started ];
  mtime_ms = mtime;
}

-- No process has the pid 0, or one that is not an `i32`.
unfoldable pub is_alive : (ℕ → Signal) → ℕ → Bool
is_alive signal pid =
    if leb 1 pid && ltb pid (2 ^ 31)
    then elim (signal pid) [ reached ↦ true | refused ↦ true | missing ↦ false ]
    else false

abbrev pub after_boot : LockContent → LockDeps → Bool
after_boot seen deps = leb deps.boot_ms seen.mtime_ms

-- The start time that `ps` gives now decides, where both are known.
abbrev pub start_agrees : Bool → Option Text → Option Text → Bool
start_agrees young none now = young
start_agrees young (some started) none = young
start_agrees young (some started) (some now) = text_eq now started

unfoldable pub holds : LockContent → LockDeps → Bool
holds seen deps = elim (seen.pid) [
  | none ↦ false
  | some pid ↦
      if pid == deps.me.pid || not (is_alive deps.signal pid)
      then false
      else start_agrees (after_boot seen deps) seen.started (deps.process_start pid)
]
