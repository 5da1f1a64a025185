-- ===== src/Notify/Lock/Take.antt =====
-- crates/tagents-core/src/notify/lock.rs: taking the lock and giving it back.
use tagents.Prelude.{
  ℕ, zero, suc, ◌+◌, ◌-◌, ◌/◌, ◌%◌, ◌^◌, Bool, true, false, not, ◌&&◌, ◌||◌, Option, none, some,
  List, [], ◌∷◌, ◌++◌, leb, ltb, ◌==◌, length, if◌then◌else◌,
}
use tagents.Text.{
  Text, word, is_empty, is_ascii_digit, all_chars, starts_with, take, text_eq, number_text,
}
use tagents.Text.Pieces.{drop, split_once}
use tagents.Exec.{
  Exec, Result, ok, err, pure, gets, modify, ◌>>=◌, ◌>>◌, when, case_of, case_result,
}
use tagents.Node.{IoError, ErrorKind, already_exists, not_found, other_kind, io_message}
use tagents.Notify.Lock.{
  LockHolder, LockResult, taken, held, LockDeps, LockContent, render, parse_u64, content_of,
  is_alive, holds,
}
use tagents.Notify.Lock.Disk.{
  World, metadata, read, create_new, write_all, hard_link, remove_file, read_dir,
}

-- `read_lock`: the time of one call and the text of another.
unfoldable pub read_lock : Text → Exec World (Option LockContent)
read_lock file = do
  time ← metadata file
  case_of time (pure none) (λ mtime. do
    text ← read file
    case_of text (pure none) (λ raw. pure (some (content_of mtime raw))))

-- `{:08x}` of a number
abbrev hex_digit : ℕ → ℕ
hex_digit d = if ltb d 10 then b'0' + d else b'a' + (d - 10)

unfoldable pub hex : ℕ → ℕ → Text → Text
hex zero n tail = tail
hex (suc width) n tail = hex width (n / 16) (hex_digit (n % 16) ∷ tail)

-- `temp_suffix`, with what the seeded hasher makes of the count.
unfoldable pub temp_suffix : (ℕ → ℕ) → Exec World Text
temp_suffix hash = do
  n ← gets (λ w. w.temp_count)
  modify (λ w. record w { temp_count = w.temp_count + 1 })
  pure (hex 8 (hash n % 2 ^ 32) [])

unfoldable pub temp_name : Text → ℕ → Text → Text
unfolding word
temp_name file pid suffix = file ++ (b'.' ∷ (number_text pid ++ (b'.' ∷ (suffix ++ word ".tmp"))))

-- `Failed`: the error, the call and its path.
abbrev pub Failed : Type 0
Failed = Option (IoError × Text × Text)

abbrev pub failed : Text → Text → Option IoError → Failed
failed call path none = none
failed call path (some error) = some (error, call, path)

unfoldable pub write_new : Text → Text → Exec World Failed
write_new tmp text = do
  made ← create_new tmp
  case_of made (do written ← write_all tmp text; pure (failed (word "write") tmp written))
      (λ error. pure (some (error, word "open", tmp)))

abbrev pub is_there : ErrorKind → Bool
is_there already_exists = true
is_there not_found = false
is_there other_kind = false

abbrev pub made_of : Failed → Result Text Bool
made_of none = ok true
made_of (some (error, call, path)) =
    if is_there error.kind then ok false else err (io_message error call (some path))

unfoldable pub create_lock : (ℕ → ℕ) → Text → LockHolder → Exec World (Result Text Bool)
create_lock hash file me = do
  suffix ← temp_suffix hash
  let tmp = temp_name file me.pid suffix
  written ← write_new tmp (render me)
  made ←
      (case_of written
        (do
          there ← hard_link tmp file
          pure (failed (word "link") (tmp ++ (word "' -> '" ++ file)) there))
        (λ why. pure (some why)))
  _ ← remove_file tmp
  pure (made_of made)

-- The digits of a temp file's name, if it is one that `create_lock` makes.
abbrev hex_lower : ℕ → Bool
hex_lower c = is_ascii_digit c || (leb b'a' c && leb c b'f')

abbrev ends_in_tmp : Text → Bool
ends_in_tmp name = leb 4 (length name) && text_eq (drop (length name - 4) name) (word ".tmp")

unfoldable pub middle_of : Text → Text → Option Text
unfolding starts_with drop take text_eq word
middle_of base name =
    if not (starts_with base name)
      || not (starts_with (b'.' ∷ []) (drop (length base) name))
      || not (ends_in_tmp name)
    then none
    else if leb (length base + 1) (length name - 4)
    then some (take (length name - 4 - (length base + 1)) (drop (length base + 1) name))
    else none

unfoldable pub temp_pid : Text → Text → Option Text
unfolding middle_of split_once all_chars
temp_pid base name = elim (middle_of base name) [
  | none ↦ none
  | some middle ↦ elim (split_once b'.' middle) [
    | none ↦ none
    | some (digits, suffix) ↦
        if not (is_empty digits)
          && all_chars is_ascii_digit digits
          && length suffix == 8
          && all_chars hex_lower suffix
        then some digits
        else none
  ]
]

abbrev temp_max_age_ms : ℕ
temp_max_age_ms = 60000

abbrev pub gone : LockDeps → Text → Bool
gone deps digits = elim (parse_u64 digits) [
  | none ↦ true
  | some pid ↦ not (is_alive deps.signal pid)
]

abbrev pub old : ℕ → Option ℕ → Bool
old now none = false
old now (some mtime) = ltb (mtime + temp_max_age_ms) now

unfoldable pub sweep_names : LockDeps → Text → ℕ → List Text → Exec World (Unit {0})
sweep_names deps base now [] = pure tt
sweep_names deps base now (name ∷ names) = do
  case_of (temp_pid base name) (pure tt) (λ digits.
      if gone deps digits
      then remove_file name >> pure tt
      else (do time ← metadata name; when (old now time) (remove_file name >> pure tt)))
  sweep_names deps base now names

unfoldable pub sweep_temp_locks : LockDeps → Text → Exec World (Unit {0})
sweep_temp_locks deps file = do
  names ← read_dir
  case_of names (pure tt) (λ all. do now ← gets (λ w. w.now_ms); sweep_names deps file now all)

abbrev pub removed_of : Text → Option IoError → Result Text (Unit {0})
removed_of file none = ok tt
removed_of file (some error) = elim (error.kind) [
  | not_found ↦ ok tt
  | already_exists ↦ err (io_message error (word "unlink") (some file))
  | other_kind ↦ err (io_message error (word "unlink") (some file))
]

-- `remove`
unfoldable pub remove_lock : Text → Exec World (Result Text (Unit {0}))
remove_lock file = do refused ← remove_file file; pure (removed_of file refused)

abbrev pub same_raw : LockContent → Option LockContent → Bool
same_raw seen none = false
same_raw seen (some now) = text_eq now.raw seen.raw

-- `take_lock` behind the sweep, with the tries that are left.
unfoldable pub take_rounds : (ℕ → ℕ) → LockDeps → Text → ℕ → Exec World (Result Text LockResult)
take_rounds hash deps file zero =
    pure (err (word "cannot take " ++ (file ++ word ": another process keeps recreating it")))
take_rounds hash deps file (suc tries) = do
  made ← create_lock hash file deps.me
  case_result made (λ why. pure (err why))
      (λ done. if done then pure (ok taken) else (do
        found ← read_lock file
        case_of found (take_rounds hash deps file tries) (λ seen.
            case_of (if holds seen deps then seen.pid else none)
              (do
                again ← read_lock file
                removed ← (if same_raw seen again then remove_lock file else pure (ok tt))
                case_result removed (λ why. pure (err why)) (λ _. take_rounds hash deps file tries))
              (λ holder. pure (ok (held holder))))))

abbrev pub lock_tries : ℕ
lock_tries = 3

unfoldable pub take_lock : (ℕ → ℕ) → LockDeps → Text → Exec World (Result Text LockResult)
take_lock hash deps file = do sweep_temp_locks deps file; take_rounds hash deps file lock_tries

abbrev pub is_me : ℕ → Option ℕ → Bool
is_me me none = false
is_me me (some pid) = pid == me

-- `release_lock`, by the process `me`.
unfoldable pub release_lock : ℕ → Text → Exec World (Result Text (Unit {0}))
release_lock me file = do
  found ← read_lock file
  (if is_me me (elim found [ none ↦ none | some seen ↦ seen.pid ])
      then remove_lock file
      else pure (ok tt))
