-- ===== src/Notify/Follower.antt =====
-- crates/tagents-core/src/notify/events.rs: the follower of `events.tsv`, over a disk.
use tagents.Prelude.{
  ℕ, zero, suc, ◌+◌, ◌-◌, min, Bool, true, false, ◌&&◌, ◌||◌, not, Option, none, some, List, [],
  ◌∷◌, ◌++◌, length, leb, ltb, ◌==◌, if◌then◌else◌,
}
use tagents.Text.{Text, word, split}
use tagents.Utf8.{Bytes, from_utf8_lossy}
use tagents.Exec.{
  Exec, Result, ok, err, pure, gets, modify, ◌>>=◌, ◌>>◌, when, case_of, case_result,
}
use tagents.Notify.Event.{AgentEvent, parse_event_line}
use tagents.Notify.Engine.{Delivery}
pub mod Drain
pub mod Calls
pub mod Ending
pub mod Count
pub mod Chunks
pub mod Pumped
pub mod Whole

-- `CHUNK_BYTES`, `ROTATE_BYTES` and `ROTATE_GRACE_MS`
abbrev pub chunk_bytes : ℕ
chunk_bytes = 65_536

abbrev pub rotate_grace_ms : ℕ
rotate_grace_ms = 2000

-- What the follower asks of the operating system about the file of its directory, with the error's text
-- where it fails; a `read_at` that was interrupted has been tried again. `open_file` makes the directory and
-- the file where they are missing, and gives the file with its inode and its size. `dir_key` is the
-- directory by its own name, and `set_events_on` makes and removes the file that tells the hook to write.
-- `number` is `js::number`.
pub record Disk (W : Type 0) : Type 0 where
  pub open_file : W → Result Text (ℕ × ℕ × ℕ) × W
  pub size : ℕ → W → Result Text ℕ × W
  pub read_at : ℕ → ℕ → ℕ → W → Result Text Bytes × W
  pub named_inode : W → Option ℕ × W
  pub rename : W → Result Text (Unit {0}) × W
  pub arm : W → Result Text (Unit {0}) × W
  pub arm_dir : W → Result Text (Unit {0}) × W
  pub dir_key : W → Text × W
  pub set_events_on : Bool → W → Result Text (Unit {0}) × W
  pub number : Text → Option ℕ

-- An open file and how far into it the follower has read.
pub record Cursor : Type 0 where
  pub file : ℕ
  pub ino : ℕ
  pub offset : ℕ
  pub rest : Bytes

pub record Grace : Type 0 where
  pub cursor : Cursor
  pub due : ℕ

pub record Inner : Type 0 where
  pub cur : Cursor
  pub grace : Option Grace
  pub rotate_bytes : ℕ

-- The bytes before and behind the last newline.
unfoldable pub cut : Bytes → Option (Bytes × Bytes)
cut [] = none
cut (b ∷ bytes) = elim (cut bytes) [
  | some (before, after) ↦ some (b ∷ before, after)
  | none ↦ if b == 0xa then some ([], bytes) else none
]

unfoldable pub parsed_lines : (Text → Option ℕ) → List Text → List AgentEvent
parsed_lines number [] = []
parsed_lines number (line ∷ lines) =
    let rest = parsed_lines number lines in
    elim (parse_event_line number line) [ none ↦ rest | some e ↦ e ∷ rest ]

-- The events of whole lines.
unfoldable pub events_in : (Text → Option ℕ) → Bytes → List AgentEvent
unfolding parsed_lines
events_in number bytes = parsed_lines number (split 0xa (from_utf8_lossy bytes))

-- What a chunk adds to the bytes behind the last newline: the events of the lines that are whole now, and
-- the bytes that are left.
unfoldable pub gained : (Text → Option ℕ) → Bytes → Bytes → List AgentEvent × Bytes
unfolding cut events_in
gained number rest chunk = elim (cut (rest ++ chunk)) [
  | none ↦ ([], rest ++ chunk)
  | some (before, after) ↦ (events_in number before, after)
]

-- A pump under way: the file that is read, the events so far and the disk.
pub record Pumping (W : Type 0) : Type 0 where
  pub cursor : Cursor
  pub events : List AgentEvent
  pub world : W

module _ {W A : Type 0} where
  unfoldable pub disk : (W → A × W) → Exec (Pumping W) A
  disk f s = ((f s.world).0, record s { world = (f s.world).1 })

abbrev pub is_nil : Bytes → Bool
is_nil [] = true
is_nil (_ ∷ _) = false

unfoldable pub take_in : {W : Type 0} → (Text → Option ℕ) → Bytes → Pumping W → Pumping W
unfolding gained
take_in number chunk s =
    let more = gained number s.cursor.rest chunk in
    record s {
      cursor = record s.cursor { offset = s.cursor.offset + length chunk; rest = more.1 };
      events = s.events ++ more.0;
    }

module _ {W : Type 0} (d : Disk W) where
  -- The loop of `pump`. Every round but the last one reads a byte at least, so the bytes that are left
  -- bound the rounds.
  unfoldable pub read_chunks : ℕ → ℕ → Exec (Pumping W) (Result Text (Unit {0}))
  read_chunks zero size = pure (ok tt)
  read_chunks (suc fuel) size = do
    cursor ← gets (λ s. s.cursor)
    if not (ltb cursor.offset size) then pure (ok tt) else do
      read ← disk (d.read_at cursor.file cursor.offset (min (size - cursor.offset) chunk_bytes))
      case_result read (λ why. pure (err why))
          (λ chunk.
            if is_nil chunk
            then pure (ok tt)
            else do modify (take_in d.number chunk); read_chunks fuel size)

  -- A file that is shorter than what was read of it is read from its start.
  unfoldable pub restart : ℕ → Pumping W → Pumping W
  restart size s =
      if ltb size s.cursor.offset
      then record s { cursor = record s.cursor { offset = 0; rest = [] } }
      else s

  unfoldable pub pump : Exec (Pumping W) (Result Text (Unit {0}))
  pump = do
    cursor ← gets (λ s. s.cursor)
    size ← disk (d.size cursor.file)
    case_result size (λ why. pure (err why))
        (λ size. do modify (restart size); read_chunks size size)
