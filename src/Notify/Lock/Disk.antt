-- ===== src/Notify/Lock/Disk.antt =====
-- The directory of the lock file and the system calls on it. Other processes change the directory too: what
-- they do before each call, how long that takes, and whether the call fails, is what the world has in store.
use tagents.Prelude.{ℕ, ◌+◌, ◌++◌, Option, none, some, List, [], ◌∷◌, map}
use tagents.Text.{Text, word}
use tagents.Dict
use tagents.Dict.{Dict}
use tagents.Exec.{Exec, pure, gets, modify, ◌>>=◌, ◌>>◌, case_of}
use tagents.Node.{IoError, already_exists, not_found}

pub record File : Type 0 where
  pub raw : Text
  pub mtime_ms : ℕ

-- The files by their names in the directory.
abbrev pub Disk : Type 0
Disk = Dict File

-- What happens before a call, and with what error the system refuses it.
pub record Turn : Type 0 where
  pub others : Disk → Disk
  pub later : ℕ
  pub fault : Option IoError

-- What a call did to the directory.
pub data Act : Type 0 where
  linked unlinked : Text → Act

-- The directory with the time, the turns that are to come, `TEMP_COUNT`, and what this process has done.
pub record World : Type 0 where
  pub disk : Disk
  pub now_ms : ℕ
  pub turns : List Turn
  pub temp_count : ℕ
  pub acts : List Act

abbrev pub exists_error : IoError
exists_error = record {
  kind = already_exists;
  raw_os_error = some 17;
  to_string = word "File exists (os error 17)";
}

abbrev pub missing_error : IoError
missing_error = record {
  kind = not_found;
  raw_os_error = some 2;
  to_string = word "No such file or directory (os error 2)";
}

-- The next turn comes; it says whether the call is refused.
abbrev pub next_turn : List Turn → Exec World (Option IoError)
next_turn [] w = (none, record w { turns = [] })
next_turn (t ∷ ts) w =
    (t.fault, record w { disk = t.others w.disk; now_ms = w.now_ms + t.later; turns = ts })

unfoldable pub turn : Exec World (Option IoError)
turn w = next_turn w.turns w

abbrev pub file_at : Text → World → Option File
file_at name w = Dict.get name w.disk

-- `fs::metadata(file).ok()`, of which the time
unfoldable pub metadata : Text → Exec World (Option ℕ)
metadata name = do
  refused ← turn
  case_of refused
      (do file ← gets (file_at name); case_of file (pure none) (λ f. pure (some f.mtime_ms)))
      (λ error. pure none)

-- `fs::read(file).ok()`, in UTF-8
unfoldable pub read : Text → Exec World (Option Text)
read name = do
  refused ← turn
  case_of refused (do file ← gets (file_at name); case_of file (pure none) (λ f. pure (some f.raw)))
      (λ error. pure none)

abbrev pub put : Text → Text → World → World
put name text w = record w {
  disk = Dict.insert name (record { raw = text; mtime_ms = w.now_ms }) w.disk;
}

-- The calls that change the directory give the error, if there is one.
abbrev pub refuse : IoError → Exec World (Option IoError)
refuse error = pure (some error)

abbrev pub done : Exec World (Option IoError)
done = pure none

-- A call that changes the directory, unless the system refuses it.
abbrev pub call : Exec World (Option IoError) → Exec World (Option IoError)
call body = turn >>= λ refused. case_of refused body refuse

abbrev pub on_file :
    Text
    → Exec World (Option IoError)
    → (File → Exec World (Option IoError))
    → Exec World (Option IoError)
on_file name absent present = gets (file_at name) >>= λ file. case_of file absent present

abbrev pub change : (World → World) → Exec World (Option IoError)
change f = modify f >> done

-- `OpenOptions::new().write(true).create_new(true).open(file)`
unfoldable pub create_new : Text → Exec World (Option IoError)
create_new name = call (on_file name (change (put name [])) (λ there. refuse exists_error))

-- `out.write_all(text)` of a file that is empty: nothing is to be seen of it once the file is removed.
unfoldable pub write_all : Text → Text → Exec World (Option IoError)
write_all name text = call (on_file name done (λ open_file. change (put name text)))

abbrev pub link_to : Text → File → World → World
link_to name f w = record w {
  disk = Dict.insert name f w.disk;
  acts = w.acts ++ (linked name ∷ []);
}

-- `fs::hard_link(from, to)`: no later call writes to either.
unfoldable pub hard_link : Text → Text → Exec World (Option IoError)
hard_link from to = call (
    on_file from (refuse missing_error)
      (λ f. on_file to (change (link_to to f)) (λ there. refuse exists_error)))

abbrev pub take_away : Text → World → World
take_away name w = record w {
  disk = Dict.remove name w.disk;
  acts = w.acts ++ (unlinked name ∷ []);
}

-- `fs::remove_file(file)`
unfoldable pub remove_file : Text → Exec World (Option IoError)
remove_file name = call (on_file name (refuse missing_error) (λ f. change (take_away name)))

abbrev pub names_in : World → Option (List Text)
names_in w = some (map (λ e. e.0) w.disk)

-- `fs::read_dir(dir)`, of which the names
unfoldable pub read_dir : Exec World (Option (List Text))
read_dir = do refused ← turn; case_of refused (gets names_in) (λ error. pure none)
