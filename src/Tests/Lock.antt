-- ===== src/Tests/Lock.antt =====
-- crates/tagents-core/src/notify/lock.rs: each theorem at one directory, and runs of `take_lock`.
use tagents.Prelude.{
  ℕ, ◌≡◌, refl, sym, ap, ◌∙◌, true, Option, none, some, [], ◌∷◌, ◌==◌, ◌⊎◌, arith, if◌then◌else◌,
}
use tagents.Text.{Text, word}
use tagents.Dict
use tagents.Exec.{ok, err}
use tagents.Node.{IoError, other_kind}
use tagents.Notify.Lock.{
  LockHolder, LockResult, taken, held, LockDeps, Signal, reached, missing, content_of, holds,
  render,
}
use tagents.Notify.Lock.Disk.{File, Disk, World}
use tagents.Notify.Lock.Take.{is_me, take_lock, release_lock}
use tagents.Notify.Lock.Written.{IsStart}
use tagents.Notify.Lock.Kept.{take_lock_keeps_held}
use tagents.Notify.Lock.Alone.{alone, file_of}
use tagents.Notify.Lock.Alone.Fate.{fate, take_lock-fate}
use tagents.Notify.Lock.Alone.Exclusion.{IsRival, take_lock-take_lock}

abbrev lock : Text
lock = b'l' ∷ []

abbrev hash : ℕ → ℕ
hash n = n

abbrev holder : LockHolder
holder = record { pid = 5; started = some (b'T' ∷ b'2' ∷ []) }

-- The process 5 runs, since T2, and no other does.
abbrev signal : ℕ → Signal
signal pid = if pid == 5 then reached else missing

abbrev process_start : ℕ → Option Text
process_start pid = if pid == 5 then some (b'T' ∷ b'2' ∷ []) else none

abbrev deps_of : LockHolder → LockDeps
deps_of me = record { me = me; boot_ms = 100; process_start = process_start; signal = signal }

abbrev deps : LockDeps
deps = deps_of (record { pid = 7; started = none })

-- "5 T2\n"
abbrev held_file : File
held_file = file_of (b'5' ∷ b' ' ∷ b'T' ∷ b'2' ∷ b'\n' ∷ []) 90

abbrev held_disk : Disk
held_disk = (lock, held_file) ∷ []

holder-IsStart : IsStart holder.started
unfolding tagents.Text.is_space tagents.Text.trim_end tagents.Text.all_chars
holder-IsStart = (refl, refl, refl)

-- The first call is refused, and another process adds a file before the second.
abbrev broken : IoError
broken = record { kind = other_kind; raw_os_error = some 5; to_string = [] }

abbrev busy : World
busy = record {
  disk = held_disk;
  now_ms = 200;
  turns =
      record { others = λ d. d; later = 3; fault = some broken }
      ∷ record { others = λ d. Dict.insert (b'z' ∷ []) (file_of [] 0) d; later = 1; fault = none }
      ∷ [];
  temp_count = 0;
  acts = [];
}

held_file-names : (content_of 90 (held_file.raw)).pid ≡ some 5
unfolding content_of tagents.Text.all_chars tagents.Json.Order.digits_value
held_file-names = refl

holding : holds (content_of 90 (held_file.raw)) deps ≡ true
unfolding holds content_of tagents.Notify.Lock.is_alive tagents.Text.text_eq tagents.Text.all_chars
    tagents.Json.Order.digits_value
holding = refl

take_lock_keeps_held_example :
    (Dict.get lock (take_lock hash deps lock busy).1.disk ≡ some held_file)
    × (((take_lock hash deps lock busy).0 ≡ ok (held 5))
        ⊎ ((why : Text) × ((take_lock hash deps lock busy).0 ≡ err why)))
take_lock_keeps_held_example =
    take_lock_keeps_held hash deps lock held_file 5 busy
      (unfold Dict.get tagents.Text.text_eq in refl) ((λ d h. h), ((λ d h. other_file d h), tt))
      held_file-names holding
  where
    other_file :
        (d : Disk)
        → Dict.get lock d ≡ some held_file
        → Dict.get lock (Dict.insert (b'z' ∷ []) (file_of [] 0) d) ≡ some held_file
    other_file d h =
        Dict.get-insert (b'z' ∷ []) lock (file_of [] 0) d ∙ unfold tagents.Text.text_eq in h

take_lock-fate_example :
    (
      (take_lock hash deps lock (alone held_disk 200 0 [])).0,
      Dict.get lock (take_lock hash deps lock (alone held_disk 200 0 [])).1.disk,
    )
    ≡ fate deps 200 (Dict.get lock held_disk)
take_lock-fate_example =
    take_lock-fate hash deps lock held_disk 200 0 []
      (unfold tagents.Notify.Lock.Take.temp_name Dict.get tagents.Text.text_eq in refl)
      (unfold tagents.Notify.Lock.Take.temp_name Dict.get tagents.Text.text_eq in refl)

abbrev first : LockDeps
first = deps_of holder

-- The process 5 takes the lock, and the process 7 comes after it.
abbrev taken_disk : Disk
taken_disk = (lock, file_of (render holder) 150) ∷ []

now_there :
    Dict.get lock taken_disk ≡ Dict.get lock (take_lock hash first lock (alone [] 150 0 [])).1.disk
unfolding Dict.get tagents.Text.text_eq
now_there = sym (ap (λ r. r.1) (take_lock-fate hash first lock [] 150 0 [] refl refl))

holder-IsRival : IsRival deps holder 150
unfolding tagents.Notify.Lock.is_alive tagents.Text.text_eq
holder-IsRival = (refl, refl, refl)

take_lock-take_lock_example :
    let again = take_lock hash deps lock (alone taken_disk 200 4 []) in
    ((take_lock hash first lock (alone [] 150 0 [])).0 ≡ ok taken)
    × (again.0 ≡ ok (held 5))
    × (Dict.get lock again.1.disk ≡ some (file_of (render holder) 150))
unfolding Dict.get tagents.Text.text_eq tagents.Notify.Lock.Take.temp_name
take_lock-take_lock_example =
    take_lock-take_lock hash first deps lock [] 150 0 [] taken_disk 200 4 [] refl refl refl
      now_there refl refl (omega arith) (omega arith) holder-IsStart holder-IsRival
