-- ===== src/Notify/Lock/Alone/Exclusion.antt =====
-- crates/tagents-core/src/notify/lock.rs: the proofs on two daemons that take the lock one after the other.
use tagents.Prelude.{
  ℕ, ◌+◌, ◌≤◌, ◌≡◌, refl, ap, ◌∙◌, true, false, none, some, List, leb, ◌==◌, if◌then◌else◌,
  Bool-cases, Option-cases, inl, inr,
}
use tagents.Text.{Text, text_eq, text_eq_iff}
use tagents.Dict
use tagents.Dict.{get-remove}
use tagents.Exec.{ok, pure}
use tagents.Exec.Gives.{run-bind}
use tagents.Notify.Lock.{
  LockHolder, taken, held, LockDeps, LockContent, content_of, holds, is_alive, render, start_agrees,
}
use tagents.Notify.Lock.Disk.{File, Disk, Act}
use tagents.Notify.Lock.Take.{is_me, read_lock, remove_lock, take_lock, release_lock}
use tagents.Notify.Lock.Written.{IsStart, content_of-render}
use tagents.Notify.Lock.Alone.{alone, file_of, read_lock-there, read_lock-absent, remove_lock-there}
use tagents.Notify.Lock.Alone.Fate.{tmp_at, holder_of, fate, fate_of, take_lock-fate}

-- What `deps` can find out of the process that wrote a lock: it is another one, it lives, and its start time is
-- the written one; where one of the two is not known, the lock is not older than the last boot.
abbrev pub IsRival : LockDeps → LockHolder → ℕ → Type 0
IsRival deps rival written =
    ((rival.pid == deps.me.pid) ≡ false)
    × (is_alive deps.signal rival.pid ≡ true)
    × (start_agrees (leb deps.boot_ms written) rival.started (deps.process_start rival.pid) ≡ true)

-- A lock that such a process wrote is held by it.
render-holds :
    (deps : LockDeps) (rival : LockHolder) (written : ℕ)
    → 1 ≤ rival.pid
    → rival.pid ≤ 9007199254740991
    → IsStart rival.started
    → IsRival deps rival written
    → holder_of deps (file_of (render rival) written) ≡ some rival.pid
unfolding holds
render-holds deps rival written some_pid safe start is_rival =
    let read_back = content_of-render rival written some_pid safe start in
    named (content_of written (render rival)) read_back.0 read_back.1
      (written_at written (render rival))
  where
    written_at : (now : ℕ) (raw : Text) → (content_of now raw).mtime_ms ≡ now
    written_at now raw = unfold content_of in refl

    named :
        (seen : LockContent)
        → seen.pid ≡ some rival.pid
        → seen.started ≡ rival.started
        → seen.mtime_ms ≡ written
        → (if holds seen deps then seen.pid else none) ≡ some rival.pid
    named seen pid started time =
        let holding : holds seen deps ≡ true =
          rw (holds, pid, is_rival.0, is_rival.1, started, time) is_rival.2 in
        rw holding pid

-- Two daemons try to take the lock one after the other, each with no other process about, with no call refused by
-- the system, and with two free names for its temp files. The lock is free at first, and the second finds the
-- lock file as the first left it. The pid of the first lies between 1 and 2^53 - 1, its start time is not known
-- or is one line without white space at its ends, and the second finds the first to be another process that runs and that started
-- at the time in the lock (or, if a start time is not known, a lock not older than the last boot). Then the
-- first takes the lock, the second is told the pid of the first, and the lock file stays as the first wrote it.
pub take_lock-take_lock :
    (hash : ℕ → ℕ) (first second : LockDeps) (file : Text) (d : Disk) (now count : ℕ)
    (acts : List Act) (d2 : Disk) (now2 count2 : ℕ) (acts2 : List Act)
    → Dict.get file d ≡ none
    → Dict.get (tmp_at hash first file count) d ≡ none
    → Dict.get (tmp_at hash first file (count + 1)) d ≡ none
    → Dict.get file d2 ≡ Dict.get file (take_lock hash first file (alone d now count acts)).1.disk
    → Dict.get (tmp_at hash second file count2) d2 ≡ none
    → Dict.get (tmp_at hash second file (count2 + 1)) d2 ≡ none
    → 1 ≤ first.me.pid
    → first.me.pid ≤ 9007199254740991
    → IsStart first.me.started
    → IsRival second first.me now
    → let again = take_lock hash second file (alone d2 now2 count2 acts2) in
      ((take_lock hash first file (alone d now count acts)).0 ≡ ok taken)
      × (again.0 ≡ ok (held first.me.pid))
      × (Dict.get file again.1.disk ≡ some (file_of (render first.me) now))
take_lock-take_lock hash first second file d now count acts d2 now2 count2 acts2 absent free1 free2
      same free3 free4 some_pid safe start rival =
    let one =
      take_lock-fate hash first file d now count acts free1 free2
      ∙ ap (λ o. fate first now o) absent in
    let there : Dict.get file d2 ≡ some (file_of (render first.me) now) =
      same ∙ ap (λ r. r.1) one in
    let held_by = render-holds second first.me now some_pid safe start rival in
    let two =
      take_lock-fate hash second file d2 now2 count2 acts2 free3 free4
      ∙ ap (λ o. fate second now2 o) there
      ∙ ap (fate_of second now2 (file_of (render first.me) now)) held_by in
    (ap (λ r. r.0) one, ap (λ r. r.0) two, ap (λ r. r.1) two)

-- `release_lock` with no other process about and no call refused: it removes the lock file if it names `me`,
-- leaves it otherwise, and has no error.
pub release_lock_lem :
    (me : ℕ) (file : Text) (d : Disk) (now count : ℕ) (acts : List Act)
    → let r = release_lock me file (alone d now count acts) in
      (r.0 ≡ ok tt)
      × (Dict.get file r.1.disk ≡ elim (Dict.get file d) [
        | none ↦ none
        | some c ↦ if is_me me (content_of c.mtime_ms c.raw).pid then none else some c
      ])
unfolding release_lock pure
release_lock_lem me file d now count acts = elim (Option-cases (Dict.get file d)) [
  | inl absent ↦
      let run =
        run-bind (read_lock file) _ (alone d now count acts) none (alone d now count acts)
          (read_lock-absent d now count acts file absent) in
      (ap (λ r. r.0) run, ap (λ r. Dict.get file r.1.disk) run ∙ rw absent refl)
  | inr (c, there) ↦
      let run =
        run-bind (read_lock file) _ (alone d now count acts) (some (content_of c.mtime_ms c.raw))
          (alone d now count acts) (read_lock-there d now count acts file c there) in
      let rest = judged c there in
      (ap (λ r. r.0) run ∙ rest.0, ap (λ r. Dict.get file r.1.disk) run ∙ rest.1 ∙ rw there refl)
]
  where
    judged :
        (c : File)
        → Dict.get file d ≡ some c
        → let r =
            (if is_me me (content_of c.mtime_ms c.raw).pid then remove_lock file else pure (ok tt))
              (alone d now count acts) in
          (r.0 ≡ ok tt)
          × (Dict.get file r.1.disk
              ≡ (if is_me me (content_of c.mtime_ms c.raw).pid then none else some c))
    judged c there = elim (Bool-cases (is_me me (content_of c.mtime_ms c.raw).pid)) [
      | inl own ↦
          let run = remove_lock-there d now count acts file c there in
          let self : text_eq file file ≡ true = (text_eq_iff file file).1 refl in
          rw own (
            ap (λ r. r.0) run,
            ap (λ r. Dict.get file r.1.disk) run ∙ get-remove file file d ∙ rw self refl,
          )
      | inr other ↦ rw other (refl, there)
    ]
