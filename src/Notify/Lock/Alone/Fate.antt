-- ===== src/Notify/Lock/Alone/Fate.antt =====
-- crates/tagents-core/src/notify/lock.rs: the proofs on what `take_lock` leaves when no other process is about and no call
-- is refused.
use tagents.Prelude.{
  ℕ, suc, ◌+◌, ◌%◌, ◌^◌, ◌≡◌, refl, sym, ap, ◌∙◌, true, false, Option, none, some, List, [], ◌∷◌,
  ◌++◌, if◌then◌else◌, Bool-cases, Option-cases, inl, inr, subst,
}
use tagents.Text.{Text, text_eq, text_eq_iff}
use tagents.Dict
use tagents.Dict.{get-insert, get-remove}
use tagents.Exec.{Exec, Result, ok, pure, gets, modify, ◌>>=◌}
use tagents.Exec.Gives.{Gives, Gives-bind, Gives-case, Gives-pure, Gives-gets, Gives-if, run-bind}
use tagents.Notify.Lock.{LockResult, taken, held, LockDeps, content_of, holds, render}
use tagents.Notify.Lock.Disk.{
  File, Disk, World, Act, unlinked, turn, metadata, remove_file, read_dir,
}
use tagents.Notify.Lock.Take.{
  read_lock, hex, temp_suffix, temp_name, create_lock, remove_lock, same_raw, take_rounds,
  sweep_names, sweep_temp_locks, temp_pid, gone, old, take_lock,
}
use tagents.Notify.Lock.Kept.{text_eq-temp_name, temp_pid-other}
use tagents.Notify.Lock.Alone.{
  alone, file_of, staged, creating, creating-free, creating-there, read_lock-there, taken_disk-lock,
  left_disk-get, remove_lock-there,
}

-- Whom the lock names, if it is held.
abbrev pub holder_of : LockDeps → File → Option ℕ
holder_of deps c =
    let seen = content_of c.mtime_ms c.raw in if holds seen deps then seen.pid else none

abbrev pub fate_of : LockDeps → ℕ → File → Option ℕ → Result Text LockResult × Option File
fate_of deps now c none = (ok taken, some (file_of (render deps.me) now))
fate_of deps now c (some pid) = (ok (held pid), some c)

-- The result and the lock file that are left, from the lock file that is there.
abbrev pub fate : LockDeps → ℕ → Option File → Result Text LockResult × Option File
fate deps now none = (ok taken, some (file_of (render deps.me) now))
fate deps now (some c) = fate_of deps now c (holder_of deps c)

module _ (hash : ℕ → ℕ) (deps : LockDeps) (file : Text) where
  -- The name of the next temp file.
  abbrev pub tmp_at : ℕ → Text
  tmp_at count = temp_name file deps.me.pid (hex 8 (hash count % 2 ^ 32) [])

  abbrev EndsAs : Result Text LockResult × Option File → Result Text LockResult × World → Type 0
  EndsAs f r = (r.0, Dict.get file r.1.disk) ≡ f

  create_lock-creating :
      (d : Disk) (now count : ℕ) (acts : List Act)
      → create_lock hash file deps.me (alone d now count acts)
        ≡ creating file deps.me
            (tmp_at count)
            (text_eq-temp_name file deps.me.pid _)
            (alone d now (count + 1) acts)
  unfolding create_lock
  create_lock-creating d now count acts =
      run-bind (temp_suffix hash) _ (alone d now count acts) (hex 8 (hash count % 2 ^ 32) [])
        (alone d now (count + 1) acts) (named d now count acts)
    where
      named :
          (d : Disk) (now count : ℕ) (acts : List Act)
          → temp_suffix hash (alone d now count acts)
            ≡ (hex 8 (hash count % 2 ^ 32) [], alone d now (count + 1) acts)
      named d now count acts = unfold temp_suffix ◌>>=◌ in refl

  rounds-free :
      (tries : ℕ) (d : Disk) (now count : ℕ) (acts : List Act)
      → Dict.get (tmp_at count) d ≡ none
      → Dict.get file d ≡ none
      → EndsAs
          (fate deps now none)
          (take_rounds hash deps file (suc tries) (alone d now count acts))
  unfolding take_rounds pure
  rounds-free tries d now count acts free absent =
      let other = text_eq-temp_name file deps.me.pid (hex 8 (hash count % 2 ^ 32) []) in
      let tmp = tmp_at count in
      let made =
        create_lock-creating d now count acts
        ∙ creating-free file deps.me tmp other d now (count + 1) acts free absent in
      let run =
        run-bind (create_lock hash file deps.me) _ (alone d now count acts) (ok true) _ made in
      ap (λ r. (r.0, Dict.get file r.1.disk)) run
      ∙ ap (λ o. (ok taken, o)) (taken_disk-lock file deps.me tmp other d now)

  -- The directory behind a link that met a lock.
  abbrev left : Disk → ℕ → ℕ → Disk
  left d now count =
      Dict.remove (tmp_at count)
        (staged file deps.me (tmp_at count) (text_eq-temp_name file deps.me.pid _) now d)

  left-lock :
      (d : Disk) (now count : ℕ) (c : File)
      → Dict.get file d ≡ some c
      → Dict.get file (left d now count) ≡ some c
  left-lock d now count c there =
      let other = text_eq-temp_name file deps.me.pid (hex 8 (hash count % 2 ^ 32) []) in
      left_disk-get file deps.me (tmp_at count) other d now file ∙ rw other there

  left-free :
      (d : Disk) (now count : ℕ) (name : Text)
      → Dict.get name d ≡ none
      → Dict.get name (left d now count) ≡ none
  left-free d now count name free =
      left_disk-get file deps.me (tmp_at count) (text_eq-temp_name file deps.me.pid _) d now name
      ∙ elim (Bool-cases (text_eq (tmp_at count) name)) [
        | inl same ↦ rw same refl
        | inr other_name ↦ rw other_name free
      ]

  still_free :
      (gone_name name : Text) (d : Disk)
      → Dict.get name d ≡ none
      → Dict.get name (Dict.remove gone_name d) ≡ none
  still_free gone_name name d h =
      get-remove gone_name name d ∙ elim (Bool-cases (text_eq gone_name name)) [
        | inl same ↦ rw same refl
        | inr other ↦ rw other h
      ]

  create_lock-there :
      (d : Disk) (now count : ℕ) (acts : List Act) (c : File)
      → Dict.get (tmp_at count) d ≡ none
      → Dict.get file d ≡ some c
      → create_lock hash file deps.me (alone d now count acts) ≡ (
        ok false,
        alone (left d now count) now (count + 1) (acts ++ (unlinked (tmp_at count) ∷ [])),
      )
  create_lock-there d now count acts c free there =
      create_lock-creating d now count acts
      ∙ creating-there file deps.me (tmp_at count) (text_eq-temp_name file deps.me.pid _) d now
          (count + 1) acts c free there

  rounds-held :
      (tries : ℕ) (d : Disk) (now count : ℕ) (acts : List Act) (c : File) (pid : ℕ)
      → Dict.get (tmp_at count) d ≡ none
      → Dict.get file d ≡ some c
      → holder_of deps c ≡ some pid
      → EndsAs
          (ok (held pid), some c)
          (take_rounds hash deps file (suc tries) (alone d now count acts))
  unfolding take_rounds pure
  rounds-held tries d now count acts c pid free there judged =
      let e = left d now count in
      let acts2 = acts ++ (unlinked (tmp_at count) ∷ []) in
      let w = alone e now (count + 1) acts2 in
      let lock = left-lock d now count c there in
      let run =
        run-bind (create_lock hash file deps.me) _ (alone d now count acts) (ok false) w
          (create_lock-there d now count acts c free there)
        ∙ run-bind (read_lock file) _ w (some (content_of c.mtime_ms c.raw)) w
            (read_lock-there e now (count + 1) acts2 file c lock) in
      ap (λ r. (r.0, Dict.get file r.1.disk)) run ∙ rw judged (ap (λ o. (ok (held pid), o)) lock)

  rounds-stale :
      (tries : ℕ) (d : Disk) (now count : ℕ) (acts : List Act) (c : File)
      → Dict.get (tmp_at count) d ≡ none
      → Dict.get (tmp_at (count + 1)) d ≡ none
      → Dict.get file d ≡ some c
      → holder_of deps c ≡ none
      → EndsAs
          (fate deps now none)
          (take_rounds hash deps file (suc (suc tries)) (alone d now count acts))
  unfolding take_rounds
  rounds-stale tries d now count acts c free free_next there judged =
      let e = left d now count in
      let acts2 = acts ++ (unlinked (tmp_at count) ∷ []) in
      let w = alone e now (count + 1) acts2 in
      let lock = left-lock d now count c there in
      let reading = read_lock-there e now (count + 1) acts2 file c lock in
      let run =
        run-bind (create_lock hash file deps.me) _ (alone d now count acts) (ok false) w
          (create_lock-there d now count acts c free there)
        ∙ run-bind (read_lock file) _ w (some (content_of c.mtime_ms c.raw)) w reading in
      let seen = content_of c.mtime_ms c.raw in
      let acts3 = acts2 ++ (unlinked file ∷ []) in
      let w2 = alone (Dict.remove file e) now (count + 1) acts3 in
      let same : text_eq seen.raw seen.raw ≡ true = (text_eq_iff seen.raw seen.raw).1 refl in
      let removal : (if same_raw seen (some seen) then remove_lock file else pure (ok tt)) w
          ≡ (ok tt, w2) =
        rw same (remove_lock-there e now (count + 1) acts2 file c lock) in
      let self : text_eq file file ≡ true = (text_eq_iff file file).1 refl in
      let absent : Dict.get file (Dict.remove file e) ≡ none =
        get-remove file file e ∙ rw self refl in
      let next_free : Dict.get (tmp_at (count + 1)) (Dict.remove file e) ≡ none =
        still_free file (tmp_at (count + 1)) e
          (left-free d now count (tmp_at (count + 1)) free_next) in
      ap (λ r. (r.0, Dict.get file r.1.disk)) run
      ∙ rw judged (
          ap (λ r. (r.0, Dict.get file r.1.disk))
            (run-bind (read_lock file) _ w (some seen) w reading
              ∙ run-bind (if same_raw seen (some seen) then remove_lock file else pure (ok tt)) _ w
                  (ok tt) w2 removal)
          ∙ rounds-free tries (Dict.remove file e) now (count + 1) acts3 next_free absent)

  rounds-fate :
      (d : Disk) (now count : ℕ) (acts : List Act)
      → Dict.get (tmp_at count) d ≡ none
      → Dict.get (tmp_at (count + 1)) d ≡ none
      → EndsAs
          (fate deps now (Dict.get file d))
          (take_rounds hash deps file 3 (alone d now count acts))
  rounds-fate d now count acts free next_free = elim (Option-cases (Dict.get file d)) [
    | inl absent ↦
        rounds-free 2 d now count acts free absent ∙ ap (λ o. fate deps now o) (sym absent)
    | inr (c, there) ↦
        judged c there (holder_of deps c) refl ∙ ap (λ o. fate deps now o) (sym there)
  ]
    where
      judged :
          (c : File)
          → Dict.get file d ≡ some c
          → (o : Option ℕ) → holder_of deps c ≡ o
          → EndsAs (fate deps now (some c)) (take_rounds hash deps file 3 (alone d now count acts))
      judged c there none h =
          rounds-stale 1 d now count acts c free next_free there h ∙ ap (fate_of deps now c) (sym h)
      judged c there (some pid) h =
          rounds-held 2 d now count acts c pid free there h ∙ ap (fate_of deps now c) (sym h)

  -- What a sweep leaves: the lock file as it was, and no file that was not there.
  record IsSwept (d : Disk) (now count : ℕ) (w : World) : Type 0 where
    disk : Disk
    acts : List Act
    is : w ≡ alone disk now count acts
    lock : Dict.get file disk ≡ Dict.get file d
    free : (name : Text) → Dict.get name d ≡ none → Dict.get name disk ≡ none

  module _ (d : Disk) (now count : ℕ) where
    abbrev Swept : World → Type 0
    Swept w = IsSwept d now count w

    abbrev Any : {A : Type 0} → A → Type 0
    Any _ = Unit {0}

    -- A call keeps it if it does so from a world in which nobody else is about.
    from_alone :
        {A : Type 0} (m : Exec World A)
        → ((e : Disk) (acts : List Act)
            → Dict.get file e ≡ Dict.get file d
            → ((name : Text) → Dict.get name d ≡ none → Dict.get name e ≡ none)
            → Swept (m (alone e now count acts)).1)
        → Gives Swept Any m
    from_alone m h = record {
      at = λ w s.
          subst (λ v. Swept (m v).1 × Unit {0}) (sym (s.is)) (h s.disk s.acts s.lock s.free, tt);
    }

    unchanged :
        (e : Disk) (acts : List Act)
        → Dict.get file e ≡ Dict.get file d
        → ((name : Text) → Dict.get name d ≡ none → Dict.get name e ≡ none)
        → Swept (alone e now count acts)
    unchanged e acts lock free = record {
      disk = e;
      acts = acts;
      is = refl;
      lock = lock;
      free = free;
    }

    metadata-Swept : (name : Text) → Gives Swept Any (metadata name)
    unfolding metadata turn ◌>>=◌ gets pure
    metadata-Swept name = from_alone (metadata name) (λ e acts lock free.
        elim (Option-cases (Dict.get name e)) [
          | inl h ↦ rw h (unchanged e acts lock free)
          | inr (f, h) ↦ rw h (unchanged e acts lock free)
        ])

    read_dir-Swept : Gives Swept Any read_dir
    unfolding read_dir turn ◌>>=◌ gets pure
    read_dir-Swept = from_alone read_dir (λ e acts lock free. unchanged e acts lock free)

    remove_file-Swept :
        (name : Text) → text_eq name file ≡ false → Gives Swept Any (remove_file name)
    unfolding remove_file turn ◌>>=◌ gets pure modify
    remove_file-Swept name other = from_alone (remove_file name) (λ e acts lock free.
        elim (Option-cases (Dict.get name e)) [
          | inl h ↦ rw h (unchanged e acts lock free)
          | inr (f, h) ↦ rw h (
              unchanged (Dict.remove name e) (acts ++ (unlinked name ∷ []))
                (get-remove name file e ∙ rw other lock)
                (λ other_name absent. still_free name other_name e (free other_name absent)))
        ])

    sweep_names-Swept : (names : List Text) → Gives Swept Any (sweep_names deps file now names)
    unfolding sweep_names
    sweep_names-Swept [] = Gives-pure tt tt
    sweep_names-Swept (name ∷ names) =
        Gives-bind Any _ _
          (Gives-case (temp_pid file name) _ _ (Gives-pure tt tt) (λ digits found.
            let removes =
              Gives-bind Any (remove_file name) _
                (remove_file-Swept name (temp_pid-other file name digits found))
                (λ _ _. Gives-pure tt tt) in
            Gives-if (gone deps digits) _ _ (λ _. removes)
              (λ _.
                Gives-bind Any (metadata name) _ (metadata-Swept name)
                  (λ time _. Gives-if (old now time) _ _ (λ _. removes) (λ _. Gives-pure tt tt)))))
          (λ _ _. sweep_names-Swept names)

    sweep_temp_locks-Swept : Gives Swept Any (sweep_temp_locks deps file)
    unfolding sweep_temp_locks
    sweep_temp_locks-Swept = Gives-bind Any read_dir _ read_dir-Swept (λ names _.
        Gives-case names _ _ (Gives-pure tt tt) (λ all _.
          Gives-bind (λ time. time ≡ now) (gets (λ w. w.now_ms)) _
            (Gives-gets _ (λ w s. ap (λ v. v.now_ms) (s.is)))
            (λ time same. rw same (sweep_names-Swept all))))

-- With no other process about, no call refused and two free names for temp files, `take_lock` leaves the
-- result and the lock file that `fate` says: a free or stale lock is taken, and any other is left.
pub take_lock-fate :
    (hash : ℕ → ℕ) (deps : LockDeps) (file : Text) (d : Disk) (now count : ℕ) (acts : List Act)
    → Dict.get (tmp_at hash deps file count) d ≡ none
    → Dict.get (tmp_at hash deps file (count + 1)) d ≡ none
    → let r = take_lock hash deps file (alone d now count acts) in
      (r.0, Dict.get file r.1.disk) ≡ fate deps now (Dict.get file d)
unfolding take_lock
take_lock-fate hash deps file d now count acts free next_free =
    let swept =
      ((sweep_temp_locks-Swept hash deps file d now count).at (alone d now count acts)
        (record { disk = d; acts = acts; is = refl; lock = refl; free = λ _ h. h })).0 in
    ap (λ r. (r.0, Dict.get file r.1.disk))
      (run-bind (sweep_temp_locks deps file) _ (alone d now count acts) tt
        (alone swept.disk now count swept.acts) (λ i. (tt, swept.is i)))
    ∙ rounds-fate hash deps file swept.disk now count swept.acts
        (swept.free (tmp_at hash deps file count) free)
        (swept.free (tmp_at hash deps file (count + 1)) next_free)
    ∙ ap (λ o. fate deps now o) swept.lock
