-- ===== src/Notify/Lock/Alone.antt =====
-- crates/tagents-core/src/notify/lock.rs: the lemmas on `take_lock` when no other process is about and no call is refused.
use tagents.Prelude.{
  ℕ, zero, suc, ◌+◌, ◌%◌, ◌^◌, ◌≡◌, refl, sym, ap, ◌∙◌, Bool, true, false, not, ◌&&◌, ◌||◌, Option,
  none, some, List, [], ◌∷◌, ◌++◌, arith, if◌then◌else◌, Bool-cases, Option-cases, inl, inr, subst,
}
use tagents.Text.{Text, word, text_eq, text_eq_iff}
use tagents.Dict
use tagents.Dict.{get-insert, get-remove}
use tagents.Exec.{
  Exec, Result, ok, err, pure, gets, modify, ◌>>=◌, ◌>>◌, when, case_of, case_result,
}
use tagents.Exec.Gives.{run-bind}
use tagents.Node.{IoError}
use tagents.Notify.Lock.{
  LockHolder, LockResult, taken, held, LockDeps, LockContent, content_of, holds, render,
}
use tagents.Notify.Lock.Disk.{
  File, Disk, Turn, World, Act, linked, unlinked, turn, metadata, read, create_new, write_all,
  hard_link, remove_file, read_dir, exists_error,
}
use tagents.Notify.Lock.Take.{
  Failed, failed, made_of, read_lock, hex, temp_suffix, temp_name, write_new, create_lock,
  remove_lock, take_rounds, take_lock,
}
pub mod Fate
pub mod Exclusion
use tagents.Notify.Lock.Kept.{text_eq-temp_name}

abbrev pub alone : Disk → ℕ → ℕ → List Act → World
alone d now count acts = record {
  disk = d;
  now_ms = now;
  turns = [];
  temp_count = count;
  acts = acts;
}

abbrev pub file_of : Text → ℕ → File
file_of raw now = record { raw = raw; mtime_ms = now }

module _ (d : Disk) (now count : ℕ) (acts : List Act) where
  abbrev here : World
  here = alone d now count acts

  create_new-free :
      (name : Text)
      → Dict.get name d ≡ none
      → create_new name here ≡ (none, alone (Dict.insert name (file_of [] now) d) now count acts)
  unfolding create_new turn ◌>>=◌
  create_new-free name h = rw h refl

  write_all-there :
      (name text : Text) (f : File)
      → Dict.get name d ≡ some f
      → write_all name text here
        ≡ (none, alone (Dict.insert name (file_of text now) d) now count acts)
  unfolding write_all turn ◌>>=◌
  write_all-there name text f h = rw h refl

  hard_link-free :
      (from to : Text) (f : File)
      → Dict.get from d ≡ some f
      → Dict.get to d ≡ none
      → hard_link from to here
        ≡ (none, alone (Dict.insert to f d) now count (acts ++ (linked to ∷ [])))
  unfolding hard_link turn ◌>>=◌
  hard_link-free from to f h k = rw (h, k) refl

  hard_link-there :
      (from to : Text) (f g : File)
      → Dict.get from d ≡ some f
      → Dict.get to d ≡ some g
      → hard_link from to here ≡ (some exists_error, here)
  unfolding hard_link turn ◌>>=◌
  hard_link-there from to f g h k = rw (h, k) refl

  pub remove_file-there :
      (name : Text) (f : File)
      → Dict.get name d ≡ some f
      → remove_file name here
        ≡ (none, alone (Dict.remove name d) now count (acts ++ (unlinked name ∷ [])))
  unfolding remove_file turn ◌>>=◌
  remove_file-there name f h = rw h refl

  metadata-there :
      (file : Text) (c : File)
      → Dict.get file d ≡ some c
      → metadata file here ≡ (some c.mtime_ms, here)
  unfolding metadata turn ◌>>=◌
  metadata-there file c h = rw h refl

  read-there :
      (file : Text) (c : File) → Dict.get file d ≡ some c → read file here ≡ (some c.raw, here)
  unfolding read turn ◌>>=◌
  read-there file c h = rw h refl

  pub read_lock-there :
      (file : Text) (c : File)
      → Dict.get file d ≡ some c
      → read_lock file here ≡ (some (content_of c.mtime_ms c.raw), here)
  unfolding read_lock pure
  read_lock-there file c h =
      run-bind (metadata file) _ here (some c.mtime_ms) here (metadata-there file c h)
      ∙ run-bind (read file) _ here (some c.raw) here (read-there file c h)

  pub read_lock-absent : (file : Text) → Dict.get file d ≡ none → read_lock file here ≡ (none, here)
  unfolding read_lock metadata turn ◌>>=◌ pure
  read_lock-absent file h = rw h refl

  pub remove_lock-there :
      (file : Text) (c : File)
      → Dict.get file d ≡ some c
      → remove_lock file here
        ≡ (ok tt, alone (Dict.remove file d) now count (acts ++ (unlinked file ∷ [])))
  unfolding remove_lock pure
  remove_lock-there file c h =
      run-bind (remove_file file) _ here none _ (remove_file-there file c h)

-- `create_lock` behind the choice of a name.
module _ (file : Text) (me : LockHolder) (tmp : Text) (other : text_eq tmp file ≡ false) where
  abbrev pub mine : ℕ → File
  mine now = file_of (render me) now

  -- The directory with the temp file written.
  abbrev pub staged : ℕ → Disk → Disk
  staged now d = Dict.insert tmp (mine now) (Dict.insert tmp (file_of [] now) d)

  pub text_eq_self : (s : Text) → text_eq s s ≡ true
  text_eq_self s = (text_eq_iff s s).1 refl

  write_new-free :
      (d : Disk) (now count : ℕ) (acts : List Act)
      → Dict.get tmp d ≡ none
      → write_new tmp (render me) (alone d now count acts)
        ≡ (none, alone (staged now d) now count acts)
  unfolding write_new pure
  write_new-free d now count acts free =
      let opened = Dict.insert tmp (file_of [] now) d in
      let there : Dict.get tmp opened ≡ some (file_of [] now) =
        get-insert tmp tmp (file_of [] now) d ∙ rw (text_eq_self tmp) refl in
      run-bind (create_new tmp) _ (alone d now count acts) none (alone opened now count acts)
        (create_new-free d now count acts tmp free)
      ∙ run-bind (write_all tmp (render me)) _ (alone opened now count acts) none
          (alone (staged now d) now count acts)
          (write_all-there opened now count acts tmp (render me) (file_of [] now) there)

  staged-tmp : (d : Disk) (now : ℕ) → Dict.get tmp (staged now d) ≡ some (mine now)
  staged-tmp d now = get-insert tmp tmp (mine now) _ ∙ rw (text_eq_self tmp) refl

  pub staged-other :
      (d : Disk) (now : ℕ) (name : Text)
      → text_eq tmp name ≡ false
      → Dict.get name (staged now d) ≡ Dict.get name d
  staged-other d now name h =
      get-insert tmp name (mine now) _ ∙ rw h (get-insert tmp name (file_of [] now) d ∙ rw h refl)

  cleared :
      (made : Failed) (d : Disk) (now count : ℕ) (acts : List Act) (f : File)
      → Dict.get tmp d ≡ some f
      → (remove_file tmp >>= λ _. pure (made_of made)) (alone d now count acts)
        ≡ (made_of made, alone (Dict.remove tmp d) now count (acts ++ (unlinked tmp ∷ [])))
  unfolding pure
  cleared made d now count acts f h =
      run-bind (remove_file tmp) (λ _. pure (made_of made)) (alone d now count acts) none
        (alone (Dict.remove tmp d) now count (acts ++ (unlinked tmp ∷ [])))
        (remove_file-there d now count acts tmp f h)

  abbrev pub linking : Option (IoError × Text × Text) → Exec World Failed
  linking written =
      case_of written
        (do
          there ← hard_link tmp file
          pure (failed (word "link") (tmp ++ (word "' -> '" ++ file)) there))
        (λ why. pure (some why))

  -- `create_lock` behind the choice of the name.
  abbrev pub creating : Exec World (Result Text Bool)
  creating = write_new tmp (render me) >>= λ written.
      linking written >>= λ made. remove_file tmp >>= λ _. pure (made_of made)

  abbrev pub taken_disk : Disk → ℕ → Disk
  taken_disk d now = Dict.remove tmp (Dict.insert file (mine now) (staged now d))

  pub creating-free :
      (d : Disk) (now count : ℕ) (acts : List Act)
      → Dict.get tmp d ≡ none
      → Dict.get file d ≡ none
      → creating (alone d now count acts) ≡ (
        ok true,
        alone (taken_disk d now) now count ((acts ++ (linked file ∷ [])) ++ (unlinked tmp ∷ [])),
      )
  unfolding pure
  creating-free d now count acts free absent =
      let e = staged now d in
      let after = Dict.insert file (mine now) e in
      let acts2 = acts ++ (linked file ∷ []) in
      let file_free = staged-other d now file other ∙ absent in
      let link_done =
        hard_link-free e now count acts tmp file (mine now) (staged-tmp d now) file_free in
      let tmp_there : Dict.get tmp after ≡ some (mine now) =
        get-insert file tmp (mine now) e ∙ rw (text_eq-swap file tmp other) (staged-tmp d now) in
      run-bind (write_new tmp (render me)) _ (alone d now count acts) none (alone e now count acts)
        (write_new-free d now count acts free)
      ∙ run-bind (linking none) _ (alone e now count acts) none (alone after now count acts2) (
          run-bind (hard_link tmp file) _ (alone e now count acts) none
            (alone after now count acts2) link_done)
      ∙ cleared none after now count acts2 (mine now) tmp_there
    where
      text_eq-swap : (s t : Text) → text_eq t s ≡ false → text_eq s t ≡ false
      text_eq-swap s t h = ground (arith, h, text_eq_iff s t, text_eq_iff t s)

  pub creating-there :
      (d : Disk) (now count : ℕ) (acts : List Act) (c : File)
      → Dict.get tmp d ≡ none
      → Dict.get file d ≡ some c
      → creating (alone d now count acts)
        ≡ (ok false, alone (Dict.remove tmp (staged now d)) now count (acts ++ (unlinked tmp ∷ [])))
  unfolding pure
  creating-there d now count acts c free there =
      let e = staged now d in
      let refused : Failed =
        failed (word "link") (tmp ++ (word "' -> '" ++ file)) (some exists_error) in
      run-bind (write_new tmp (render me)) _ (alone d now count acts) none (alone e now count acts)
        (write_new-free d now count acts free)
      ∙ run-bind (linking none) _ (alone e now count acts) refused (alone e now count acts) (
          run-bind (hard_link tmp file) _ (alone e now count acts) (some exists_error)
            (alone e now count acts)
            (hard_link-there e now count acts tmp file (mine now) c (staged-tmp d now)
              (staged-other d now file other ∙ there)))
      ∙ cleared refused e now count acts (mine now) (staged-tmp d now)

  pub taken_disk-lock : (d : Disk) (now : ℕ) → Dict.get file (taken_disk d now) ≡ some (mine now)
  taken_disk-lock d now =
      get-remove tmp file _
      ∙ rw other (get-insert file file (mine now) _ ∙ rw (text_eq_self file) refl)

  -- Where the link met a lock, only the temp file's name is free now.
  pub left_disk-get :
      (d : Disk) (now : ℕ) (name : Text)
      → Dict.get name (Dict.remove tmp (staged now d))
        ≡ (if text_eq tmp name then none else Dict.get name d)
  left_disk-get d now name = elim (Bool-cases (text_eq tmp name)) [
    | inl same ↦ get-remove tmp name _ ∙ rw same refl
    | inr other_name ↦ get-remove tmp name _ ∙ rw other_name (staged-other d now name other_name)
  ]
