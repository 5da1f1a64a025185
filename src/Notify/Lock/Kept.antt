-- ===== src/Notify/Lock/Kept.antt =====
-- crates/tagents-core/src/notify/lock.rs: the proofs on `take_lock` while another process holds the lock.
use tagents.Prelude.{
  ℕ, zero, suc, ◌+◌, ◌≡◌, ◌≢◌, refl, ap, ◌∙◌, Bool, true, false, Option, none, some, List, [], ◌∷◌,
  ◌++◌, arith, if◌then◌else◌, Bool-cases, inl, inr, ◌⊎◌, length, subst,
}
use tagents.Text.{Text, text_eq, text_eq_iff, starts_with}
use tagents.Text.Pieces.{drop-all}
use tagents.Dict
use tagents.Dict.{get-insert, get-remove}
use tagents.Exec.{Exec, Result, ok, err, pure, gets, modify, ◌>>=◌, case_of}
use tagents.Exec.Gives.{
  Gives, Gives-bind, Gives-case, Gives-pure, Gives-gets, Gives-if, Gives-modify, Gives-case_result,
  Gives-case_some,
}
use tagents.Node.{IoError}
use tagents.Notify.Lock.{LockHolder, LockResult, held, LockDeps, content_of, holds, render}
use tagents.Notify.Lock.Disk.{
  File, Disk, Turn, World, turn, next_turn, file_at, put, refuse, done, call, on_file, change,
  exists_error, missing_error, names_in, link_to, take_away, metadata, read, create_new, write_all,
  hard_link, remove_file, read_dir,
}
use tagents.Notify.Lock.Take.{
  made_of, failed, is_there, gone, old, read_lock, temp_suffix, temp_name, write_new, create_lock,
  middle_of, temp_pid, sweep_names, sweep_temp_locks, take_rounds, lock_tries, take_lock,
}

text_eq-longer : (s t : Text) (c : ℕ) → text_eq (s ++ (c ∷ t)) s ≡ false
unfolding text_eq
text_eq-longer [] t c = refl
text_eq-longer (d ∷ s) t c = ground (arith, text_eq-longer s t c)

pub text_eq-temp_name :
    (file : Text) (pid : ℕ) (suffix : Text) → text_eq (temp_name file pid suffix) file ≡ false
unfolding temp_name
text_eq-temp_name file pid suffix = text_eq-longer file _ b'.'

middle_of_self : (base : Text) → middle_of base base ≡ none
unfolding middle_of starts_with tagents.Text.strip_prefix
middle_of_self base =
    rw (drop-all (length base) base (omega arith))
      (elim (Bool-cases (starts_with base base)) [ inl h ↦ rw h refl | inr h ↦ rw h refl ])

-- The sweep leaves the lock file itself.
pub temp_pid-other : (base name d : Text) → temp_pid base name ≡ some d → text_eq name base ≡ false
unfolding temp_pid
temp_pid-other base name d h = elim (Bool-cases (text_eq name base)) [
  | inr other ↦ other
  | inl same ↦
      let eq = (text_eq_iff name base).0 same in
      let absent : temp_pid base base ≡ none = rw (temp_pid, middle_of_self base) refl in
      absurd (cc)
]

module _ (file : Text) (c : File) where
  -- The lock is there, and no other process takes it away.
  abbrev Leaves : Turn → Type 0
  Leaves t = (d : Disk) → Dict.get file d ≡ some c → Dict.get file (t.others d) ≡ some c

  abbrev AllLeave : List Turn → Type 0
  AllLeave [] = Unit {0}
  AllLeave (t ∷ ts) = Leaves t × AllLeave ts

  abbrev pub Kept : World → Type 0
  Kept w = (Dict.get file w.disk ≡ some c) × AllLeave w.turns

  abbrev Any : {A : Type 0} → A → Type 0
  Any _ = Unit {0}

  next_turn-Kept :
      (ts : List Turn) (w : World)
      → Dict.get file w.disk ≡ some c
      → AllLeave ts
      → Kept (next_turn ts w).1
  next_turn-Kept [] w h leave = (h, tt)
  next_turn-Kept (t ∷ ts) w h leave = (leave.0 w.disk h, leave.1)

  turn-Kept : Gives Kept Any turn
  unfolding turn
  turn-Kept = record { at = λ w h. (next_turn-Kept w.turns w h.0 h.1, tt) }

  abbrev IsRead : {A : Type 0} → A → Option A → Type 0
  IsRead a none = Unit {0}
  IsRead a (some b) = b ≡ a

  -- A call that only looks.
  look-Kept :
      {A : Type 0} (of : File → A)
      → Gives Kept (IsRead (of c)) (
          turn >>= λ refused.
          case_of refused
            (gets (file_at file) >>= λ f. case_of f (pure none) (λ g. pure (some (of g))))
            (λ error. pure none))
  look-Kept of = Gives-bind Any turn _ turn-Kept (λ refused _.
      Gives-case refused _ _
        (Gives-bind (λ f. f ≡ some c) (gets (file_at file)) _ (Gives-gets _ (λ w h. h.0))
          (λ f found.
            Gives-case f _ _ (Gives-pure none tt) (λ g here. Gives-pure (some (of g)) (ap of cc))))
        (λ error _. Gives-pure none tt))

  metadata-Kept : Gives Kept (IsRead c.mtime_ms) (metadata file)
  unfolding metadata
  metadata-Kept = look-Kept (λ f. f.mtime_ms)

  read-Kept : Gives Kept (IsRead c.raw) (read file)
  unfolding read
  read-Kept = look-Kept (λ f. f.raw)

  read_lock-Kept : Gives Kept (IsRead (content_of c.mtime_ms c.raw)) (read_lock file)
  unfolding read_lock
  read_lock-Kept = Gives-bind (IsRead c.mtime_ms) (metadata file) _ metadata-Kept (λ time is_time.
      Gives-case time _ _ (Gives-pure none tt) (λ mtime at_time.
        Gives-bind (IsRead c.raw) (read file) _ read-Kept (λ text is_text.
          Gives-case text _ _ (Gives-pure none tt) (λ raw with_text.
            Gives-pure (some (content_of mtime raw)) (λ i.
              content_of ((subst (IsRead c.mtime_ms) at_time is_time) i)
                ((subst (IsRead c.raw) with_text is_text) i))))))

  look_other-Kept :
      {A : Type 0} (name : Text) (of : File → A)
      → Gives Kept Any (
          turn >>= λ refused.
          case_of refused
            (gets (file_at name) >>= λ f. case_of f (pure none) (λ g. pure (some (of g))))
            (λ error. pure none))
  look_other-Kept name of = Gives-bind Any turn _ turn-Kept (λ refused _.
      Gives-case refused _ _
        (Gives-bind Any (gets (file_at name)) _ (Gives-gets _ (λ _ _. tt))
          (λ f _. Gives-case f _ _ (Gives-pure none tt) (λ g _. Gives-pure (some (of g)) tt)))
        (λ error _. Gives-pure none tt))

  metadata_other-Kept : (name : Text) → Gives Kept Any (metadata name)
  unfolding metadata
  metadata_other-Kept name = look_other-Kept name (λ f. f.mtime_ms)

  read_dir-Kept : Gives Kept Any read_dir
  unfolding read_dir
  read_dir-Kept = Gives-bind Any turn _ turn-Kept (λ refused _.
      Gives-case refused _ _ (Gives-gets names_in (λ _ _. tt)) (λ error _. Gives-pure none tt))

  module _ {Post : Option IoError → Type 0} where
    refuse-Kept : (e : IoError) → Post (some e) → Gives Kept Post (refuse e)
    refuse-Kept e h = Gives-pure (some e) h

    call-Kept :
        (body : Exec World (Option IoError))
        → Gives Kept Post body
        → ((e : IoError) → Post (some e))
        → Gives Kept Post (call body)
    call-Kept body h k =
        Gives-bind Any turn (λ refused. case_of refused body refuse) turn-Kept
          (λ refused _. Gives-case refused body refuse h (λ e _. refuse-Kept e (k e)))

    on_file-Kept :
        (name : Text) (absent : Exec World (Option IoError))
        (present : File → Exec World (Option IoError))
        → Gives Kept Post absent
        → ((f : File) → Gives Kept Post (present f))
        → Gives Kept Post (on_file name absent present)
    on_file-Kept name absent present h k =
        Gives-bind Any (gets (file_at name)) (λ f. case_of f absent present)
          (Gives-gets _ (λ _ _. tt)) (λ f _. Gives-case f absent present h (λ g _. k g))

    on_lock-Kept :
        (absent : Exec World (Option IoError)) (present : File → Exec World (Option IoError))
        → Gives Kept Post (present c)
        → Gives Kept Post (on_file file absent present)
    on_lock-Kept absent present k =
        Gives-bind (λ f. f ≡ some c) (gets (file_at file)) (λ f. case_of f absent present)
          (Gives-gets _ (λ w h. h.0)) (λ f found. Gives-case_some f c absent present found k)

  change-Kept :
      (f : World → World) → ((w : World) → Kept w → Kept (f w)) → Gives Kept Any (change f)
  change-Kept f h = Gives-bind Any (modify f) _ (Gives-modify f h tt) (λ _ _. Gives-pure none tt)

  module _ (name : Text) (other : text_eq name file ≡ false) where
    insert-Kept :
        (f : File) (d : Disk)
        → Dict.get file d ≡ some c
        → Dict.get file (Dict.insert name f d) ≡ some c
    insert-Kept f d h = get-insert name file f d ∙ rw other h

    remove-Kept :
        (d : Disk) → Dict.get file d ≡ some c → Dict.get file (Dict.remove name d) ≡ some c
    remove-Kept d h = get-remove name file d ∙ rw other h

    create_new-Kept : Gives Kept Any (create_new name)
    unfolding create_new
    create_new-Kept =
        call-Kept _
          (on_file-Kept name (change (put name [])) (λ there. refuse exists_error)
            (change-Kept (put name []) (λ w h. (insert-Kept _ w.disk h.0, h.1)))
            (λ there. refuse-Kept exists_error tt))
          (λ _. tt)

    write_all-Kept : (text : Text) → Gives Kept Any (write_all name text)
    unfolding write_all
    write_all-Kept text =
        call-Kept _
          (on_file-Kept name done (λ open_file. change (put name text)) (Gives-pure none tt)
            (λ _. change-Kept (put name text) (λ w h. (insert-Kept _ w.disk h.0, h.1))))
          (λ _. tt)

    remove_file-Kept : Gives Kept Any (remove_file name)
    unfolding remove_file
    remove_file-Kept =
        call-Kept _
          (on_file-Kept name (refuse missing_error) (λ f. change (take_away name))
            (refuse-Kept missing_error tt)
            (λ _. change-Kept (take_away name) (λ w h. (remove-Kept w.disk h.0, h.1))))
          (λ _. tt)

    write_new-Kept : (text : Text) → Gives Kept Any (write_new name text)
    unfolding write_new
    write_new-Kept text = Gives-bind Any (create_new name) _ create_new-Kept (λ made _.
        Gives-case made _ _
          (Gives-bind Any (write_all name text) _ (write_all-Kept text)
            (λ written _. Gives-pure _ tt))
          (λ error _. Gives-pure _ tt))

  -- The link meets the lock that is there.
  abbrev IsRefused : {A : Type 0} → Option A → Type 0
  IsRefused o = o ≢ none

  some-IsRefused : {A : Type 0} (a : A) → IsRefused (some a)
  some-IsRefused a e = absurd (cc)

  hard_link-Kept : (from : Text) → Gives Kept IsRefused (hard_link from file)
  unfolding hard_link
  hard_link-Kept from =
      call-Kept _
        (on_file-Kept from (refuse missing_error)
          (λ f. on_file file (change (link_to file f)) (λ there. refuse exists_error))
          (refuse-Kept missing_error (some-IsRefused _))
          (λ f.
            on_lock-Kept (change (link_to file f)) (λ there. refuse exists_error)
              (refuse-Kept exists_error (some-IsRefused _))))
        some-IsRefused

  abbrev IsNotMade : Result Text Bool → Type 0
  IsNotMade r = r ≢ ok true

  made_of-IsNotMade : (f : Option (IoError × Text × Text)) → IsRefused f → IsNotMade (made_of f)
  made_of-IsNotMade none h = absurd (h refl)
  made_of-IsNotMade (some (error, call, path)) h = elim (Bool-cases (is_there error.kind)) [
    | inl there ↦ rw there (λ e. absurd (cc))
    | inr other ↦ rw other (λ e. absurd (cc))
  ]

  failed-IsRefused :
      (call path : Text) (o : Option IoError) → IsRefused o → IsRefused (failed call path o)
  failed-IsRefused call path none h = absurd (h refl)
  failed-IsRefused call path (some error) h = some-IsRefused _

  temp_suffix-Kept : (hash : ℕ → ℕ) → Gives Kept Any (temp_suffix hash)
  unfolding temp_suffix
  temp_suffix-Kept hash =
      Gives-bind Any (gets (λ w. w.temp_count)) _ (Gives-gets _ (λ _ _. tt)) (λ n _.
        Gives-bind Any (modify (λ w. record w { temp_count = w.temp_count + 1 })) _
          (Gives-modify _ (λ w h. h) tt) (λ _ _. Gives-pure _ tt))

  create_lock-Kept :
      (hash : ℕ → ℕ) (me : LockHolder) → Gives Kept IsNotMade (create_lock hash file me)
  unfolding create_lock
  create_lock-Kept hash me =
      Gives-bind Any (temp_suffix hash) _ (temp_suffix-Kept hash) (λ suffix _.
        let tmp = temp_name file me.pid suffix in
        let other = text_eq-temp_name file me.pid suffix in
        Gives-bind Any (write_new tmp (render me)) _ (write_new-Kept tmp other (render me))
          (λ written _.
            Gives-bind IsRefused _ _
              (Gives-case written _ _
                (Gives-bind IsRefused (hard_link tmp file) _ (hard_link-Kept tmp)
                  (λ there refused. Gives-pure _ (failed-IsRefused _ _ there refused)))
                (λ why _. Gives-pure _ (some-IsRefused why)))
              (λ made refused.
                Gives-bind Any (remove_file tmp) _ (remove_file-Kept tmp other)
                  (λ _ _. Gives-pure _ (made_of-IsNotMade made refused)))))

  sweep_names-Kept :
      (deps : LockDeps) (now : ℕ) (names : List Text)
      → Gives Kept Any (sweep_names deps file now names)
  unfolding sweep_names
  sweep_names-Kept deps now [] = Gives-pure tt tt
  sweep_names-Kept deps now (name ∷ names) =
      Gives-bind Any _ _
        (Gives-case (temp_pid file name) _ _ (Gives-pure tt tt) (λ digits found.
          let removes =
            Gives-bind Any (remove_file name) _
              (remove_file-Kept name (temp_pid-other file name digits found))
              (λ _ _. Gives-pure tt tt) in
          Gives-if (gone deps digits) _ _ (λ _. removes)
            (λ _.
              Gives-bind Any (metadata name) _ (metadata_other-Kept name)
                (λ time _. Gives-if (old now time) _ _ (λ _. removes) (λ _. Gives-pure tt tt)))))
        (λ _ _. sweep_names-Kept deps now names)

  sweep_temp_locks-Kept : (deps : LockDeps) → Gives Kept Any (sweep_temp_locks deps file)
  unfolding sweep_temp_locks
  sweep_temp_locks-Kept deps = Gives-bind Any read_dir _ read_dir-Kept (λ names _.
      Gives-case names _ _ (Gives-pure tt tt) (λ all _.
        Gives-bind Any (gets (λ w. w.now_ms)) _ (Gives-gets _ (λ _ _. tt))
          (λ now _. sweep_names-Kept deps now all)))

  module _ (deps : LockDeps) (pid : ℕ) (names : (content_of c.mtime_ms c.raw).pid ≡ some pid)
      (holding : holds (content_of c.mtime_ms c.raw) deps ≡ true) where
    -- Held, or an error.
    abbrev pub IsLeft : Result Text LockResult → Type 0
    IsLeft (err why) = Unit {0}
    IsLeft (ok r) = r ≡ held pid

    take_rounds-Kept :
        (hash : ℕ → ℕ) (tries : ℕ) → Gives Kept IsLeft (take_rounds hash deps file tries)
    unfolding take_rounds
    take_rounds-Kept hash zero = Gives-pure _ tt
    take_rounds-Kept hash (suc tries) =
        Gives-bind IsNotMade (create_lock hash file deps.me) _ (create_lock-Kept hash deps.me)
          (λ made not_made.
            Gives-case_result made _ _ (λ why _. Gives-pure _ tt)
              (λ done_so is_done.
                Gives-if done_so _ _ (λ yes. absurd (not_made (is_done ∙ ap ok yes)))
                  (λ _.
                    Gives-bind (IsRead (content_of c.mtime_ms c.raw)) (read_lock file) _
                      read_lock-Kept
                      (λ found is_lock.
                        Gives-case found _ _ (take_rounds-Kept hash tries) (λ seen here.
                          let same : seen ≡ content_of c.mtime_ms c.raw =
                            subst (IsRead (content_of c.mtime_ms c.raw)) here is_lock in
                          Gives-case_some (if holds seen deps then seen.pid else none) pid _ _
                            (rw (same, holding) names) (Gives-pure _ refl))))))

    take_lock-Kept : (hash : ℕ → ℕ) → Gives Kept IsLeft (take_lock hash deps file)
    unfolding take_lock
    take_lock-Kept hash =
        Gives-bind Any (sweep_temp_locks deps file) _ (sweep_temp_locks-Kept deps)
          (λ _ _. take_rounds-Kept hash lock_tries)

-- While another holder's lock is at the path and no other process takes it away, `take_lock` leaves it there
-- as it is, whatever calls the system refuses, and the result is its holder or an error.
pub take_lock_keeps_held :
    (hash : ℕ → ℕ) (deps : LockDeps) (file : Text) (c : File) (pid : ℕ) (w : World)
    → Dict.get file w.disk ≡ some c
    → AllLeave file c w.turns
    → (content_of c.mtime_ms c.raw).pid ≡ some pid
    → holds (content_of c.mtime_ms c.raw) deps ≡ true
    → (Dict.get file (take_lock hash deps file w).1.disk ≡ some c)
      × (((take_lock hash deps file w).0 ≡ ok (held pid))
          ⊎ ((why : Text) × ((take_lock hash deps file w).0 ≡ err why)))
take_lock_keeps_held hash deps file c pid w there leave names holding =
    let r = (take_lock-Kept file c deps pid names holding hash).at w (there, leave) in
    (r.0.0, ending (take_lock hash deps file w).0 r.1)
  where
    ending :
        (o : Result Text LockResult)
        → IsLeft file c deps pid names holding o
        → (o ≡ ok (held pid)) ⊎ ((why : Text) × (o ≡ err why))
    ending (err why) h = inr (why, refl)
    ending (ok r) h = inl (ap ok h)
