-- ===== src/Notify/Engine/Running.antt =====
-- crates/tagents-core/src/notify/engine.rs, `step`, `due` and `run`: the lemmas that carry an invariant through the jobs of
-- a turn.
use tagents.Prelude.{
  zero, suc, Option-cases, inl, inr, arith, length, ◌||◌, ℕ, ◌≡◌, refl, Bool, true, not, Option,
  some, List, [], ◌∷◌,
}
use tagents.Text.{Text}
use tagents.Dict.{Dict, get, remove, insert}
use tagents.Exec.{
  Exec, modify, ◌>>=◌, when, Keeps, keeps_rules, Keeps-modify, Keeps-bind_result, Keeps-if,
  Keeps-pure, Keeps-gets_bind,
}
use tagents.Notify.Event.{AgentEvent}
use tagents.Notify.Kinds.{NoticeKind, Verdict, counts_session, classify}
use tagents.Notify.Kinds.Sound.{classify-IsCoherent}
use tagents.Notify.Deadlines
use tagents.Notify.Deadlines.{Deadlines}
use tagents.Notify.Options.{CacheExpiring}
use tagents.Notify.Compose.{Extra}
use tagents.Notify.Screen.{Screen, ScreenAnswer}
use tagents.Notify.Engine.{Deps, Engine, Job, event, due}
use tagents.Notify.Engine.Post.{notice_id, is_gone, screen_of, deliver, probe, assemble, post}
use tagents.Notify.Engine.Jobs
use tagents.Notify.Engine.Stable.{StableJobs, Keeps-effect, Keeps-say}

counts_of_verdict :
    (e : AgentEvent) (v : Verdict) → classify e ≡ some v → counts_session e.key ≡ true
counts_of_verdict e v h = (classify-IsCoherent e v h).0

module _ {W : Type 0} (d : Deps W) {P : Engine W → Type 0} (stable : StableJobs d P) where
  pub probe-Keeps : (pane : Text) → Keeps P (probe d pane)
  unfolding probe
  probe-Keeps pane = search (keeps_rules, Keeps-say d stable, Keeps-effect d stable)

  assemble-Keeps :
      (kind : NoticeKind) (e : AgentEvent) (extra : Extra) (skip : Bool) (seen : Option Screen)
      → Keeps P (assemble d kind e extra skip seen)
  unfolding assemble
  assemble-Keeps kind e extra skip seen = search (keeps_rules, Keeps-effect d stable)

  id-assemble :
      (kind : NoticeKind) (e : AgentEvent) (extra : Extra) (skip : Bool) (seen : Option Screen)
      (s : Engine W)
      → (assemble d kind e extra skip seen s).0.id ≡ notice_id e.key
  unfolding assemble ◌>>=◌
  id-assemble kind e extra skip seen s = refl

  questioning-Keeps : (f : Engine W → Dict ℕ) → Keeps P (modify (λ s. record s { questions = f s }))
  questioning-Keeps f = Keeps-modify _ (λ s. stable.questioning s (f s))

  deliver-Keeps :
      (kind : NoticeKind) (e : AgentEvent) (extra : Extra) (skip : Bool)
      (seen : Option ScreenAnswer)
      → counts_session e.key ≡ true
      → Keeps P (deliver d kind e extra skip seen)
  unfolding deliver
  deliver-Keeps kind e extra skip seen counts =
      Keeps-bind_result (λ n. n.id ≡ notice_id e.key) _ _
        (assemble-Keeps kind e extra skip (screen_of seen))
        (id-assemble kind e extra skip (screen_of seen))
        (λ n same. stable.posting kind e (is_gone seen) n same counts)

  pub post-Keeps :
      (kind : NoticeKind) (e : AgentEvent) (extra : Extra) (skip : Bool)
      → counts_session e.key ≡ true
      → Keeps P (post d kind e extra skip)
  unfolding post
  post-Keeps kind e extra skip counts =
      search (keeps_rules, probe-Keeps, questioning-Keeps, Keeps-say d stable, deliver-Keeps)

  arming-Keeps :
      (e : AgentEvent) (t : ℕ)
      → Keeps P (
          modify (λ s. record s {
            armed_by = insert e.key e s.armed_by;
            warned_at = remove e.key s.warned_at;
            deadlines = Deadlines.arm e.key e.at t s.deadlines;
          }))
  arming-Keeps e t = Keeps-modify _ (λ s. stable.arming s e (remove e.key s.warned_at) e.at t)

  arm-Keeps : (e : AgentEvent) (cache : CacheExpiring) → Keeps P (Jobs.arm d e cache)
  unfolding Jobs.arm
  arm-Keeps e cache = search (keeps_rules, arming-Keeps) depth 8

  cancel-Keeps :
      (key : Text)
      → Keeps P (
          modify (λ s. record s {
            deadlines = Deadlines.cancel key s.deadlines;
            armed_by = remove key s.armed_by;
            warned_at = remove key s.warned_at;
          }))
  cancel-Keeps key = Keeps-modify _ (λ s. stable.cancelling s (remove key s.warned_at) key)

  ask-Keeps :
      (e : AgentEvent) (v : Verdict) (kind : NoticeKind)
      → counts_session e.key ≡ true
      → Keeps P (Jobs.ask d e v kind)
  unfolding Jobs.ask
  ask-Keeps e v kind counts = search (keeps_rules, post-Keeps)

  act-Keeps :
      (e : AgentEvent) (v : Verdict) → counts_session e.key ≡ true → Keeps P (Jobs.act d e v)
  unfolding Jobs.act
  act-Keeps e v counts =
      search
        (keeps_rules, questioning-Keeps, cancel-Keeps, stable.withdrawing, arm-Keeps, ask-Keeps)
        depth 14

  pub step-Keeps : (e : AgentEvent) → Keeps P (Jobs.step d e)
  unfolding Jobs.step
  step-Keeps e = search (keeps_rules, Keeps-say d stable, act-Keeps, counts_of_verdict) depth 10

  warned-Keeps :
      (key : Text) (at : ℕ)
      → Keeps P (modify (λ s. record s { warned_at = insert key at s.warned_at }))
  warned-Keeps key at = Keeps-modify _ (λ s. stable.warning s (insert key at s.warned_at))

  pub now-Keeps : Keeps P (Jobs.now d)
  unfolding Jobs.now
  now-Keeps = Keeps-effect d stable d.now_ms

  pub warn-Keeps :
      (key : Text) (since : ℕ) (e : AgentEvent) (cache : CacheExpiring)
      → counts_session e.key ≡ true
      → Keeps P (Jobs.warn d key since e cache)
  unfolding Jobs.warn
  warn-Keeps key since e cache counts =
      search (keeps_rules, now-Keeps, post-Keeps, warned-Keeps) depth 12

  check_row-Keeps :
      (key : Text) (since : ℕ) (e : AgentEvent) (cache : CacheExpiring)
      → counts_session e.key ≡ true
      → Keeps P (Jobs.check_row d key since e cache)
  unfolding Jobs.check_row
  check_row-Keeps key since e cache counts =
      search (keeps_rules, Keeps-effect d stable, warn-Keeps) depth 10

  disarming-Keeps :
      (key : Text) → Keeps P (modify (λ s. record s { armed_by = remove key s.armed_by }))
  disarming-Keeps key = Keeps-modify _ (λ s. stable.disarming s key)

  -- The check of the key is a check of the event, whose key it is.
  guarded_row-Keeps :
      (key : Text) (since : ℕ) (e : AgentEvent) (cache : CacheExpiring)
      → e.key ≡ key
      → Keeps P (
          when
            (not (not cache.toggles.enabled || not (counts_session key)))
            (Jobs.check_row d key since e cache))
  guarded_row-Keeps key since e cache same =
      Keeps-if _ _ _ (λ h. check_row-Keeps key since e cache (ground (arith, h)))
        (λ _. Keeps-pure tt)

  fire-Keeps :
      (key : Text) (since : ℕ) (e : AgentEvent) → e.key ≡ key → Keeps P (Jobs.fire d key since e)
  unfolding Jobs.fire
  fire-Keeps key since e same = search (keeps_rules, disarming-Keeps, guarded_row-Keeps) depth 12

  pub run_due-Keeps : (key : Text) (since : ℕ) → Keeps P (Jobs.run_due d key since)
  unfolding Jobs.run_due
  run_due-Keeps key since = Keeps-gets_bind _ _ λ s h. elim (Option-cases (get key s.armed_by)) [
    | inl absent ↦ rw absent ((Keeps-pure {Inv = P} tt).at s h)
    | inr (e, armed) ↦ rw armed ((fire-Keeps key since e (stable.keyed s h key e armed)).at s h)
  ]

  pub job-Keeps : (j : Job) → Keeps P (Jobs.job d j)
  unfolding Jobs.job
  job-Keeps (event e) = step-Keeps e
  job-Keeps (due key since) = run_due-Keeps key since

module _ {W : Type 0} (d : Deps W) {P : Engine W → Type 0} (stable : StableJobs d P)
    (taking : (s : Engine W) (q : List Job) → P s → P (record s { queue = q })) where
  running_job-Keeps : (j : Job) → Keeps P (Jobs.job d j)
  running_job-Keeps j = job-Keeps d stable j

  emptying-Keeps : Keeps P (modify (λ s. record s { queue = [] }))
  emptying-Keeps = Keeps-modify _ (λ s. taking s [])

  run_job-Keeps : (j : Job) → Keeps P (Jobs.run_job d j)
  unfolding Jobs.run_job
  run_job-Keeps j =
      search (keeps_rules, Keeps-effect d stable, emptying-Keeps, running_job-Keeps) depth 12

  next_job-Keeps :
      (again : Exec (Engine W) (Unit {0})) (q : List Job)
      → Keeps P again
      → Keeps P (Jobs.next_job d again q)
  unfolding Jobs.next_job
  next_job-Keeps again [] k = record { at = λ s h. h }
  next_job-Keeps again (j ∷ rest) k = record {
    at = λ s h.
        k.at (Jobs.run_job d j (record s { queue = rest })).1
          ((run_job-Keeps j).at (record s { queue = rest }) (taking s rest h));
  }

  run_loop-Keeps : (fuel : ℕ) → Keeps P (Jobs.run_loop d fuel)
  unfolding Jobs.run_loop
  run_loop-Keeps zero = record { at = λ s h. h }
  run_loop-Keeps (suc fuel) =
      let ih = run_loop-Keeps fuel in
      record { at = λ s. (next_job-Keeps (Jobs.run_loop d fuel) s.queue ih).at s }

  pub run-Keeps : Keeps P (Jobs.run d)
  unfolding Jobs.run
  run-Keeps = record { at = λ s. (run_loop-Keeps (length s.queue)).at s }
