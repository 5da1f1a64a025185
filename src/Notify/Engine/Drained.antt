-- ===== src/Notify/Engine/Drained.antt =====
-- crates/tagents-core/src/notify/engine.rs, `run` as `wake` and `tick` call it: the proofs on the queue of jobs.
use tagents.Prelude.{
  ℕ, zero, suc, ◌≤◌, ◌≡◌, refl, sym, ap, ◌∙◌, subst, Bool, true, none, not, List, [], ◌∷◌, arith,
  length, if◌then◌else◌, Bool-cases, inl, inr,
}
use tagents.Exec.{Exec, ◌>>=◌, ◌>>◌, Keeps, keeps_rules, gets, modify, pure, when}
use tagents.Notify.Options.{Options}
use tagents.Notify.Engine.{Deps, Engine, Delivery, Job, effect}
use tagents.Notify.Engine.Jobs
use tagents.Notify.Engine.Jobs.{is_some, now, run}
use tagents.Notify.Engine.Follow
use tagents.Notify.Engine.Calls
use tagents.Notify.Engine.Stable.{Stable, Keeps-effect, StableJobs}
use tagents.Notify.Engine.Running.{job-Keeps}
use tagents.Notify.Engine.Reach.{
  Call, after, after-Keeps, refollow_due-Keeps, reading-Keeps, sweep-Keeps, ingest-Keeps,
}
use tagents.Notify.Engine.Trace.{IsKeyed, nothing-IsKeyed, insert-IsKeyed, remove-IsKeyed}
use tagents.Notify.Engine.Blind.{blind-Stable}

new-IsKeyed : {W : Type 0} (options : Options) (w : W) → IsKeyed (Calls.new options w).armed_by
unfolding Calls.new
new-IsKeyed options w = nothing-IsKeyed

-- The queue holds the jobs that it is known to hold.
record Kept {W : Type 0} (q : List Job) (s : Engine W) : Type 0 where
  keyed : IsKeyed s.armed_by
  same : s.queue ≡ q

module _ {W : Type 0} (d : Deps W) (q : List Job) where
  Kept-Stable : StableJobs d (Kept {W = W} q)
  Kept-Stable =
      blind-Stable d (λ s _ _ _ _ _ h. record { keyed = h.keyed; same = h.same })
        (λ s w h. record { keyed = h.keyed; same = h.same }) (λ s h. h.keyed)
        (λ s e w i t h. record { keyed = insert-IsKeyed e s.armed_by h.keyed; same = h.same })
        (λ s w k h. record { keyed = remove-IsKeyed k s.armed_by h.keyed; same = h.same })
        (λ s k h. record { keyed = remove-IsKeyed k s.armed_by h.keyed; same = h.same })

  job-Kept : (j : Job) → Keeps (Kept q) (Jobs.job d j)
  job-Kept j = job-Keeps d Kept-Stable j

module _ {W : Type 0} (d : Deps W) where
  -- Whether the engine is to run no further job; the stop is asked unless the engine is stopped.
  abbrev pub asked : Engine W → Bool × Engine W
  asked s = if is_some s.stopped then (true, s) else effect d.is_stopped s

  -- The jobs one after the other, each with the later ones in the queue; once no further job is to run,
  -- the rest is let go of.
  unfoldable pub run_each : List Job → Engine W → Engine W
  run_each [] s = s
  run_each (j ∷ rest) s =
      let ready = asked (record s { queue = rest }) in
      let behind = run_each rest (Jobs.job d j ready.1).1 in
      if ready.0 then record ready.1 { queue = [] } else behind

  run_job_lem :
      (j : Job) (s : Engine W)
      → (Jobs.run_job d j s).1
        ≡ (if (asked s).0 then record (asked s).1 { queue = [] } else (Jobs.job d j (asked s).1).1)
  unfolding Jobs.run_job gets modify pure ◌>>=◌ effect
  run_job_lem j s = elim (Bool-cases (is_some s.stopped)) [
    | inl stopped ↦ rw stopped refl
    | inr running ↦
        rw running
          (elim (Bool-cases (d.is_stopped s.world).0) [ inl h ↦ rw h refl | inr h ↦ rw h refl ])
  ]

  asked-Kept : (q : List Job) (s : Engine W) → Kept q s → Kept q (asked s).1
  unfolding effect
  asked-Kept q s h = elim (Bool-cases (is_some s.stopped)) [
    | inl stopped ↦ rw stopped h
    | inr running ↦ rw running (record { keyed = h.keyed; same = h.same })
  ]

  next-Kept :
      (j : Job) (rest : List Job) (s : Engine W)
      → IsKeyed s.armed_by
      → Kept rest (Jobs.job d j (asked (record s { queue = rest })).1).1
  next-Kept j rest s keyed =
      let taken : Engine W = record s { queue = rest } in
      (job-Kept d rest j).at (asked taken).1
        (asked-Kept rest taken (record { keyed = keyed; same = refl }))

  run_each-empty : (q : List Job) (s : Engine W) → Kept q s → (run_each q s).queue ≡ []
  unfolding run_each
  run_each-empty [] s h = h.same
  run_each-empty (j ∷ rest) s h = elim (Bool-cases (asked (record s { queue = rest })).0) [
    | inl over ↦ rw over refl
    | inr on ↦ rw on (run_each-empty rest _ (next-Kept j rest s h.keyed))
  ]

  run_loop-nothing : (n : ℕ) (s : Engine W) → s.queue ≡ [] → Jobs.run_loop d n s ≡ (tt, s)
  unfolding Jobs.run_loop Jobs.next_job
  run_loop-nothing zero s e = refl
  run_loop-nothing (suc n) s e = ap (λ q. Jobs.next_job d (Jobs.run_loop d n) q s) e

  run_loop-run_each :
      (n : ℕ) (q : List Job) (s : Engine W)
      → Kept q s
      → length q ≤ n
      → Jobs.run_loop d n s ≡ (tt, run_each q s)
  unfolding Jobs.run_loop Jobs.next_job run_each
  run_loop-run_each n [] s h bound = run_loop-nothing n s h.same
  run_loop-run_each zero (j ∷ rest) s h bound = absurd (ground (arith, bound))
  run_loop-run_each (suc n) (j ∷ rest) s h bound =
      let taken : Engine W = record s { queue = rest } in
      ap (λ q. Jobs.next_job d (Jobs.run_loop d n) q s) h.same
      ∙ ap (Jobs.run_loop d n) (run_job_lem j taken)
      ∙ elim (Bool-cases (asked taken).0) [
        | inl over ↦ rw over (run_loop-nothing n (record (asked taken).1 { queue = [] }) refl)
        | inr on ↦
            rw on (run_loop-run_each n rest _ (next-Kept j rest s h.keyed) (ground (arith, bound)))
      ]

  run_lem :
      (s : Engine W)
      → IsKeyed s.armed_by
      → (run d s ≡ (tt, run_each s.queue s)) × ((run_each s.queue s).queue ≡ [])
  unfolding Jobs.run
  run_lem s keyed =
      let kept : Kept s.queue s = record { keyed = keyed; same = refl } in
      (
        run_loop-run_each (length s.queue) s.queue s kept (omega arith),
        run_each-empty s.queue s kept,
      )

module _ {W : Type 0} (d : Deps W) where
  -- Everything that a turn does before it runs the queue.
  unfoldable pub gathering : (ℕ → W → Delivery × W) → Exec (Engine W) (Unit {0})
  gathering read = do
    Calls.refollow_due d
    at ← now d
    delivery ← effect (read at)
    Follow.ingest d delivery
    Follow.sweep d

  IsKeyed-Stable : Stable d (λ s. IsKeyed s.armed_by)
  unfolding Follow.refollow_soon ◌>>=◌ now effect
  IsKeyed-Stable = record {
    jobs =
        blind-Stable d (λ s _ _ _ _ _ h. h) (λ s w h. h) (λ s h. h)
          (λ s e w i t h. insert-IsKeyed e s.armed_by h) (λ s w k h. remove-IsKeyed k s.armed_by h)
          (λ s k h. remove-IsKeyed k s.armed_by h);
    sweeping = λ s q at h. h;
    queueing = λ s b q h. h;
    taking = λ s q h. h;
    following = λ s b h. h;
    followed = λ s at since h. h;
    refollowing = refollowing;
    resetting = λ s h. h;
    unfollowing = λ s h. h;
    reloading = λ s o h. h;
    stopping = λ s r h. nothing-IsKeyed;
  }
    where
      refollowing : Keeps (λ s. IsKeyed s.armed_by) (Follow.refollow_soon d)
      refollowing = record { at = λ s h. h }

  refollow_due-Keyed : Keeps (λ s. IsKeyed s.armed_by) (Calls.refollow_due d)
  refollow_due-Keyed = refollow_due-Keeps d IsKeyed-Stable

  reading-Keyed : Keeps (λ s. IsKeyed s.armed_by) (now d)
  reading-Keyed = reading-Keeps d IsKeyed-Stable

  sweep-Keyed : Keeps (λ s. IsKeyed s.armed_by) (Follow.sweep d)
  sweep-Keyed = sweep-Keeps d IsKeyed-Stable

  ingest-Keyed : (x : Delivery) → Keeps (λ s. IsKeyed s.armed_by) (Follow.ingest d x)
  ingest-Keyed = ingest-Keeps d IsKeyed-Stable

  gathering-Keyed : (read : ℕ → W → Delivery × W) → Keeps (λ s. IsKeyed s.armed_by) (gathering read)
  unfolding gathering
  gathering-Keyed read =
      let delivering : (at : ℕ) → Keeps (λ s. IsKeyed s.armed_by) (effect (read at)) =
        λ at. Keeps-effect d (IsKeyed-Stable.jobs) (read at) in
      search (keeps_rules, refollow_due-Keyed, reading-Keyed, sweep-Keyed, ingest-Keyed) depth 12

  -- What a turn leaves: everything in the queue was run in order, and nothing is left in it.
  abbrev pub Ran : Engine W → Unit {0} × Engine W → Type 0
  Ran gathered t = (t ≡ (tt, run_each d gathered.queue gathered)) × (t.1.queue ≡ [])

  turn-Ran :
      (read : ℕ → W → Delivery × W) (s : Engine W)
      → s.stopped ≡ none
      → IsKeyed s.armed_by
      → Ran (gathering read s).1 (Calls.turn d read s)
  unfolding Calls.turn gathering gets pure ◌>>=◌
  turn-Ran read s running keyed =
      subst
        (λ o. Ran (gathering read s).1 (when (not (is_some o)) (gathering read >>= λ _. run d) s))
        (sym running)
        (let ran = run_lem d (gathering read s).1 ((gathering-Keyed read).at s keyed) in
          (ran.0, ap (λ t. t.1.queue) ran.0 ∙ ran.1))

-- When a new engine has had any calls and is not stopped, a wake and a tick end with the state that
-- `run_each` gives for the jobs in the queue, those that they take from the feed and those of the
-- deadlines included: they run one after the other in the order of the queue, and the stop is asked
-- before each; from the first that the stop is set for, no further job is run. The queue is then empty.
pub turn_runs_the_queue :
    {W : Type 0} (d : Deps W) (options : Options) (w : W) (cs : List Call)
    → (after d cs (Calls.new options w)).stopped ≡ none
    → let s = after d cs (Calls.new options w) in
      Ran d (gathering d d.feed_wake s).1 (Calls.wake d s)
      × Ran d (gathering d d.feed_end_grace s).1 (Calls.tick d s)
unfolding Calls.wake Calls.tick
turn_runs_the_queue d options w cs running =
    let s = after d cs (Calls.new options w) in
    let keyed = after-Keeps d (IsKeyed-Stable d) cs _ (new-IsKeyed options w) in
    (turn-Ran d d.feed_wake s running keyed, turn-Ran d d.feed_end_grace s running keyed)
