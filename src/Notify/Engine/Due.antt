-- ===== src/Notify/Engine/Due.antt =====
-- crates/tagents-core/src/notify/engine.rs, the re-follow in `wake` and `tick`: the lemmas on its time.
use tagents.Prelude.{
  ℕ, ◌≤◌, ◌<◌, ◌≡◌, refl, sym, subst, not, Option, none, some, arith, leb, inl, inr, Bool-cases,
}
use tagents.Exec.{Exec, ◌>>=◌, ◌>>◌, Keeps, keeps_rules, pure, gets, modify, case_of, when}
use tagents.Notify.Engine.{Deps, Engine, Delivery, Refollow, effect}
use tagents.Notify.Engine.Jobs.{is_some, now, run}
use tagents.Notify.Engine.Follow
use tagents.Notify.Engine.Calls
use tagents.Notify.Engine.Trace.{IsKeyed, nothing-IsKeyed, insert-IsKeyed, remove-IsKeyed}
use tagents.Notify.Engine.Stable.{Stable, Keeps-effect}
use tagents.Notify.Engine.Running.{run-Keeps}
use tagents.Notify.Engine.Blind.{blind-Stable}
use tagents.Notify.Engine.Reach.{reading-Keeps, sweep-Keeps, ingest-Keeps, follow_again-Keeps}

-- A re-follow that is pending is due only after the time.
abbrev pub IsLater : ℕ → Option Refollow → Type 0
IsLater time none = Unit {0}
IsLater time (some r) = time < r.at

record Later {W : Type 0} (time : ℕ) (s : Engine W) : Type 0 where
  keyed : IsKeyed s.armed_by
  waits : 1 ≤ s.refollow_after
  later : IsLater time s.refollow

-- The clock reads the time or more from now on.
module _ {W : Type 0} (d : Deps W) (time : ℕ) (clock : (w : W) → time ≤ (d.now_ms w).0) where
  refollow_soon-Later : Keeps (Later time) (Follow.refollow_soon d)
  unfolding Follow.refollow_soon now effect ◌>>=◌
  refollow_soon-Later = record {
    at = λ s h. record {
      keyed = h.keyed;
      waits = omega (arith, h.waits);
      later = omega (arith, h.waits, clock s.world);
    };
  }

  Later-Stable : Stable d (Later time)
  Later-Stable = record {
    jobs =
        blind-Stable d
          (λ s _ _ _ _ _ h. record { keyed = h.keyed; waits = h.waits; later = h.later })
          (λ s w h. record { keyed = h.keyed; waits = h.waits; later = h.later }) (λ s h. h.keyed)
          (λ s e w i t h. record {
            keyed = insert-IsKeyed e s.armed_by h.keyed;
            waits = h.waits;
            later = h.later;
          })
          (λ s w k h. record {
            keyed = remove-IsKeyed k s.armed_by h.keyed;
            waits = h.waits;
            later = h.later;
          })
          (λ s k h. record {
            keyed = remove-IsKeyed k s.armed_by h.keyed;
            waits = h.waits;
            later = h.later;
          });
    sweeping = λ s q at h. record { keyed = h.keyed; waits = h.waits; later = h.later };
    queueing = λ s b q h. record { keyed = h.keyed; waits = h.waits; later = h.later };
    taking = λ s q h. record { keyed = h.keyed; waits = h.waits; later = h.later };
    following = λ s b h. record { keyed = h.keyed; waits = h.waits; later = h.later };
    followed = λ s at since h. record { keyed = h.keyed; waits = h.waits; later = h.later };
    refollowing = refollow_soon-Later;
    resetting = λ s h. record { keyed = h.keyed; waits = omega arith; later = h.later };
    unfollowing = λ s h. record { keyed = h.keyed; waits = h.waits; later = tt };
    reloading = λ s o h. record { keyed = h.keyed; waits = h.waits; later = h.later };
    stopping = λ s r h. record { keyed = nothing-IsKeyed; waits = h.waits; later = tt };
  }

  when_due-Later :
      (r : Refollow) (s : Engine W)
      → s.refollow ≡ some r
      → IsKeyed s.armed_by
      → 1 ≤ s.refollow_after
      → Later time (Calls.refollow_when_due d r s).1
  unfolding Calls.refollow_when_due now effect modify pure ◌>>=◌
  when_due-Later r s pending keyed waits = elim (Bool-cases (leb r.at (d.now_ms s.world).0)) [
    | inl due ↦ rw due (
        (follow_again-Keeps d Later-Stable r.wait).at _
          (record { keyed = keyed; waits = waits; later = tt }))
    | inr early ↦ rw early (record {
      keyed = keyed;
      waits = waits;
      later = rw pending (ground (arith, early, clock s.world));
    })
  ]

  -- Whatever re-follow was pending, it is not due any more when it has been looked at.
  refollow_due-Later :
      (s : Engine W)
      → IsKeyed s.armed_by
      → 1 ≤ s.refollow_after
      → Later time (Calls.refollow_due d s).1
  unfolding Calls.refollow_due gets pure ◌>>=◌
  refollow_due-Later s keyed waits = cases s.refollow refl
    where
      cases : (o : Option Refollow) → s.refollow ≡ o → Later time (Calls.refollow_due d s).1
      cases none pending =
          subst (λ o. Later time (case_of o (pure tt) (Calls.refollow_when_due d) s).1)
            (sym pending)
            (record { keyed = keyed; waits = waits; later = subst (IsLater time) (sym pending) tt })
      cases (some r) pending =
          subst (λ o. Later time (case_of o (pure tt) (Calls.refollow_when_due d) s).1)
            (sym pending) (when_due-Later r s pending keyed waits)

  now-Later : Keeps (Later time) (now d)
  now-Later = reading-Keeps d Later-Stable

  ingest-Later : (delivery : Delivery) → Keeps (Later time) (Follow.ingest d delivery)
  ingest-Later = ingest-Keeps d Later-Stable

  sweep-Later : Keeps (Later time) (Follow.sweep d)
  sweep-Later = sweep-Keeps d Later-Stable

  run-Later : Keeps (Later time) (run d)
  run-Later = run-Keeps d Later-Stable.jobs Later-Stable.taking

  -- What a turn does once it has looked at the re-follow.
  working : (ℕ → W → Delivery × W) → Exec (Engine W) (Unit {0})
  working read = do
    at ← now d
    delivery ← effect (read at)
    Follow.ingest d delivery
    Follow.sweep d
    run d

  working-Later : (read : ℕ → W → Delivery × W) → Keeps (Later time) (working read)
  unfolding working
  working-Later read =
      let hearing : (at : ℕ) → Keeps (Later time) (effect (read at)) =
        λ at. Keeps-effect d (Later-Stable.jobs) (read at) in
      search (keeps_rules, now-Later, ingest-Later, sweep-Later, run-Later) depth 14

  -- A turn of an engine that is not stopped leaves no re-follow whose time has come.
  pub turn-IsLater :
      (read : ℕ → W → Delivery × W) (s : Engine W)
      → s.stopped ≡ none
      → IsKeyed s.armed_by
      → 1 ≤ s.refollow_after
      → IsLater time (Calls.turn d read s).1.refollow
  unfolding Calls.turn working gets pure ◌>>=◌
  turn-IsLater read s running keyed waits =
      subst
        (λ o.
          IsLater time
            (when (not (is_some o)) (Calls.refollow_due d >>= λ _. working read) s).1.refollow)
        (sym running) ((working-Later read).at _ (refollow_due-Later s keyed waits)).later
