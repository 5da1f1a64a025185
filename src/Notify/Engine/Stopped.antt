-- ===== src/Notify/Engine/Stopped.antt =====
-- crates/tagents-core/src/notify/engine.rs, `stop`: the proofs on a stopped engine.
use tagents.Prelude.{◌≡◌, refl, sym, subst, false, Option, none, some, List, [], ◌∷◌}
use tagents.Text.{Text}
use tagents.Exec.{Exec, Result, ok, err, ◌>>=◌, ◌>>◌, gets, modify, pure, case_of}
use tagents.Notify.Deadlines
use tagents.Notify.Options.{Options}
use tagents.Notify.Engine.{Deps, Engine, effect}
use tagents.Notify.Engine.Calls
use tagents.Notify.Engine.Reach.{Call, perform, start, wake, tick, stop, next_due, reload, after}

-- The options after the calls: those of the last reload.
unfoldable pub options_after : List Call → Options → Options
options_after [] options = options
options_after (reload new ∷ cs) options = options_after cs new
options_after (start ∷ cs) options = options_after cs options
options_after (wake ∷ cs) options = options_after cs options
options_after (tick ∷ cs) options = options_after cs options
options_after (stop ∷ cs) options = options_after cs options
options_after (next_due ∷ cs) options = options_after cs options

module _ {W : Type 0} (d : Deps W) where
  marked : Result Text (Unit {0}) → Engine W → Engine W
  marked done s = record s { stopped = some done }

  idle :
      (cs : List Call) (done : Result Text (Unit {0})) (s : Engine W)
      → after d cs (marked done s) ≡ record (marked done s) { options = options_after cs s.options }
  unfolding marked after perform options_after Calls.start Calls.wake Calls.tick Calls.turn
      Calls.stop Calls.next_due Calls.reload ◌>>=◌ gets
  idle [] done s = refl
  idle (start ∷ cs) done s = idle cs done s
  idle (wake ∷ cs) done s = idle cs done s
  idle (tick ∷ cs) done s = idle cs done s
  idle (stop ∷ cs) done s = idle cs done s
  idle (next_due ∷ cs) done s = idle cs done s
  idle (reload new ∷ cs) done s = idle cs done (record s { options = new })

  mark : (done : Result Text (Unit {0})) (s : Engine W) → s.stopped ≡ some done → marked done s ≡ s
  unfolding marked
  mark done s h = λ i. record s { stopped = (sym h) i }

  -- The state after calls on an engine that has stopped with the result.
  still :
      (cs : List Call) (done : Result Text (Unit {0})) (s : Engine W)
      → s.stopped ≡ some done
      → after d cs s ≡ record s { options = options_after cs s.options }
  unfolding marked
  still cs done s h =
      subst (λ t. after d cs t ≡ record t { options = options_after cs t.options }) (mark done s h)
        (idle cs done s)

  -- The rest of `stop` for an engine that runs.
  closing : Exec (Engine W) (Result Text (Unit {0}))
  closing = do
    closed ← effect d.feed_close
    let done : Result Text (Unit {0}) = elim closed [ none ↦ ok tt | some why ↦ err why ]
    modify (λ s. record s {
      following = false;
      refollow = none;
      queue = [];
      deadlines = Deadlines.new;
      armed_by = [];
      questions = [];
      warned_at = [];
      stopped = some done;
    })
    pure done

  -- `stop` leaves the result with which the engine has stopped.
  stopped-stop : (s : Engine W) → (Calls.stop d s).1.stopped ≡ some (Calls.stop d s).0
  unfolding Calls.stop closing ◌>>=◌ gets modify pure effect
  stopped-stop s = go s.stopped refl
    where
      go :
          (o : Option (Result Text (Unit {0})))
          → s.stopped ≡ o
          → let t = case_of o closing (λ done. pure done) s in t.1.stopped ≡ some t.0
      go none h = refl
      go (some r) h = h

  again : (s : Engine W) (r : Result Text (Unit {0})) → s.stopped ≡ some r → (Calls.stop d s).0 ≡ r
  unfolding Calls.stop closing ◌>>=◌ gets pure
  again s r h = subst (λ o. (case_of o closing (λ done. pure done) s).0 ≡ r) (sym h) refl

  -- Once the engine was stopped, later calls change nothing but the options, which are those of the
  -- last reload: no effect of the world runs, nothing is posted or logged. A later `stop` returns what
  -- the first one returned.
  pub stop_is_final :
      (cs : List Call) (s : Engine W)
      → let t = Calls.stop d s in
        (after d cs t.1 ≡ record t.1 { options = options_after cs t.1.options })
        × ((Calls.stop d (after d cs t.1)).0 ≡ t.0)
  stop_is_final cs s =
      let t = Calls.stop d s in
      let same = still cs t.0 t.1 (stopped-stop s) in
      (same, again (after d cs t.1) t.0 (rw same (stopped-stop s)))
