-- ===== src/Notify/Engine/Backoff.antt =====
-- crates/tagents-core/src/notify/engine.rs: the proofs on the wait before a re-follow.
use tagents.Prelude.{ℕ, ◌≤◌, Option, none, some, List, arith}
use tagents.Dict.{Dict}
use tagents.Exec.{◌>>=◌, Keeps}
use tagents.Notify.Event.{AgentEvent}
use tagents.Notify.Options.{Options}
use tagents.Notify.Engine.{Deps, Engine, Refollow, effect}
use tagents.Notify.Engine.Jobs.{now}
use tagents.Notify.Engine.Follow
use tagents.Notify.Engine.Calls
use tagents.Notify.Engine.Trace.{IsKeyed, nothing-IsKeyed, insert-IsKeyed, remove-IsKeyed}
use tagents.Notify.Engine.Stable.{Stable}
use tagents.Notify.Engine.Blind.{blind-Stable}
use tagents.Notify.Engine.Reach.{Call, after, after-Keeps}

abbrev pub InRange : ℕ → Type 0
InRange wait = (Follow.refollow_min_ms ≤ wait) × (wait ≤ Follow.refollow_max_ms)

abbrev pub IsWaiting : Option Refollow → Type 0
IsWaiting none = Unit
IsWaiting (some r) = InRange r.wait

record Paced (next : ℕ) (refollow : Option Refollow) (armed : Dict AgentEvent) : Type 0 where
  range : InRange next
  waits : IsWaiting refollow
  keyed : IsKeyed armed

abbrev IsPaced : {W : Type 0} → Engine W → Type 0
IsPaced s = Paced s.refollow_after s.refollow s.armed_by

module _ {W : Type 0} (d : Deps W) where
  refollow_soon-Paced : Keeps IsPaced (Follow.refollow_soon d)
  unfolding Follow.refollow_soon now effect ◌>>=◌
  refollow_soon-Paced = record {
    at = λ s h. record {
      range = (omega (arith, h.range), omega (arith, h.range));
      waits = h.range;
      keyed = h.keyed;
    };
  }

  IsPaced-Stable : Stable d IsPaced
  IsPaced-Stable = record {
    jobs =
        blind-Stable d (λ s _ _ _ _ _ h. h) (λ s w h. h) (λ s h. h.keyed)
          (λ s e w i t h. record {
            range = h.range;
            waits = h.waits;
            keyed = insert-IsKeyed e s.armed_by h.keyed;
          })
          (λ s w k h. record {
            range = h.range;
            waits = h.waits;
            keyed = remove-IsKeyed k s.armed_by h.keyed;
          })
          (λ s k h. record {
            range = h.range;
            waits = h.waits;
            keyed = remove-IsKeyed k s.armed_by h.keyed;
          });
    sweeping = λ s q at h. h;
    queueing = λ s b q h. h;
    taking = λ s q h. h;
    following = λ s b h. h;
    followed = λ s at since h. h;
    refollowing = refollow_soon-Paced;
    resetting = λ s h. record { range = omega arith; waits = h.waits; keyed = h.keyed };
    unfollowing = λ s h. record { range = h.range; waits = tt; keyed = h.keyed };
    reloading = λ s o h. h;
    stopping = λ s r h. record { range = h.range; waits = tt; keyed = nothing-IsKeyed };
  }

new-IsPaced : {W : Type 0} (options : Options) (w : W) → IsPaced (Calls.new options w)
unfolding Calls.new
new-IsPaced options w = record { range = omega arith; waits = tt; keyed = nothing-IsKeyed }

-- After any calls, the wait before the next follow lies between one second and five minutes, and so
-- does the wait of a re-follow that is pending.
pub backoff_bounded :
    {W : Type 0} (d : Deps W) (options : Options) (w : W) (cs : List Call)
    → let s = after d cs (Calls.new options w) in InRange s.refollow_after × IsWaiting s.refollow
backoff_bounded d options w cs =
    let paced = after-Keeps d (IsPaced-Stable d) cs (Calls.new options w) (new-IsPaced options w) in
    (paced.range, paced.waits)
