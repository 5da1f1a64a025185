-- ===== src/Notify/Engine/Stable.antt =====
-- Invariants of the engine. `Stable` names what an invariant has to survive, one field for each way in
-- which the methods change the state.
use tagents.Prelude.{ℕ, ◌≡◌, Bool, true, false, none, some, List, [], ◌∷◌}
use tagents.Text.{Text}
use tagents.Dict.{Dict, get, remove, insert}
use tagents.Exec.{Result, ◌>>=◌, case_result, Keeps}
use tagents.Notify.Event.{AgentEvent}
use tagents.Notify.Kinds.{NoticeKind, counts_session}
use tagents.Notify.Deadlines
use tagents.Notify.Deadlines.{Deadlines}
use tagents.Notify.Options.{Options}
use tagents.Notify.Notifier.{Notice}
use tagents.Notify.Engine.{Deps, Engine, Job, logged, effect, record_action}
use tagents.Notify.Engine.Post.{notice_id, take_down, notifier_post, answered, refused}
use tagents.Notify.Engine.Follow

pub record StableJobs {W : Type 0} (d : Deps W) (P : Engine W → Type 0) : Type 0 where
  pub world : (s : Engine W) (w : W) → P s → P (record s { world = w })
  pub logging :
      (s : Engine W) (parts : List Text) → P s → P (record s { trace = logged parts ∷ s.trace })
  pub questioning : (s : Engine W) (q : Dict ℕ) → P s → P (record s { questions = q })
  pub warning : (s : Engine W) (w : Dict ℕ) → P s → P (record s { warned_at = w })
  pub failing : (s : Engine W) (f : List Text) → P s → P (record s { post_failures = f })
  pub withdrawing : (id : Text) → Keeps P (take_down d id)
  pub posting :
      (kind : NoticeKind) (e : AgentEvent) (gone : Bool) (n : Notice)
      → n.id ≡ notice_id e.key
      → counts_session e.key ≡ true
      → Keeps P
          (notifier_post d n >>= λ r. case_result r (refused d kind e) (answered d kind e gone n))
  pub keyed :
      (s : Engine W) → P s → (k : Text) (e : AgentEvent) → get k s.armed_by ≡ some e → e.key ≡ k
  pub arming :
      (s : Engine W) (e : AgentEvent) (w : Dict ℕ) (i t : ℕ)
      → P s
      → P (record s {
        armed_by = insert e.key e s.armed_by;
        warned_at = w;
        deadlines = Deadlines.arm e.key i t s.deadlines;
      })
  pub cancelling :
      (s : Engine W) (w : Dict ℕ) (k : Text)
      → P s
      → P (record s {
        deadlines = Deadlines.cancel k s.deadlines;
        armed_by = remove k s.armed_by;
        warned_at = w;
      })
  pub disarming : (s : Engine W) (k : Text) → P s → P (record s { armed_by = remove k s.armed_by })

pub record Stable {W : Type 0} (d : Deps W) (P : Engine W → Type 0) : Type 0 where
  pub jobs : StableJobs d P
  pub sweeping :
      (s : Engine W) (q : List Job) (at : ℕ)
      → P s
      → P (record s { queue = q; deadlines = (Deadlines.take_due at s.deadlines).1 })
  pub queueing :
      (s : Engine W) (h : Bool) (q : List Job) → P s → P (record s { heard = h; queue = q })
  pub taking : (s : Engine W) (q : List Job) → P s → P (record s { queue = q })
  pub following : (s : Engine W) (b : Bool) → P s → P (record s { following = b })
  pub followed :
      (s : Engine W) (at after : ℕ)
      → P s
      → P (record s { followed_at = at; followed_after = after; heard = false })
  pub refollowing : Keeps P (Follow.refollow_soon d)
  pub resetting : (s : Engine W) → P s → P (record s { refollow_after = Follow.refollow_min_ms })
  pub unfollowing : (s : Engine W) → P s → P (record s { refollow = none })
  pub reloading : (s : Engine W) (o : Options) → P s → P (record s { options = o })
  pub stopping :
      (s : Engine W) (r : Result Text (Unit {0}))
      → P s
      → P (record s {
        following = false;
        refollow = none;
        queue = [];
        deadlines = Deadlines.new;
        armed_by = [];
        questions = [];
        warned_at = [];
        stopped = some r;
      })

module _ {W A : Type 0} (d : Deps W) {P : Engine W → Type 0} (stable : StableJobs d P) where
  pub Keeps-effect : (f : W → A × W) → Keeps P (effect f)
  unfolding effect
  Keeps-effect f = record { at = λ s h. stable.world s (f s.world).1 h }

module _ {W : Type 0} (d : Deps W) {P : Engine W → Type 0} (stable : StableJobs d P) where
  pub Keeps-say : (parts : List Text) → Keeps P (record_action (logged parts))
  unfolding record_action
  Keeps-say parts = record { at = λ s h. stable.logging s parts h }
