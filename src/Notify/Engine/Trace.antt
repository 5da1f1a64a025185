-- ===== src/Notify/Engine/Trace.antt =====
-- crates/tagents-core/src/notify/engine.rs: the lemmas on the trace of what the engine posts and withdraws.
use tagents.Prelude.{◌≡◌, true, some, List, [], ◌∷◌, if◌then◌else◌, arith, ap}
use mathlib.Core.Path.{subst}
use tagents.Text.{Text, text_eq_iff}
use tagents.Dict.{Dict, get, insert, remove, get-insert, get-remove, member, discard, add}
use tagents.Exec.{Result, ok, err}
use tagents.Notify.Event.{AgentEvent}
use tagents.Notify.Kinds.{counts_session}
use tagents.Notify.Deadlines.{Deadlines}
use tagents.Notify.Deadlines.Keyed.{IsUnique}
use tagents.Notify.Notifier.{Notice, PostResult}
use tagents.Notify.Engine.{Engine, Action, logged, posted, withdrew}
use tagents.Notify.Engine.Post.{notice_id}

-- The notices on screen by what was done: shown, and not withdrawn since.
unfoldable pub on_screen : List Action → List Text
on_screen [] = []
on_screen (logged parts ∷ past) = on_screen past
on_screen (posted notice (err why) ∷ past) = on_screen past
on_screen (posted notice (ok result) ∷ past) =
    let before = on_screen past in if result.shown then add notice.id before else before
on_screen (withdrew id result ∷ past) = discard id (on_screen past)

-- A notice of a session that has a pane of its own.
abbrev pub IsCounted : Notice → Type 0
IsCounted notice = (key : Text) × (notice.id ≡ notice_id key) × (counts_session key ≡ true)

-- Every notice was of a counted session, and each withdrawal was of a notice on screen.
abbrev pub IsLawful : List Action → Type 0
IsLawful [] = Unit
IsLawful (logged parts ∷ past) = IsLawful past
IsLawful (posted notice result ∷ past) = IsCounted notice × IsLawful past
IsLawful (withdrew id result ∷ past) = (member id (on_screen past) ≡ true) × IsLawful past

-- Each armed event stands under its own key.
abbrev pub IsKeyed : Dict AgentEvent → Type 0
IsKeyed armed = (k : Text) (e : AgentEvent) → get k armed ≡ some e → e.key ≡ k

pub record Sound (up : List Text) (past : List Action) (armed : Dict AgentEvent) (ds : Deadlines)
    : Type 0 where
  pub shows : up ≡ on_screen past
  pub lawful : IsLawful past
  pub keyed : IsKeyed armed
  pub unique : IsUnique ds.waiting

abbrev pub IsSound : {W : Type 0} → Engine W → Type 0
IsSound s = Sound s.up s.trace s.armed_by s.deadlines

pub nothing-IsKeyed : IsKeyed []
unfolding get
nothing-IsKeyed k e got = cc

pub insert-IsKeyed :
    (e : AgentEvent) (armed : Dict AgentEvent) → IsKeyed armed → IsKeyed (insert e.key e armed)
insert-IsKeyed e armed h k x got =
    ground (arith, get-insert e.key k e armed, text_eq_iff e.key k, h k x)

pub remove-IsKeyed : (j : Text) (armed : Dict AgentEvent) → IsKeyed armed → IsKeyed (remove j armed)
remove-IsKeyed j armed h k x got = ground (arith, get-remove j k armed, h k x)

module _ {up : List Text} {past : List Action} {armed : Dict AgentEvent} {ds : Deadlines}
    (h : Sound up past armed ds) where
  pub logged-Sound : (parts : List Text) → Sound up (logged parts ∷ past) armed ds
  unfolding on_screen
  logged-Sound parts = record {
    shows = h.shows;
    lawful = h.lawful;
    keyed = h.keyed;
    unique = h.unique;
  }

  pub withdrew-Sound :
      (id : Text) (r : Result Text (Unit {0}))
      → member id up ≡ true
      → Sound (discard id up) (withdrew id r ∷ past) armed ds
  unfolding on_screen
  withdrew-Sound id r shown = record {
    shows = ap (discard id) h.shows;
    lawful = (subst (λ u. member id u ≡ true) h.shows shown, h.lawful);
    keyed = h.keyed;
    unique = h.unique;
  }

  pub refused-Sound :
      (n : Notice) (why : Text) → IsCounted n → Sound up (posted n (err why) ∷ past) armed ds
  unfolding on_screen
  refused-Sound n why counted = record {
    shows = h.shows;
    lawful = (counted, h.lawful);
    keyed = h.keyed;
    unique = h.unique;
  }

  pub answered-Sound :
      (n : Notice) (r : PostResult)
      → IsCounted n
      → Sound (if r.shown then add n.id up else up) (posted n (ok r) ∷ past) armed ds
  unfolding on_screen
  answered-Sound n r counted = record {
    shows = ap (λ u. if r.shown then add n.id u else u) h.shows;
    lawful = (counted, h.lawful);
    keyed = h.keyed;
    unique = h.unique;
  }
