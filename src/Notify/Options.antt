-- ===== src/Notify/Options.antt =====
-- crates/tagents-core/src/notify/options.rs: the options of the daemon with their defaults. How the
-- TOML file is read is not modelled.
use tagents.Prelude.{ℕ, Bool, true, false, Option, none}
use tagents.Text.{Text}
use tagents.Notify.Kinds.{NoticeKind, question, permission, turn_done, cache_expiring, session_end}

pub data Backend : Type 0 where
  auto macos log off : Backend

pub data Click : Type 0 where
  dock goto focus : Click

pub record Toggles : Type 0 where
  pub enabled : Bool
  pub skip_visible : Bool

pub record CacheExpiring : Type 0 where
  pub toggles : Toggles
  pub after_ms : ℕ
  pub ttl_ms : ℕ

pub record Events : Type 0 where
  pub question : Toggles
  pub permission : Toggles
  pub turn_done : Toggles
  pub cache_expiring : CacheExpiring
  pub session_end : Toggles

pub record Options : Type 0 where
  pub backend : Backend
  pub click : Click
  pub icon : Option Text
  pub events : Events

abbrev on : Toggles
on = record { enabled = true; skip_visible = true }

-- `Options::default`
abbrev pub default : Options
default = record {
  backend = auto;
  click = dock;
  icon = none;
  events = record {
    question = on;
    permission = on;
    turn_done = on;
    cache_expiring = record {
      toggles = record { enabled = true; skip_visible = false };
      after_ms = 3_000_000;
      ttl_ms = 3_600_000;
    };
    session_end = record { enabled = false; skip_visible = true };
  };
}

-- `toggles_of` of engine.rs: the switches of one kind.
unfoldable pub toggles_of : Events → NoticeKind → Toggles
toggles_of events question = events.question
toggles_of events permission = events.permission
toggles_of events turn_done = events.turn_done
toggles_of events cache_expiring = events.cache_expiring.toggles
toggles_of events session_end = events.session_end
