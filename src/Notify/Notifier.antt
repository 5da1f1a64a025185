-- ===== src/Notify/Notifier.antt =====
-- crates/tagents-core/src/notify/notifier.rs: a notice, and what a backend says of it.
use tagents.Prelude.{ℕ, Bool, Option, List}
use tagents.Text.{Text}
use tagents.Notify.Kinds.{NoticeKind}

pub record ClickAction : Type 0 where
  pub argv : List Text
  pub env : List (Text × Text)

pub record Notice : Type 0 where
  pub id : Text
  pub thread : Text
  pub kind : NoticeKind
  pub title : Text
  pub subtitle : Text
  pub body : Text
  pub click : ClickAction
  pub terminal_pid : Option ℕ
  pub skip_if_frontmost : Option Bool

pub record PostResult : Type 0 where
  pub shown : Bool
  pub why : Option Text
