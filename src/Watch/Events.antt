-- ===== src/Watch/Events.antt =====
-- `WatchEventType` and `WatchEvent`.
use action_learning_p2p_vers.Prelude.Text.{Text}

pub data WatchEventType : Type 0 where
  created modified deleted moved : WatchEventType

pub record WatchEvent : Type 0 where
  pub type : WatchEventType
  pub path : Text
  pub new_path : Text
