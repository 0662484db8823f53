-- ===== src/Observer.antt =====
-- observer/: the ambient session recorder. The data of observer/models.py; a module below for each
-- of the recorder's parts.
pub mod Blocks
pub mod Gate
pub mod Session
pub mod Store
pub mod Ambient
pub mod Arbiter
pub mod Controller
pub mod Triggers
pub mod Screen
pub mod Compile
use agent_voca.Prelude.{ℕ, Bool, true, false, Option, List}
use agent_voca.Text.{Text}
use agent_voca.Vocab.Dictionary.{Mapping}

pub data EventKind : Type 0 where
  utterance_ambient utterance_dictated keyframe selection focus_change : EventKind
  pause_start pause_end gap : EventKind

pub data SessionStatus : Type 0 where
  opened closed compiled abandoned : SessionStatus

-- One row of the timeline; the values of `meta` are their JSON texts.
pub record ObserverEvent : Type 0 where
  pub id : ℕ
  pub session_id : ℕ
  pub ts_ms : ℕ
  pub kind : EventKind
  pub app_name : Option Text
  pub window_title : Option Text
  pub text : Option Text
  pub blob_path : Option Text
  pub meta : Mapping

pub record ObserverSession : Type 0 where
  pub id : ℕ
  pub uuid : Text
  pub started_at_ms : ℕ
  pub ended_at_ms : Option ℕ
  pub status : SessionStatus
  pub app_version : Text
  pub schema_version : ℕ

-- `kind == "focus_change"`
unfoldable pub is_focus_change : EventKind → Bool
is_focus_change focus_change = true
is_focus_change _ = false
