-- ===== src/Models.antt =====
-- models/models.go: the records that the components exchange.
pub mod Status
use live_actions.Base.{ℕ, String, Bool, Option, none, List}
use Status.{JobStatus, other}

-- A `time.Time` is its instant in seconds, UTC; 0 is Go's zero time, and `Sub` is exact on seconds.
abbrev pub Time : Type 0
Time = ℕ

abbrev pub Bytes : Type 0
Bytes = List ℕ

-- `labels` is `none` where the slice is nil.
pub record WorkflowJob : Type 0 where
  pub id : ℕ
  pub name : String
  pub status : JobStatus
  pub labels : Option (List String)
  pub html_url : String
  pub conclusion : String
  pub created_at : Time
  pub started_at : Time
  pub completed_at : Time
  pub run_id : ℕ

-- Go's zero value of the record.
abbrev pub no_job : WorkflowJob
no_job = record {
  id = 0;
  name = "";
  status = other "";
  labels = none;
  html_url = "";
  conclusion = "";
  created_at = 0;
  started_at = 0;
  completed_at = 0;
  run_id = 0;
}

pub record WorkflowRun : Type 0 where
  pub id : ℕ
  pub name : String
  pub status : JobStatus
  pub html_url : String
  pub display_title : String
  pub conclusion : String
  pub created_at : Time
  pub run_started_at : Time
  pub updated_at : Time
  pub repository_name : String

pub record WorkflowJobEvent : Type 0 where
  pub action : String
  pub workflow_job : WorkflowJob

pub record Repository : Type 0 where
  pub name : String
  pub url : String

pub record WorkflowRunEvent : Type 0 where
  pub action : String
  pub repository : Repository
  pub workflow_run : WorkflowRun

pub record WorkflowUpdateEvent : Type 0 where
  pub kind : String
  pub action : String
  pub id : ℕ
  pub status : JobStatus
  pub timestamp : Time
  pub workflow_job : WorkflowJob
  pub workflow_run : WorkflowRun

pub record EventSequence : Type 0 where
  pub event_id : String
  pub sequence_id : ℕ
  pub timestamp : Time
  pub delivery_id : String
  pub received_at : Time

pub record OrderedEvent : Type 0 where
  pub sequence : EventSequence
  pub event_type : String
  pub raw_payload : Option Bytes
  pub processed_at : Option Time
  pub ordering_key : String
  pub status_priority : ℕ
  pub persisted : Bool

pub record MetricsSnapshot : Type 0 where
  pub timestamp : Time
  pub running : ℕ
  pub queued : ℕ
