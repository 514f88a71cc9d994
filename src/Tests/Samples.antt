-- ===== src/Tests/Samples.antt =====
-- The concrete data that the tests share.
use live_actions.Base.{ℕ, String, true, Option, none, some, [], ◌∷◌, nat_beq, ltb, if◌then◌else◌}
use live_actions.Models.{
  Bytes, WorkflowJob, WorkflowRun, OrderedEvent, WorkflowJobEvent, WorkflowRunEvent,
}
use live_actions.Models.Status.{JobStatus, queued, completed, requested}
use live_actions.Database.{Db}
use live_actions.Metrics.{new_registry}
use live_actions.Sse.{new_sse}
use live_actions.Handlers.{App, Decoder}

abbrev pub job_at : JobStatus → WorkflowJob
job_at s = record {
  id = 7;
  name = "build";
  status = s;
  labels = some ("ubuntu-latest" ∷ []);
  html_url = "";
  conclusion = "success";
  created_at = 1000;
  started_at = 1030;
  completed_at = 1090;
  run_id = 3;
}

abbrev pub run_at : JobStatus → WorkflowRun
run_at s = record {
  id = 3;
  name = "ci";
  status = s;
  html_url = "";
  display_title = "ci";
  conclusion = "";
  created_at = 1000;
  run_started_at = 1001;
  updated_at = 1090;
  repository_name = "live-actions";
}

abbrev pub empty_db : Db
empty_db = record { jobs = []; runs = []; events = []; snapshots = []; now = 100000; faults = [] }

abbrev pub new_app : App
new_app = record { db = empty_db; registry = new_registry; sse = some new_sse }

abbrev job_action : ℕ → Option WorkflowJobEvent
job_action code =
    if nat_beq code 1
    then some (record { action = "queued"; workflow_job = job_at queued })
    else (if nat_beq code 2
        then some (record { action = "completed"; workflow_job = job_at completed })
        else none)

abbrev run_action : ℕ → Option WorkflowRunEvent
run_action code =
    if nat_beq code 3
    then some (record {
      action = "requested";
      repository = record { name = "live-actions"; url = "" };
      workflow_run = run_at requested;
    })
    else none

abbrev first_byte : Bytes → ℕ
first_byte [] = 0
first_byte (b ∷ bs) = b

-- A decoder that looks at the first byte: 1 is a queued job, 2 a completed one, 3 a requested run.
abbrev pub decoder : Decoder
decoder = record {
  job_event = λ payload. job_action (first_byte payload);
  run_event = λ payload. run_action (first_byte payload);
  is_object = λ payload. ltb 0 (first_byte payload);
}

abbrev pub event_of : String → ℕ → OrderedEvent
event_of id code = record {
  sequence = record {
    event_id = id;
    sequence_id = 0;
    timestamp = 1000;
    delivery_id = id;
    received_at = 2000;
  };
  event_type = "workflow_job";
  raw_payload = some (code ∷ []);
  processed_at = none;
  ordering_key = "job_7";
  status_priority = 2;
  persisted = true;
}
