-- ===== src/Services/IncidentQueue/Entry.antt =====
-- The JSON objects that services/incident_queue.py stores: queue entries, review slots, terminal
-- records. They share one record, in which a field that an object lacks is `none`. Every object
-- that the queue writes has `incident_id` and `org_id`. Times are clock readings.
use open_devops_agent.Prelude.{ℕ, Bool, true, false, not, Option, none, some, [], ◌∷◌}
use open_devops_agent.Text.{Text, codes, is_empty}
use open_devops_agent.Storage.Keys.{queue_key}
use open_devops_agent.Storage.Program.{Program}

pub data Status : Type 0 where
  pending processing completed failed : Status

-- The constants QUEUE_PENDING and so on, as they stand in keys.
abbrev pub status_text : Status → Text
status_text pending = codes "pending"
status_text processing = codes "processing"
status_text completed = codes "completed"
status_text failed = codes "failed"

abbrev pub same_status : Status → Status → Bool
same_status pending pending = true
same_status processing processing = true
same_status completed completed = true
same_status failed failed = true
same_status _ _ = false

-- `status == s`, where the status may be missing
abbrev pub has_status : Status → Option Status → Bool
has_status s none = false
has_status s (some t) = same_status s t

-- The parts of an incident's context that the queue reads, and the rest.
pub record Context : Type 0 where
  pub kind : Option Text
  pub scm_platform : Option Text
  pub repo : Option Text
  pub change_id : Option Text
  pub head_sha : Option Text
  pub payload : Text

pub record Summary : Type 0 where
  pub resolved : Option Bool
  pub steps : Option ℕ

-- `{}`, read by `get`
abbrev pub no_summary : Summary
no_summary = record { resolved = none; steps = none }

pub record Entry : Type 0 where
  pub incident_id : Text
  pub org_id : Text
  pub context : Option Context
  pub status : Option Status
  pub created_at : Option ℕ
  pub attempts : Option ℕ
  pub claimed_at : Option ℕ
  pub recovered_at : Option ℕ
  pub completed_at : Option ℕ
  pub failed_at : Option ℕ
  pub error : Option Text
  pub result_summary : Option Summary
  pub review_key : Option Text
  pub review_slot : Option Text

-- {"incident_id": incident_id, "org_id": org_id}
abbrev pub bare : Text → Text → Entry
bare incident_id org_id = record {
  incident_id = incident_id;
  org_id = org_id;
  context = none;
  status = none;
  created_at = none;
  attempts = none;
  claimed_at = none;
  recovered_at = none;
  completed_at = none;
  failed_at = none;
  error = none;
  result_summary = none;
  review_key = none;
  review_slot = none;
}

abbrev pub newer {ℓ} : {A : Type ℓ} → Option A → Option A → Option A
newer none old = old
newer (some a) old = some a

-- entry.update(other)
unfoldable pub update : Entry → Entry → Entry
update entry other = record {
  incident_id = other.incident_id;
  org_id = other.org_id;
  context = newer other.context entry.context;
  status = newer other.status entry.status;
  created_at = newer other.created_at entry.created_at;
  attempts = newer other.attempts entry.attempts;
  claimed_at = newer other.claimed_at entry.claimed_at;
  recovered_at = newer other.recovered_at entry.recovered_at;
  completed_at = newer other.completed_at entry.completed_at;
  failed_at = newer other.failed_at entry.failed_at;
  error = newer other.error entry.error;
  result_summary = newer other.result_summary entry.result_summary;
  review_key = newer other.review_key entry.review_key;
  review_slot = newer other.review_slot entry.review_slot;
}

-- `if text:` for a field that may be missing
abbrev pub truthy : Option Text → Option Text
truthy none = none
truthy (some []) = none
truthy (some (c ∷ s)) = some (c ∷ s)

abbrev pub is_truthy : Option Text → Bool
is_truthy none = false
is_truthy (some s) = not (is_empty s)

-- The programs of the queue.
abbrev pub Queue : Type 0 → Type 0
Queue A = Program Entry A

abbrev pub pending_key : Text → Text → Text
pending_key org_id incident_id = queue_key org_id (codes "pending") incident_id

abbrev pub processing_key : Text → Text → Text
processing_key org_id incident_id = queue_key org_id (codes "processing") incident_id

abbrev pub completed_key : Text → Text → Text
completed_key org_id incident_id = queue_key org_id (codes "completed") incident_id

abbrev pub failed_key : Text → Text → Text
failed_key org_id incident_id = queue_key org_id (codes "failed") incident_id
