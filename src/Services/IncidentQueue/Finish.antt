-- ===== src/Services/IncidentQueue/Finish.antt =====
-- `mark_completed`, `mark_failed` and what they call, of services/incident_queue.py.
use open_devops_agent.Prelude.{Bool, false, not, Option, none, some, if◌then◌else◌}
use open_devops_agent.Text.{Text, text_eq}
use open_devops_agent.Storage.Keys.{review_release_key, review_claim_key}
use open_devops_agent.Storage.Program.{
  done, fail, key_error, ◌>>=◌, ◌>>◌, get_json, put_json, delete, now, require,
}
use open_devops_agent.Services.IncidentQueue.Entry.{
  Entry, Status, completed, failed, has_status, bare, Queue, pending_key, processing_key,
  completed_key, failed_key, Summary, update, is_truthy, truthy,
}
use open_devops_agent.Services.IncidentQueue.Reviews.{record_terminal}

-- The failed entry counts if it is a review.
abbrev failed_review : Option Entry → Option Entry
failed_review none = none
failed_review (some entry) = if is_truthy entry.review_key then some entry else none

abbrev pub or_next : Option Entry → Queue (Option Entry) → Queue (Option Entry)
or_next none next = next
or_next (some entry) next = done (some entry)

-- _get_processing
unfoldable pub get_processing : Text → Text → Queue (Option Entry)
get_processing org_id incident_id = do
  entry ← get_json (processing_key org_id incident_id)
  or_next entry do
    failure ← get_json (failed_key org_id incident_id)
    or_next (failed_review failure) (get_json (review_claim_key org_id incident_id))

-- `entry or {"incident_id": incident_id, "org_id": org_id}`
abbrev or_bare : Text → Text → Option Entry → Entry
or_bare org_id incident_id none = bare incident_id org_id
or_bare org_id incident_id (some entry) = entry

-- `current and current["incident_id"] == incident_id`
abbrev pub is_attempt : Text → Option Entry → Bool
is_attempt incident_id none = false
is_attempt incident_id (some current) = text_eq current.incident_id incident_id

-- The part of `_finish_review` for a failed attempt: it gives up its canonical entry, and leaves a
-- terminal record.
abbrev release : Text → Entry → Queue (Option Entry)
release org_id entry = do
  key ← require entry.review_key
  current ← get_json key
  (if is_attempt entry.incident_id current then delete key else done false)
  record_terminal org_id entry

-- _finish_review
unfoldable pub finish_review : Text → Entry → Queue Unit
unfolding record_terminal text_eq
finish_review org_id entry = do
  put_json (review_claim_key org_id entry.incident_id) entry
  status ← require entry.status
  (if has_status failed (some status) then release org_id entry else done none)
  delete (pending_key org_id entry.incident_id)
  done tt

-- The status of what `_record_terminal` returned: None has no item.
abbrev terminal_status : Option Entry → Queue Status
terminal_status none = fail key_error
terminal_status (some terminal) = require terminal.status

abbrev or_entry : Option Entry → Entry → Entry
or_entry none entry = entry
or_entry (some terminal) entry = terminal

abbrev complete_review : Text → Entry → Text → Queue Unit
complete_review org_id entry key = do
  terminal ← record_terminal org_id entry
  status ← terminal_status terminal
  if not (has_status completed (some status)) then done tt else do
    let final = update entry (or_entry terminal entry)
    put_json key final
    finish_review org_id final

abbrev complete : Text → Text → Entry → Option Text → Queue Unit
complete org_id incident_id entry (some key) = complete_review org_id entry key
complete org_id incident_id entry none = do
  put_json (completed_key org_id incident_id) entry
  delete (processing_key org_id incident_id)
  done tt

unfoldable pub mark_completed : Text → Text → Summary → Queue Unit
unfolding get_processing record_terminal finish_review update
mark_completed org_id incident_id result = do
  found ← get_processing org_id incident_id
  time ← now
  let entry = record (or_bare org_id incident_id found) {
    status = some completed;
    completed_at = some time;
    result_summary = some result;
  }
  complete org_id incident_id entry (truthy entry.review_key)

-- The entry to keep, when `entry.get("status") != QUEUE_FAILED`.
abbrev failed_entry : Entry → Text → Queue Entry
failed_entry entry error = if has_status failed entry.status then done entry else do
  time ← now
  done (record entry { status = some failed; failed_at = some time; error = some error })

abbrev is_completed : Option Entry → Queue Bool
is_completed none = done false
is_completed (some terminal) = do
  status ← require terminal.status
  done (has_status completed (some status))

abbrev fail_review : Text → Text → Text → Entry → Text → Queue Unit
fail_review org_id incident_id error found key = do
  terminal ← get_json (review_release_key org_id incident_id)
  over ← is_completed terminal
  if over then done tt else do
    entry ← failed_entry found error
    put_json (failed_key org_id incident_id) entry
    current ← get_json key
    (if is_attempt incident_id current then put_json key entry else done tt)
    finish_review org_id entry

abbrev fail_plain : Text → Text → Text → Entry → Queue Unit
fail_plain org_id incident_id error found = do
  entry ← failed_entry found error
  put_json (failed_key org_id incident_id) entry
  delete (processing_key org_id incident_id)
  done tt

abbrev fail_by_kind : Text → Text → Text → Entry → Option Text → Queue Unit
fail_by_kind org_id incident_id error found (some key) =
    fail_review org_id incident_id error found key
fail_by_kind org_id incident_id error found none = fail_plain org_id incident_id error found

unfoldable pub mark_failed : Text → Text → Text → Queue Unit
unfolding get_processing finish_review text_eq
mark_failed org_id incident_id error = do
  found ← get_processing org_id incident_id
  let entry = or_bare org_id incident_id found
  fail_by_kind org_id incident_id error entry (truthy entry.review_key)
