-- ===== src/Services/IncidentQueue/Reviews.antt =====
-- `_reserve_review_slot`, `_publish_review` and `_record_terminal` of
-- services/incident_queue.py.
use open_devops_agent.Prelude.{
  ℕ, Bool, true, false, ◌||◌, Option, none, some, is_some, if◌then◌else◌,
}
use open_devops_agent.Text.{Text}
use open_devops_agent.Storage.Keys.{
  review_dedupe_key, review_slot_key, review_release_key, review_claim_key,
}
use open_devops_agent.Storage.Program.{
  done, fail, Outcome, raised, storage_error, lineage_missing, publication_lost, ◌>>=◌, ◌>>◌,
  get_json, try_put_json_if_absent, delete, exists, require,
}
use open_devops_agent.Services.IncidentQueue.Entry.{
  Entry, Status, processing, completed, failed, has_status, bare, Queue, pending_key, failed_key,
  no_summary, Summary,
}

-- `if self.storage.exists(terminal_key) or self.storage.get_json(failed_key)`
unfoldable pub has_ended : Text → Text → Queue Bool
has_ended org_id incident_id = do
  released ← exists (review_release_key org_id incident_id)
  if released
      then done true
      else do failure ← get_json (failed_key org_id incident_id); done (is_some failure)

-- What an object must be, where the code raises if it is missing.
abbrev pub or_fail : Option Entry → Queue Entry → Queue Entry
or_fail none otherwise = otherwise
or_fail (some entry) otherwise = done entry

-- `except Exception: if not self.storage.get_json(key): raise`
abbrev settled : Text → Outcome → Queue Unit
settled key raised = do found ← get_json key; if is_some found then done tt else fail storage_error
settled key _ = done tt

unfoldable pub reserve_review_slot : Text → Text → ℕ → Entry → Queue Entry
reserve_review_slot org_id review_id sequence entry = do
  let key = review_slot_key org_id review_id sequence
  let proposal = record (bare entry.incident_id org_id) {
    created_at = entry.created_at;
    review_slot = some key;
    review_key = some (review_dedupe_key org_id entry.incident_id);
  }
  answer ← try_put_json_if_absent key proposal
  settled key answer
  slot ← get_json key
  or_fail slot (fail lineage_missing)

-- The exception of the last write of `_publish_review`.
abbrev pending_settled : Text → Text → Outcome → Queue Unit
pending_settled org_id incident_id raised = do
  ended ← has_ended org_id incident_id
  if ended then done tt else do
    claim ← get_json (review_claim_key org_id incident_id)
    if is_some claim then done tt else do
      queued ← exists (pending_key org_id incident_id)
      if queued then done tt else fail storage_error
pending_settled org_id incident_id _ = done tt

-- The end of `_publish_review`, with the canonical entry at hand.
unfoldable pub publish_pending : Text → Text → Entry → Queue Text
unfolding has_ended
publish_pending org_id incident_id canonical =
    if has_status processing canonical.status
      || has_status completed canonical.status
      || has_status failed canonical.status
    then done incident_id
    else do
      answer ← try_put_json_if_absent (pending_key org_id incident_id) canonical
      pending_settled org_id incident_id answer
      released ← exists (review_release_key org_id incident_id)
      if released
          then (do delete (pending_key org_id incident_id); done incident_id)
          else done incident_id

-- The exception of the write of the canonical entry: it is swallowed where the attempt has ended
-- (the answer is true) or the entry is there.
abbrev stopped : Text → Text → Text → Outcome → Queue Bool
stopped org_id incident_id key raised = do
  ended ← has_ended org_id incident_id
  if ended
      then done true
      else do found ← get_json key; if is_some found then done false else fail storage_error
stopped org_id incident_id key _ = done false

-- The canonical entry as it is read back.
abbrev publish_read_back : Text → Text → Option Entry → Queue Text
publish_read_back org_id incident_id (some canonical) = publish_pending org_id incident_id canonical
publish_read_back org_id incident_id none = do
  ended ← has_ended org_id incident_id
  if ended then done incident_id else fail publication_lost

-- `_publish_review` from where it has looked for the canonical entry under its key.
abbrev publish_canonical : Text → Entry → Text → Option Entry → Queue Text
publish_canonical org_id entry key (some canonical) =
    publish_pending org_id entry.incident_id canonical
publish_canonical org_id entry key none = do
  answer ← try_put_json_if_absent key entry
  ended ← stopped org_id entry.incident_id key answer
  if ended
      then done entry.incident_id
      else do canonical ← get_json key; publish_read_back org_id entry.incident_id canonical

unfoldable pub publish_review : Text → Entry → Queue Text
unfolding has_ended publish_pending
publish_review org_id entry = do
  key ← require entry.review_key
  ended ← has_ended org_id entry.incident_id
  if ended
      then done entry.incident_id
      else do canonical ← get_json key; publish_canonical org_id entry key canonical

abbrev pub or_no_summary : Option Summary → Summary
or_no_summary none = no_summary
or_no_summary (some s) = s

-- The terminal record of an entry that has its status and its time of ending.
abbrev terminal_of : Text → Entry → Status → ℕ → Entry
terminal_of org_id entry completed ended = record (bare entry.incident_id org_id) {
  status = some completed;
  completed_at = some ended;
  result_summary = some (or_no_summary entry.result_summary);
}
terminal_of org_id entry status ended = record (bare entry.incident_id org_id) {
  status = some status;
  failed_at = some ended;
}

abbrev ended_at : Status → Entry → Option ℕ
ended_at completed entry = entry.completed_at
ended_at _ entry = entry.failed_at

unfoldable pub record_terminal : Text → Entry → Queue (Option Entry)
record_terminal org_id entry = do
  status ← require entry.status
  ended ← require (ended_at status entry)
  let key = review_release_key org_id entry.incident_id
  answer ← try_put_json_if_absent key (terminal_of org_id entry status ended)
  settled key answer
  get_json key
