-- ===== src/Services/IncidentQueue/Claim.antt =====
-- `claim_next` of services/incident_queue.py, one pending key at a time.
use open_devops_agent.Prelude.{
  ℕ, ◌+◌, not, Option, none, some, is_some, List, [], ◌∷◌, if◌then◌else◌,
}
use open_devops_agent.Text.{Text, codes, text_eq}
use open_devops_agent.Storage.Keys.{org_prefix, review_release_key, review_claim_key}
use open_devops_agent.Storage.Program.{
  done, ◌>>=◌, ◌>>◌, get_json, put_json, put_json_if_absent, delete, exists, list_keys, now,
}
use open_devops_agent.Environ.{or_else}
use open_devops_agent.Services.IncidentQueue.Entry.{
  Entry, pending, processing, has_status, Queue, processing_key, failed_key, truthy,
}
use open_devops_agent.Services.IncidentQueue.Finish.{or_next}

-- The entry as its claimer holds it.
abbrev pub claimed : Entry → ℕ → Entry
claimed entry time = record entry {
  status = some processing;
  claimed_at = some time;
  attempts = some (or_else entry.attempts 0 + 1);
}

-- The end of an iteration for a review: its canonical entry is at hand.
unfoldable pub claim_canonical : Text → Text → Text → Text → Entry → Queue (Option Entry)
claim_canonical org_id key incident_id review_key entry =
    if not (has_status pending entry.status) then done none else do
      time ← now
      there ← exists key
      if not there then done none else do
        won ← put_json_if_absent (review_claim_key org_id incident_id) (claimed entry time)
        if not won then done none else do
          over ← exists (review_release_key org_id incident_id)
          if over
              then done none
              else do put_json review_key (claimed entry time); done (some (claimed entry time))

-- `if not entry or entry["incident_id"] != incident_id: delete; continue`
abbrev pub claim_if_current : Text → Text → Text → Text → Option Entry → Queue (Option Entry)
claim_if_current org_id key incident_id review_key none = do delete key; done none
claim_if_current org_id key incident_id review_key (some entry) =
    if text_eq entry.incident_id incident_id
    then claim_canonical org_id key incident_id review_key entry
    else (do delete key; done none)

unfoldable pub claim_review : Text → Text → Text → Text → Queue (Option Entry)
unfolding claim_canonical text_eq
claim_review org_id key incident_id review_key = do
  over ← exists (review_release_key org_id incident_id)
  if over then (do delete key; done none) else do
    failure ← get_json (failed_key org_id incident_id)
    if is_some failure then done none else do
      entry ← get_json review_key
      claim_if_current org_id key incident_id review_key entry

-- An iteration for an incident that is no review.
unfoldable pub claim_plain : Text → Text → Entry → Queue (Option Entry)
claim_plain org_id key entry = if not (has_status pending entry.status) then done none else do
  time ← now
  won ← put_json_if_absent (processing_key org_id entry.incident_id) (claimed entry time)
  if not won then done none else do
    taken ← delete key
    if taken
        then done (some (claimed entry time))
        else do delete (processing_key org_id entry.incident_id); done none

abbrev pub claim_by_kind : Text → Text → Entry → Option Text → Queue (Option Entry)
claim_by_kind org_id key entry none = claim_plain org_id key entry
claim_by_kind org_id key entry (some review_key) =
    claim_review org_id key entry.incident_id review_key

abbrev pub claim_found : Text → Text → Option Entry → Queue (Option Entry)
claim_found org_id key none = done none
claim_found org_id key (some entry) = claim_by_kind org_id key entry (truthy entry.review_key)

-- The body of the loop for one key; `none` is `continue`.
unfoldable pub claim_from : Text → Text → Queue (Option Entry)
unfolding claim_review claim_plain
claim_from org_id key = do found ← get_json key; claim_found org_id key found

unfoldable pub claim_keys : Text → List Text → Queue (Option Entry)
unfolding claim_from
claim_keys org_id [] = done none
claim_keys org_id (key ∷ keys) = do
  found ← claim_from org_id key
  or_next found (claim_keys org_id keys)

unfoldable pub claim_next : Text → Queue (Option Entry)
unfolding claim_keys org_prefix
claim_next org_id = do
  keys ← list_keys (org_prefix org_id (codes "queue" ∷ codes "pending" ∷ []))
  claim_keys org_id keys
