-- ===== src/Services/IncidentQueue/Recover.antt =====
-- `recover_stale_processing` of services/incident_queue.py.
use open_devops_agent.Prelude.{ℕ, ◌+◌, not, Option, none, some, List, [], ◌∷◌, if◌then◌else◌}
use open_devops_agent.Text.{Text, codes}
use open_devops_agent.Storage.Keys.{org_prefix, review_release_key, review_claim_key}
use open_devops_agent.Storage.Program.{
  done, ◌>>=◌, ◌>>◌, get_json, put_json, delete, exists, list_keys, now, require,
}
use open_devops_agent.Environ.{or_else}
use open_devops_agent.Services.IncidentQueue.Entry.{
  Entry, pending, processing, completed, has_status, Queue, pending_key, failed_key, truthy,
}
use open_devops_agent.Services.IncidentQueue.Reviews.{or_no_summary}
use open_devops_agent.Services.IncidentQueue.Finish.{mark_completed, mark_failed}

-- The body of the first loop, for the object under a processing key.
abbrev pub recover_found : Text → Text → Option Entry → Queue ℕ
recover_found org_id key none = done 0
recover_found org_id key (some entry) = do
  time ← now
  put_json (pending_key org_id entry.incident_id)
      (record entry { status = some pending; recovered_at = some time })
  delete key
  done 1

unfoldable pub recover_plain : Text → List Text → Queue ℕ
recover_plain org_id [] = done 0
recover_plain org_id (key ∷ keys) = do
  found ← get_json key
  one ← recover_found org_id key found
  more ← recover_plain org_id keys
  done (one + more)

-- The attempt's claim goes back to the canonical entry.
abbrev recover_claim : Text → Text → Entry → Text → Option Entry → Option Entry → Queue ℕ
recover_claim org_id claim_key index review_key (some entry) (some claim) =
    if not (has_status processing claim.status) then done 0 else do
      over ← exists (review_release_key org_id index.incident_id)
      if over then done 0 else do
        slot ← require index.review_slot
        time ← now
        put_json review_key (record claim {
          review_key = some review_key;
          review_slot = some slot;
          status = some pending;
          recovered_at = some time;
        })
        delete claim_key
        done 1
recover_claim org_id claim_key index review_key none claim = done 0
recover_claim org_id claim_key index review_key (some entry) none = done 0

-- A review whose attempt has neither ended nor failed.
abbrev recover_open : Text → Entry → Text → Option Entry → Queue ℕ
recover_open org_id index review_key (some failure) = do
  mark_failed org_id index.incident_id (or_else failure.error (codes "Review failed"))
  done 0
recover_open org_id index review_key none = do
  entry ← get_json review_key
  let claim_key = review_claim_key org_id index.incident_id
  claim ← get_json claim_key
  recover_claim org_id claim_key index review_key entry claim

abbrev recover_ended : Text → Text → Entry → Text → Option Entry → Queue ℕ
recover_ended org_id key index review_key (some terminal) = do
  status ← require terminal.status
  if has_status completed (some status)
      then (do
        mark_completed org_id index.incident_id (or_no_summary terminal.result_summary)
        done 0)
      else (do delete key; done 0)
recover_ended org_id key index review_key none = do
  failure ← get_json (failed_key org_id index.incident_id)
  recover_open org_id index review_key failure

abbrev recover_index : Text → Text → Entry → Option Text → Queue ℕ
recover_index org_id key index none = done 0
recover_index org_id key index (some review_key) = do
  terminal ← get_json (review_release_key org_id index.incident_id)
  recover_ended org_id key index review_key terminal

abbrev recover_pending : Text → Text → Option Entry → Queue ℕ
recover_pending org_id key none = done 0
recover_pending org_id key (some index) = recover_index org_id key index (truthy index.review_key)

unfoldable pub recover_reviews : Text → List Text → Queue ℕ
unfolding mark_completed mark_failed
recover_reviews org_id [] = done 0
recover_reviews org_id (key ∷ keys) = do
  found ← get_json key
  one ← recover_pending org_id key found
  more ← recover_reviews org_id keys
  done (one + more)

unfoldable pub recover_stale_processing : Text → Queue ℕ
unfolding recover_plain recover_reviews org_prefix
recover_stale_processing org_id = do
  stale ← list_keys (org_prefix org_id (codes "queue" ∷ codes "processing" ∷ []))
  plain ← recover_plain org_id stale
  waiting ← list_keys (org_prefix org_id (codes "queue" ∷ codes "pending" ∷ []))
  reviews ← recover_reviews org_id waiting
  done (plain + reviews)
