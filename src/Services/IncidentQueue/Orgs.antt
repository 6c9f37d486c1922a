-- ===== src/Services/IncidentQueue/Orgs.antt =====
-- `list_pending_org_ids` and `adopt_legacy_reviews` of services/incident_queue.py. A set of
-- organisations is a list without duplicates, in the order of insertion.
pub mod Found
use open_devops_agent.Prelude.{
  ℕ, ◌+◌, Bool, true, false, ◌&&◌, Option, none, some, List, [], ◌∷◌, ◌++◌, if◌then◌else◌,
}
use open_devops_agent.Text.{Text, codes, text_eq, text_mem, split_on}
use open_devops_agent.Storage.Program.{done, ◌>>=◌, ◌>>◌, get_json, list_keys}
use open_devops_agent.Environ.{Environ, getenv, comma_list}
use open_devops_agent.Services.IncidentQueue.Entry.{Entry, Queue}
use open_devops_agent.Services.IncidentQueue.Enqueue.{adopt_legacy_review, is_active}

-- orgs.add(org)
unfoldable pub add_org : List Text → Text → List Text
unfolding text_mem
add_org orgs org = if text_mem org orgs then orgs else orgs ++ org ∷ []

unfoldable pub add_orgs : List Text → List Text → List Text
unfolding add_org
add_orgs orgs [] = orgs
add_orgs orgs (org ∷ more) = add_orgs (add_org orgs org) more

-- The organisation of a pending or processing queue key.
abbrev pub queued_org : List Text → Option Text
queued_org (org ∷ folder ∷ status ∷ name ∷ more) =
    if text_eq folder (codes "queue") && text_mem status (codes "pending" ∷ codes "processing" ∷ [])
    then some org
    else none
queued_org _ = none

abbrev pub add_found : List Text → Option Text → List Text
add_found orgs none = orgs
add_found orgs (some org) = add_org orgs org

unfoldable pub discover_orgs : List Text → List Text → List Text
unfolding add_org split_on
discover_orgs orgs [] = orgs
discover_orgs orgs (key ∷ keys) =
    discover_orgs (add_found orgs (queued_org (split_on b'/' key))) keys

unfoldable pub list_pending_org_ids : Environ → Queue (List Text)
unfolding getenv comma_list add_orgs discover_orgs
list_pending_org_ids env = do
  keys ← list_keys []
  let configured = getenv (codes "ORG_ID") (codes "default") env ∷ []
  done (discover_orgs (add_orgs configured (comma_list (getenv (codes "ORG_IDS") [] env))) keys)

-- The organisation of a legacy review's key.
abbrev legacy_org : List Text → Option Text
legacy_org (org ∷ folder ∷ status ∷ name ∷ []) =
    if text_eq folder (codes "queue") && text_eq status (codes "reviews") then some org else none
legacy_org _ = none

abbrev adopt_found : Text → Text → Option Entry → Queue ℕ
adopt_found org_id key none = done 0
adopt_found org_id key (some entry) =
    if is_active entry.status then (do adopt_legacy_review org_id key entry; done 1) else done 0

abbrev adopt_key : Text → Option Text → Queue ℕ
adopt_key key none = done 0
adopt_key key (some org_id) = do found ← get_json key; adopt_found org_id key found

unfoldable pub adopt_keys : List Text → Queue ℕ
unfolding adopt_legacy_review split_on
adopt_keys [] = done 0
adopt_keys (key ∷ keys) = do
  one ← adopt_key key (legacy_org (split_on b'/' key))
  more ← adopt_keys keys
  done (one + more)

-- The answer, and the new value of `_legacy_adopted`.
unfoldable pub adopt_legacy_reviews : Bool → Queue (ℕ × Bool)
unfolding adopt_keys
adopt_legacy_reviews true = done (0, true)
adopt_legacy_reviews false = do keys ← list_keys []; adopted ← adopt_keys keys; done (adopted, true)
