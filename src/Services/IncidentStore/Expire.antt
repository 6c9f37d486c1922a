-- ===== src/Services/IncidentStore/Expire.antt =====
-- What `apply_retention` of services/incident_store.py reads in an entry, and what it does with one
-- that has expired.
use open_devops_agent.Prelude.{
  ℕ, ◌+◌, Bool, true, false, ◌&&◌, ◌||◌, not, Option, none, some, List, [], ◌∷◌, ◌++◌,
  if◌then◌else◌,
}
use open_devops_agent.Text.{Text, codes, words, text_eq, text_mem, starts_with}
use open_devops_agent.Json.{
  Json, null, string, object, Fields, end, field, truthy, get_field, value_of, is_string, same_json,
}
use open_devops_agent.Storage.Keys.{org_prefix, queue_key, review_claim_key}
use open_devops_agent.Storage.Program.{
  Program, done, fail, key_error, ◌>>=◌, ◌>>◌, get_json, put_json, delete, require,
}

abbrev owned_categories : List Text
owned_categories = words ("review_dedupe" ∷ "review_claims" ∷ [])

abbrev pub entry_categories : List Text
entry_categories = words ("queue" ∷ "review_dedupe" ∷ "review_claims" ∷ [])

-- entry.get(name) of an entry that may be missing
abbrev pub entry_field : Text → Option Json → Json
entry_field name (some (object fields)) = value_of (get_field name fields)
entry_field name _ = null

abbrev pub is_present : Option Json → Bool
is_present none = false
is_present (some v) = truthy v

abbrev pub is_legacy : Text → Text → Text → Bool
is_legacy org_id category key =
    text_eq category (codes "queue")
    && starts_with key (org_prefix org_id (codes "queue" ∷ codes "reviews" ∷ []) ++ b'/' ∷ [])

abbrev pub is_owned : Text → Bool
is_owned category = text_mem category owned_categories

abbrev pub is_failed_review : Text → Option Json → Bool
is_failed_review category entry =
    text_eq category (codes "queue")
    && (is_present entry
        && (truthy (entry_field (codes "review_key") entry)
            && is_string (codes "failed") (entry_field (codes "status") entry)))

-- A pending or processing review.
abbrev pub is_live : Bool → Option Json → Bool
is_live legacy entry =
    is_present entry
    && ((legacy || truthy (entry_field (codes "review_key") entry))
        && (is_string (codes "pending") (entry_field (codes "status") entry)
            || is_string (codes "processing") (entry_field (codes "status") entry)))

-- record[name], for a text
abbrev pub text_of : Option Json → Program Json Text
text_of (some (string s)) = done s
text_of _ = fail key_error

abbrev pub field_of : Text → Option Json → Option Json
field_of name (some (object fields)) = get_field name fields
field_of name _ = none

abbrev pub ended_name : Json → Text
ended_name status =
    if is_string (codes "completed") status then codes "completed_at" else codes "failed_at"

-- {"incident_id": …, "org_id": …, "status": …, ended: …}
abbrev minimal_fields : Text → Text → Json → Json → Fields → Fields
minimal_fields org_id incident_id status time rest =
    field (codes "incident_id") (string incident_id) (
      field (codes "org_id") (string org_id)
        (field (codes "status") status (field (ended_name status) time rest)))

abbrev copied : Text → Option Json → Fields → Fields
copied name entry rest =
    let v = entry_field name entry in if truthy v then field name v rest else rest

abbrev differs : Option Json → Json → Bool
differs none v = true
differs (some w) v = not (same_json w v)

abbrev put_if : Bool → Text → Json → Program Json (Unit {0})
put_if true key v = put_json key v
put_if false key v = done tt

-- `if self.storage.get_json(key) != value: self.storage.put_json(key, value)`
abbrev put_if_other : Text → Json → Program Json (Unit {0})
put_if_other key v = do old ← get_json key; put_if (differs old v) key v

abbrev counted : Bool → ℕ
counted true = 1
counted false = 0

abbrev deleted : Text → Program Json ℕ
deleted key = do gone ← delete key; done (counted gone)

-- An expired object that is no terminal evidence goes, with the pending object of a retired attempt.
abbrev removed : Text → Bool → Option Json → Text → Program Json ℕ
removed org_id false entry key = deleted key
removed org_id true entry key = do
  incident_id ← text_of (field_of (codes "incident_id") entry)
  pending ← deleted (queue_key org_id (codes "pending") incident_id)
  here ← deleted key
  done (pending + here)

-- The end of a legacy review is kept in its claim, and in its place if it was completed.
abbrev compacted_legacy : Text → Option Json → Text → Bool → Program Json ℕ → Program Json ℕ
compacted_legacy org_id entry key completed next = do
  incident_id ← text_of (field_of (codes "incident_id") entry)
  status ← require (field_of (codes "status") entry)
  time ← require (field_of (ended_name status) entry)
  let minimal = object (minimal_fields org_id incident_id status time end)
  put_if_other (review_claim_key org_id incident_id) minimal
  if completed then (do put_if (differs entry minimal) key minimal; done 0) else next

-- The end of an attempt stays in its claim and its index.
abbrev compacted_owned : Text → Text → Option Json → Option Json → Text → Program Json ℕ
compacted_owned org_id category entry terminal key = do
  incident_id ← text_of (field_of (codes "incident_id") entry)
  status ← require (field_of (codes "status") terminal)
  time ← require (field_of (ended_name status) terminal)
  let minimal = object (
      minimal_fields org_id incident_id status time
        (copied (codes "review_key") entry (copied (codes "review_slot") entry end)))
  if text_eq category (codes "review_dedupe")
      then put_if_other (review_claim_key org_id incident_id) minimal
      else done tt
  put_if (differs entry minimal) key minimal
  deleted (queue_key org_id (codes "pending") incident_id)

abbrev has_ended : Json → Bool
has_ended status = is_string (codes "completed") status || is_string (codes "failed") status

-- What is done with an expired object.
unfoldable pub expire : Text → Text → Text → Option Json → Option Json → Program Json ℕ
expire org_id category key entry terminal =
    let legacy = is_legacy org_id category key in
    let status = entry_field (codes "status") entry in
    let fenced = is_owned category || is_failed_review category entry in
    let last =
      if is_owned category
        && (text_eq category (codes "review_claims")
            || is_string (codes "completed") (entry_field (codes "status") terminal))
      then compacted_owned org_id category entry terminal key
      else removed org_id fenced entry key in
    if legacy && has_ended status
    then compacted_legacy org_id entry key (is_string (codes "completed") status) last
    else last
