-- ===== src/Services/IncidentStore.antt =====
-- services/incident_store.py: checkpoints, the audit trail, and what retention deletes. The
-- objects are JSON values. `datetime.fromisoformat` and the months of the calendar are parameters;
-- times are in microseconds. What is saved passes through the scrubber, which is not modelled.
pub mod Dates
pub mod Expire
pub mod Live
pub mod Attempts
pub mod Ages
pub mod Spared
pub mod Kept
use open_devops_agent.Prelude.{
  ℕ, zero, suc, ◌+◌, ◌-◌, ◌*◌, Bool, true, false, ◌&&◌, ◌||◌, not, Option, none, some, List, [],
  ◌∷◌, ◌++◌, if◌then◌else◌, ltb, leb, ◌==◌, reverse, length, String,
}
use open_devops_agent.Text.{Text, codes, words, text_eq, text_mem, starts_with}
use open_devops_agent.Json.{
  Json, null, boolean, number, string, array, object, Fields, end, field, truthy, get_field,
  value_of, is_string, same_json,
}
use open_devops_agent.Storage.Keys.{
  org_prefix, checkpoint_key, queue_key, review_release_key, review_claim_key,
}
use open_devops_agent.Storage.Program.{
  Program, done, fail, key_error, value_error, ◌>>=◌, ◌>>◌, get_json, put_json, delete, list_keys,
  now, require,
}
use Expire.{
  entry_categories, is_present, is_owned, is_failed_review, is_live, is_legacy, field_of, expire,
  text_of, entry_field, ended_name,
}
use Dates.{retention_date, payload_date, Age, timed, ageless, month_dated, undatable}

-- `load_checkpoint` and `delete_checkpoint`
unfoldable pub load_checkpoint : Text → Text → Program Json (Option Json)
load_checkpoint org_id incident_id = get_json (checkpoint_key org_id incident_id)

unfoldable pub delete_checkpoint : Text → Text → Program Json Bool
delete_checkpoint org_id incident_id = delete (checkpoint_key org_id incident_id)

-- `if data: entries.append(data)`
abbrev pub collect : Option Json → List Json → List Json
collect none entries = entries
collect (some v) entries = if truthy v then entries ++ v ∷ [] else entries

-- The loop over the keys, the newest first.
unfoldable pub audit_from : ℕ → List Json → List Text → Program Json (List Json)
audit_from limit entries [] = done entries
audit_from limit entries (key ∷ keys) = do
  entry ← get_json key
  audit_more (leb limit (length (collect entry entries))) (collect entry entries)
      (audit_from limit (collect entry entries) keys)
  where
    audit_more : Bool → List Json → Program Json (List Json) → Program Json (List Json)
    audit_more true entries' rest = done entries'
    audit_more false entries' rest = rest

unfoldable pub list_audit : Text → ℕ → Program Json (List Json)
list_audit org_id limit = do
  keys ← list_keys (org_prefix org_id (codes "audit" ∷ []))
  audit_from limit [] (reverse keys)

-- The categories that retention goes through.
abbrev pub retained_categories : List Text
retained_categories = words (
    "audit" ∷ "logs" ∷ "checkpoints" ∷ "queue" ∷ "review_dedupe" ∷ "review_claims" ∷ "alert_dedupe"
    ∷ [])

module _ (parse_iso : Text → Option ℕ) (month_start : ℕ → ℕ → ℕ) (first_of_month : ℕ → ℕ) where
  -- The date that counts: of the attempt's end, or of the object. An end without a status, which the
  -- queue never writes, is read as a failure.
  unfoldable pub date_of : Text → Text → Option Json → Option Json → Option Json → Age
  date_of category key entry terminal payload =
      if is_owned category && is_present terminal
      then elim (payload_date parse_iso month_start
          (entry_field (ended_name (entry_field (codes "status") terminal)) terminal)) [
            | none ↦ ageless
            | some t ↦ timed t
          ]
      else retention_date parse_iso month_start category key payload

  -- What is done with an object that has expired at the cutoff.
  abbrev pub when_expired : ℕ → Age → Program Json ℕ → Program Json ℕ
  when_expired cutoff ageless p = done 0
  when_expired cutoff (timed t) p = if ltb t cutoff then p else done 0
  when_expired cutoff (month_dated t) p = if ltb t (first_of_month cutoff) then p else done 0
  when_expired cutoff undatable p = fail value_error

  -- The payload is read also where the date does not need it, which changes nothing.
  abbrev pub dated : ℕ → Text → Text → Text → Option Json → Option Json → Program Json ℕ
  dated cutoff org_id category key entry terminal = do
    payload ← get_json key
    when_expired cutoff (date_of category key entry terminal payload)
        (expire org_id category key entry terminal)

  -- The terminal record of the attempt, without which its objects stay.
  abbrev pub after_name : ℕ → Text → Text → Text → Option Json → Text → Program Json ℕ
  after_name cutoff org_id category key entry incident_id = do
    terminal ← get_json (review_release_key org_id incident_id)
    if is_present terminal then dated cutoff org_id category key entry terminal else done 0

  abbrev pub fenced : ℕ → Text → Text → Text → Option Json → Program Json ℕ
  fenced cutoff org_id category key entry =
      text_of (field_of (codes "incident_id") entry) >>= after_name cutoff org_id category key entry

  -- An attempt's object goes by its end, a live one stays, any other goes by its date.
  abbrev pub chosen : Bool → Bool → Bool → Program Json ℕ → Program Json ℕ → Program Json ℕ
  chosen true true going by_end by_date = by_end
  chosen true false going by_end by_date = done 0
  chosen false there true by_end by_date = done 0
  chosen false there false by_end by_date = by_date

  abbrev pub of_entry : ℕ → Text → Text → Text → Option Json → Program Json ℕ
  of_entry cutoff org_id category key entry =
      chosen (is_owned category || is_failed_review category entry) (is_present entry)
        (is_live (is_legacy org_id category key) entry) (fenced cutoff org_id category key entry)
        (dated cutoff org_id category key entry none)

  -- What retention does with one key.
  unfoldable pub retain_key : ℕ → Text → Text → Text → Program Json ℕ
  retain_key cutoff org_id category key =
      if text_mem category entry_categories
      then (do entry ← get_json key; of_entry cutoff org_id category key entry)
      else of_entry cutoff org_id category key none

  unfoldable pub retain_keys : ℕ → Text → Text → List Text → Program Json ℕ
  retain_keys cutoff org_id category [] = done 0
  retain_keys cutoff org_id category (key ∷ keys) = do
    gone ← retain_key cutoff org_id category key
    more ← retain_keys cutoff org_id category keys
    done (gone + more)

  unfoldable pub retain_categories : ℕ → Text → List Text → Program Json ℕ
  retain_categories cutoff org_id [] = done 0
  retain_categories cutoff org_id (category ∷ categories) = do
    keys ← list_keys (org_prefix org_id (category ∷ []))
    gone ← retain_keys cutoff org_id category keys
    more ← retain_categories cutoff org_id categories
    done (gone + more)

  -- The days of retention, with their sign.
  unfoldable pub apply_retention : Bool × ℕ → Text → Program Json ℕ
  apply_retention (true, days) org_id = done 0
  apply_retention (false, zero) org_id = done 0
  apply_retention (false, suc days) org_id = do
    time ← now
    retain_categories (time - suc days * 86400000000) org_id retained_categories
