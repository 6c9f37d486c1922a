-- ===== src/Examples/Store.antt =====
-- Runs of retention: what it leaves, and what it deletes.
use open_devops_agent.Services.IncidentStore.{
  retain_key, retain_keys, retain_categories, date_of, apply_retention,
}
use open_devops_agent.Services.IncidentStore.Expire.{expire}
use open_devops_agent.Storage.Keys.{review_release_key, org_prefix}
use open_devops_agent.Json.{Json, string, object, field, end, Fields}
use open_devops_agent.Services.IncidentStore.Dates.{path_year_month, retention_date}
use open_devops_agent.Text.{text_mem, Text, codes, text_eq}
use open_devops_agent.Storage.Memory
use open_devops_agent.Prelude.{
  ℕ, ◌+◌, ◌-◌, ◌*◌, ◌≡◌, refl, false, Option, none, some, [], ◌∷◌, if◌then◌else◌,
}
use open_devops_agent.Storage.Memory.{Objects}
use open_devops_agent.Storage.Program.{World, ok, run}

abbrev day : ℕ
day = 86400000000

-- Months of thirty days from the start of 1970.
abbrev month_start : ℕ → ℕ → ℕ
month_start year month = ((year - 1970) * 12 + (month - 1)) * (30 * day)

-- The third hour of the tenth day of the third month.
abbrev today : ℕ
today = 69 * day + 10800000000

-- `replace(day=1)`, for a time at the third hour of a day of the third month.
abbrev first_of_month : ℕ → ℕ
first_of_month t = 60 * day + 10800000000

abbrev parse_iso : Text → Option ℕ
parse_iso s = if text_eq s (codes "1970-03-10T03:00:00Z") then some today else none

abbrev dated_today : Json
dated_today = object (field (codes "updated_at") (string (codes "1970-03-10T03:00:00Z")) end)

abbrev pending_fields : Fields
pending_fields = field (codes "incident_id") (string (codes "i2")) (
    field (codes "review_key") (string (codes "pr-7"))
      (field (codes "status") (string (codes "pending")) end))

abbrev pending_review : Json
pending_review = object pending_fields

-- An index whose attempt has not ended.
abbrev index_fields : Fields
index_fields = field (codes "incident_id") (string (codes "i2")) end

abbrev open_index : Json
open_index = object index_fields

-- An index whose attempt has ended today, and the record of that.
abbrev ended_index : Fields
ended_index = field (codes "incident_id") (string (codes "i3")) end

abbrev terminal_fields : Fields
terminal_fields =
    field (codes "status") (string (codes "completed"))
      (field (codes "completed_at") (string (codes "1970-03-10T03:00:00Z")) end)

abbrev young_store : World Json
young_store = record {
  objects =
      (codes "acme/checkpoints/i1.json", dated_today)
      ∷ (codes "acme/queue/pending/i2.json", pending_review)
      ∷ (codes "acme/review_dedupe/7.json", open_index)
      ∷ (codes "acme/review_dedupe/8.json", object ended_index)
      ∷ (review_release_key (codes "acme") (codes "i3"), object terminal_fields)
      ∷ (codes "acme/alert_dedupe/a.json", object end)
      ∷ [];
  clock = λ _. today;
  reads = 0;
}

-- The audit entry of the month in which the cutoff lies.
abbrev month_store : World Json
month_store = record {
  objects = (codes "acme/audit/1970/03/i1.json", object end) ∷ [];
  clock = λ _. today;
  reads = 0;
}

-- It goes although most of its month comes after the cutoff.
month_deleted :
    run (apply_retention parse_iso month_start first_of_month (false, 1) (codes "acme")) month_store
    ≡ (ok 1, record { objects = []; clock = λ _. today; reads = 1 })
unfolding run apply_retention retain_categories retain_keys Memory.list_keys org_prefix retain_key
    text_mem date_of retention_date path_year_month expire Memory.delete
month_deleted = refl
