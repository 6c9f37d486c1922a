-- ===== src/Services/IncidentStore/Kept.antt =====
-- What retention leaves alone.
use open_devops_agent.Prelude.{◌++◌, ℕ, ◌≡◌, true, Option, none, some, List, [], ◌∷◌, ◌⊎◌}
use open_devops_agent.Text.{Text, codes, starts_with}
use open_devops_agent.Json.{Json, string, object, Fields, truthy, get_field, value_of}
use open_devops_agent.Storage.Memory
use open_devops_agent.Storage.Memory.{Objects}
use open_devops_agent.Storage.Keys.{org_prefix, review_release_key}
use open_devops_agent.Storage.Program.{Program}
use open_devops_agent.Services.IncidentStore.Attempts.{IsOwned, IsFailed, IsApart}
use open_devops_agent.Services.IncidentStore.Ages.{IsYoung, EndedAfter}

-- What `list_keys` finds for a category.
abbrev pub keys_in : Text → Text → Objects Json → List Text
keys_in org_id category m = Memory.list_keys (org_prefix org_id (category ∷ [])) m

module _ (parse_iso : Text → Option ℕ) (month_start : ℕ → ℕ → ℕ) (first_of_month : ℕ → ℕ) where
  -- Reasons to leave a key alone.
  pub data IsKept (cutoff : ℕ) (org_id category key : Text) (m : Objects Json) : Type 0 where
    -- It belongs to an attempt that has not ended.
    open_attempt :
        (fields : Fields) (incident_id : Text)
        → IsOwned category ⊎ IsFailed category fields
        → Memory.get key m ≡ some (object fields)
        → get_field (codes "incident_id") fields ≡ some (string incident_id)
        → Memory.get (review_release_key org_id incident_id) m ≡ none
        → IsKept cutoff org_id category key m
    -- It is an index or a claim of an attempt that ended after the cutoff.
    recent_attempt :
        (fields terminal : Fields) (incident_id : Text)
        → IsOwned category
        → Memory.get key m ≡ some (object fields)
        → get_field (codes "incident_id") fields ≡ some (string incident_id)
        → Memory.get (review_release_key org_id incident_id) m ≡ some (object terminal)
        → EndedAfter parse_iso month_start first_of_month cutoff terminal
        → IsKept cutoff org_id category key m
    -- It is a failed review, and too young.
    young_failed :
        (fields : Fields) (incident_id : Text)
        → IsFailed category fields
        → Memory.get key m ≡ some (object fields)
        → get_field (codes "incident_id") fields ≡ some (string incident_id)
        → IsYoung parse_iso month_start first_of_month cutoff category key (Memory.get key m)
        → IsKept cutoff org_id category key m
    -- It is a pending or processing review.
    live :
        (fields : Fields)
        → category ≡ codes "queue"
        → Memory.get key m ≡ some (object fields)
        → (starts_with key (org_prefix org_id (codes "queue" ∷ codes "reviews" ∷ []) ++ b'/' ∷ [])
            ≡ true)
          ⊎ (truthy (value_of (get_field (codes "review_key") fields)) ≡ true)
        → (get_field (codes "status") fields ≡ some (string (codes "pending")))
          ⊎ (get_field (codes "status") fields ≡ some (string (codes "processing")))
        → IsKept cutoff org_id category key m
    -- It is another entry of the queue, and too young.
    young_queued :
        (fields : Fields)
        → category ≡ codes "queue"
        → Memory.get key m ≡ some (object fields)
        → ¬ (get_field (codes "status") fields ≡ some (string (codes "failed")))
        → IsYoung parse_iso month_start first_of_month cutoff category key (Memory.get key m)
        → IsKept cutoff org_id category key m
    -- It is of no review, and too young.
    young :
        IsApart category
        → IsYoung parse_iso month_start first_of_month cutoff category key (Memory.get key m)
        → IsKept cutoff org_id category key m
