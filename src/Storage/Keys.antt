-- ===== src/Storage/Keys.antt =====
-- The path helpers of storage/base.py.
use open_devops_agent.Prelude.{
  ℕ, Bool, true, false, List, [], ◌∷◌, ◌++◌, map, ◌==◌, if◌then◌else◌, filter_by, not,
}
use open_devops_agent.Text.{Text, codes, strip, is_empty, split_on}
use open_devops_agent.Text.Decimal.{decimal, padded}

-- value.replace("..", ""), where the flag says that one dot has been read and not yet written
unfoldable pub without_dots : Bool → Text → Text
without_dots false [] = []
without_dots true [] = b'.' ∷ []
without_dots false (c ∷ s) =
    let held = without_dots true s in
    let kept = c ∷ without_dots false s in elim (c == b'.') [ true ↦ held | false ↦ kept ]
without_dots true (c ∷ s) =
    let dropped = without_dots false s in
    let kept = b'.' ∷ c ∷ without_dots false s in elim (c == b'.') [ true ↦ dropped | false ↦ kept ]

-- value.replace("\\", "/")
unfoldable pub to_slash : ℕ → ℕ
to_slash c = if c == 92 then b'/' else c

-- `text or "default"`
abbrev pub or_default : Text → Text
or_default [] = codes "default"
or_default (c ∷ s) = c ∷ s

unfoldable pub safe_path_segment : Text → Text
unfolding without_dots to_slash strip
safe_path_segment value = or_default (map to_slash (without_dots false (strip (or_default value))))

-- "/".join(segments)
unfoldable pub join_slash : List Text → Text
join_slash [] = []
join_slash (s ∷ []) = s
join_slash (s ∷ t ∷ more) = s ++ b'/' ∷ join_slash (t ∷ more)

unfoldable pub org_prefix : Text → List Text → Text
unfolding safe_path_segment join_slash filter_by
org_prefix org_id parts =
    join_slash
      (safe_path_segment org_id ∷ map safe_path_segment (filter_by (λ p. not (is_empty p)) parts))

-- f"{name}.json"
abbrev pub json_file : Text → Text
json_file name = name ++ codes ".json"

-- audit_key and log_key, at the year and the month of the clock
unfoldable pub audit_key : ℕ → ℕ → Text → Text → Text
unfolding org_prefix decimal padded
audit_key year month org_id incident_id =
    org_prefix org_id (codes "audit" ∷ decimal year ∷ padded 2 month ∷ json_file incident_id ∷ [])

unfoldable pub log_key : ℕ → ℕ → Text → Text → Text → Text
unfolding org_prefix decimal padded
log_key year month org_id incident_id filename =
    org_prefix org_id (codes "logs" ∷ decimal year ∷ padded 2 month ∷ incident_id ∷ filename ∷ [])

unfoldable pub checkpoint_key : Text → Text → Text
unfolding org_prefix
checkpoint_key org_id incident_id =
    org_prefix org_id (codes "checkpoints" ∷ json_file incident_id ∷ [])

unfoldable pub queue_key : Text → Text → Text → Text
unfolding org_prefix
queue_key org_id status incident_id =
    org_prefix org_id (codes "queue" ∷ status ∷ json_file incident_id ∷ [])

unfoldable pub review_dedupe_key : Text → Text → Text
unfolding org_prefix
review_dedupe_key org_id incident_id =
    org_prefix org_id (codes "review_dedupe" ∷ json_file incident_id ∷ [])

unfoldable pub review_slot_key : Text → Text → ℕ → Text
unfolding org_prefix padded
review_slot_key org_id review_id sequence =
    org_prefix org_id (codes "review_heads" ∷ review_id ∷ json_file (padded 20 sequence) ∷ [])

unfoldable pub review_release_key : Text → Text → Text
unfolding org_prefix
review_release_key org_id incident_id =
    org_prefix org_id (codes "review_releases" ∷ json_file incident_id ∷ [])

unfoldable pub review_claim_key : Text → Text → Text
unfolding org_prefix
review_claim_key org_id incident_id =
    org_prefix org_id (codes "review_claims" ∷ json_file incident_id ∷ [])

unfoldable pub doc_key : Text → Text → Text
unfolding org_prefix safe_path_segment join_slash split_on filter_by
doc_key org_id doc_path = org_prefix org_id (
    codes "docs"
    ∷ join_slash
        (map safe_path_segment (filter_by (λ p. not (is_empty p)) (split_on b'/' doc_path)))
    ∷ [])
