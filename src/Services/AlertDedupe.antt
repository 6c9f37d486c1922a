-- ===== src/Services/AlertDedupe.antt =====
-- services/alert_dedupe.py. Times are in microseconds. A marker whose `created_at` is missing or
-- cannot be parsed has none. The digest of an alert rests on `json.dumps` and SHA-256, which are
-- parameters.
pub mod Claims
use open_devops_agent.Prelude.{
  ℕ, ◌+◌, ◌*◌, Bool, true, false, Option, none, some, List, [], ◌∷◌, ltb, ◌==◌, if◌then◌else◌,
}
use open_devops_agent.Text.{Text, codes, is_empty}
use open_devops_agent.Storage.Keys.{org_prefix, json_file}
use open_devops_agent.Storage.Memory
use open_devops_agent.Storage.Memory.{Objects}
use open_devops_agent.Storage.Program.{
  Program, done, ◌>>=◌, ◌>>◌, get_json, put_json, put_json_if_absent, now,
}
use open_devops_agent.Environ.{Environ, getenv, python_int, or_else}

pub record Alert : Type 0 where
  pub fingerprint : Option Text
  pub labels : Objects Text
  pub starts_at : Option Text

pub record Marker : Type 0 where
  pub incident_id : Text
  pub alertname : Text
  pub starts_at : Option Text
  pub created_at : Option ℕ

abbrev default_window_sec : ℕ
default_window_sec = 3600

-- max(0, int(...)), and the default where `int` raises
abbrev clamped : Option (Bool × ℕ) → ℕ
clamped none = default_window_sec
clamped (some (true, n)) = 0
clamped (some (false, n)) = n

unfoldable pub dedupe_window_seconds : Environ → ℕ
unfolding getenv python_int
dedupe_window_seconds env =
    clamped (python_int (getenv (codes "ALERT_DEDUPE_WINDOW_SEC") (codes "3600") env))

-- `text or other`, where the text may be missing
abbrev pub or_text : Option Text → Text → Text
or_text none other = other
or_text (some t) other = if is_empty t then other else t

abbrev microseconds : ℕ → ℕ
microseconds seconds = seconds * 1000000

-- The existing marker is in its window: `created` is known and (now - created) < window.
abbrev pub within : ℕ → ℕ → Option Marker → Bool
within window time none = false
within window time (some m) = elim m.created_at [
  | none ↦ false
  | some created ↦ ltb time (created + microseconds window)
]

-- existing.get("incident_id", "")
abbrev pub existing_id : Option Marker → Text
existing_id none = []
existing_id (some m) = m.incident_id

module _ (dumps_labels : Objects Text → Text) (dumps_pair : Text → Text → Text)
    (sha256 : Text → Text) where
  unfoldable pub alert_identity : Alert → Text
  alert_identity alert =
      let fingerprint = or_text alert.fingerprint (dumps_labels alert.labels) in
      sha256 (dumps_pair fingerprint (or_text alert.starts_at []))

-- AlertDeduper._key
unfoldable pub marker_key : Text → Text → Text
unfolding org_prefix
marker_key org_id digest = org_prefix org_id (codes "alert_dedupe" ∷ json_file digest ∷ [])

abbrev pub marker_of : Alert → Text → ℕ → Marker
marker_of alert incident_id time = record {
  incident_id = incident_id;
  alertname = or_else (Memory.get (codes "alertname") alert.labels) [];
  starts_at = alert.starts_at;
  created_at = some time;
}

-- AlertDeduper.claim for the marker's key, at the window of the environment
unfoldable pub claim_at : ℕ → Text → Alert → Text → Program Marker (Bool × Text)
claim_at window key alert incident_id = if window == 0 then done (true, incident_id) else do
  time ← now
  let marker = marker_of alert incident_id time
  fresh ← put_json_if_absent key marker
  if fresh then done (true, incident_id) else do
    existing ← get_json key
    if within window time existing
        then done (false, existing_id existing)
        else do put_json key marker; done (true, incident_id)

module _ (dumps_labels : Objects Text → Text) (dumps_pair : Text → Text → Text)
    (sha256 : Text → Text) where
  -- AlertDeduper.claim
  unfoldable pub claim : Environ → Text → Alert → Text → Program Marker (Bool × Text)
  unfolding claim_at dedupe_window_seconds marker_key alert_identity
  claim env org_id alert incident_id =
      claim_at (dedupe_window_seconds env)
        (marker_key org_id (alert_identity dumps_labels dumps_pair sha256 alert)) alert incident_id
