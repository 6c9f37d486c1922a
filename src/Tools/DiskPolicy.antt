-- ===== src/Tools/DiskPolicy.antt =====
-- tools/disk_policy.py: which paths a cleanup may delete.
pub mod Paths
pub mod Resolved
pub mod Verdicts
use open_devops_agent.Prelude.{
  Bool, true, false, ◌&&◌, ◌||◌, not, Option, none, some, List, [], ◌∷◌, ◌++◌, if◌then◌else◌, any,
  String,
}
use open_devops_agent.Text.{
  Text, codes, words, text_eq, text_mem, contains, contains_any, starts_with, ends_with, lower,
  strip, is_empty, rstrip_code,
}
use open_devops_agent.Environ.{Environ, getenv, comma_list}
use Paths.{normalize_path, path_name}

abbrev pub protected_prefixes : List Text
protected_prefixes = words (
    "/etc" ∷ "/home" ∷ "/root" ∷ "/boot" ∷ "/usr" ∷ "/bin" ∷ "/sbin" ∷ "/lib" ∷ "/lib64" ∷ "/opt"
    ∷ "/srv" ∷ "/data" ∷ "/mnt" ∷ "/media" ∷ "/var/www" ∷ "/var/lib/mysql" ∷ "/var/lib/postgresql"
    ∷ "/var/lib/pgsql" ∷ "/var/lib/mongodb" ∷ "/var/lib/redis" ∷ "/var/lib/docker/volumes"
    ∷ "/var/lib/kubelet" ∷ "/var/lib/rancher" ∷ "/var/lib/containerd" ∷ "/var/lib/etcd" ∷ "/app"
    ∷ "/apps" ∷ "/prod" ∷ "/production" ∷ [])

abbrev pub protected_name_markers : List Text
protected_name_markers = words (
    ".env" ∷ "id_rsa" ∷ "id_ed25519" ∷ ".pem" ∷ ".key" ∷ "credentials" ∷ "secrets" ∷ "prod"
    ∷ "production" ∷ "customer" ∷ "backup.sql" ∷ "dump.sql" ∷ "wal" ∷ [])

abbrev pub safe_log_suffixes : List Text
safe_log_suffixes = words (".gz" ∷ ".xz" ∷ ".bz2" ∷ ".1" ∷ ".old" ∷ ".rotated" ∷ [])

unfoldable pub extra_protected_prefixes : Environ → List Text
unfolding getenv comma_list
extra_protected_prefixes env = comma_list (getenv (codes "CLEANUP_PROTECTED_PATHS") [] env)

-- `text or "/"`
abbrev or_root : Text → Text
or_root [] = codes "/"
or_root (c ∷ s) = c ∷ s

unfoldable pub is_under : Text → Text → Bool
unfolding rstrip_code text_eq starts_with
is_under path prefix =
    let path' = or_root (rstrip_code b'/' path) in
    let prefix' = or_root (rstrip_code b'/' prefix) in
    text_eq path' prefix' || starts_with path' (prefix' ++ b'/' ∷ [])

-- `any(marker in name or marker in lower for marker in PROTECTED_NAME_MARKERS)`
unfoldable pub has_marker : Text → Bool
unfolding any contains lower path_name
has_marker normalized =
    any
      (λ marker.
        contains (lower (path_name normalized)) marker || contains (lower normalized) marker)
      protected_name_markers

unfoldable pub is_protected_path : Environ → Text → Bool
is_protected_path env path =
    let normalized = normalize_path path in
    if is_empty normalized || text_eq normalized (codes "/")
    then true
    else if any (is_under normalized) (protected_prefixes ++ extra_protected_prefixes env)
    then true
    else has_marker normalized

-- name.endswith(SAFE_LOG_SUFFIXES)
unfoldable pub ends_with_any : List Text → Text → Bool
unfolding any ends_with
ends_with_any suffixes s = any (ends_with s) suffixes

unfoldable pub is_safe_stale_log : Environ → Text → Bool
is_safe_stale_log env path =
    let normalized = normalize_path path in
    if not (starts_with normalized (codes "/var/log/"))
      && not (text_eq normalized (codes "/var/log"))
    then false
    else if is_protected_path env normalized
    then false
    else ends_with_any safe_log_suffixes (path_name normalized)

pub data CleanupStatus : Type 0 where
  safe protected rejected : CleanupStatus

pub record CleanupVerdict : Type 0 where
  pub path : Text
  pub status : CleanupStatus
  pub reason : Text
  pub alert : Option Bool

unfoldable pub classify_cleanup_target : Environ → Text → CleanupVerdict
classify_cleanup_target env path =
    let normalized = normalize_path path in
    if is_empty normalized
    then record {
      path = path;
      status = CleanupStatus.rejected;
      reason = codes "empty path";
      alert = none;
    }
    else if is_protected_path env normalized
    then record {
      path = normalized;
      status = CleanupStatus.protected;
      reason = codes "production, in-use, or sensitive path — will not delete";
      alert = some true;
    }
    else if is_safe_stale_log env normalized
    then record {
      path = normalized;
      status = CleanupStatus.safe;
      reason = codes "rotated/compressed log under /var/log";
      alert = some false;
    }
    else record {
      path = normalized;
      status = CleanupStatus.rejected;
      reason = codes "not a rotated log under /var/log — refuse to delete unknown data";
      alert = some true;
    }
