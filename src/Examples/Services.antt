-- ===== src/Examples/Services.antt =====
-- Runs of the alert deduplication, the credentials and the escalation.
use open_devops_agent.Prelude.{◌+◌, ◌≡◌, refl, true, false, Option, none, some, [], ◌∷◌, arith}
use open_devops_agent.Text.{Text, codes, text_eq, text_mem, contains_any, join_with}
use open_devops_agent.Environ.{Environ, getenv}
use open_devops_agent.Storage.Memory
use open_devops_agent.Storage.Memory.{Objects}
use open_devops_agent.Storage.Program.{World, ok, run, ◌>>=◌}
use open_devops_agent.Services.AlertDedupe.{Alert, Marker, claim_at}
use open_devops_agent.Services.AlertDedupe.Claims.{claim_at_twice}
use open_devops_agent.Services.OrgConfig.{save, get, resolve_org_credentials, config_key}
use open_devops_agent.Services.OrgConfig.Isolation.{get-resolve_org_credentials, get-save, kept}
use open_devops_agent.Services.OrgContext.{org_credentials}
use open_devops_agent.Services.OrgContext.Restored.{org_credentials-restores}
use open_devops_agent.Collectors.DatabasePolicy.{
  DbContext, is_database_incident, incident_involves_blocked_database, is_database_resource_type,
}
use open_devops_agent.Services.Escalation.{Settings, RunResult, evaluate, critical}
use open_devops_agent.Services.Escalation.Decision.{evaluate-should_escalate}

abbrev high_cpu : Alert
high_cpu = record {
  fingerprint = some (codes "f00");
  labels = (codes "alertname", codes "HighCpu") ∷ [];
  starts_at = none;
}

abbrev quiet : World Marker
quiet = record { objects = []; clock = λ n. 7000000 + n; reads = 0 }

abbrev marker : Text
marker = codes "acme/alert_dedupe/0a.json"

-- The first of two alerts is enqueued.
claims_first :
    (run (claim_at 3600 marker high_cpu (codes "INC-1")) quiet).0 ≡ ok (true, codes "INC-1")
unfolding run claim_at Memory.put_if_absent
claims_first = refl

claim_at_twice_example :
    (run
      (claim_at 3600 marker high_cpu (codes "INC-2"))
      (run (claim_at 3600 marker high_cpu (codes "INC-1")) quiet).1).0
    ≡ ok (false, codes "INC-1")
claim_at_twice_example =
    claim_at_twice 3600 marker high_cpu high_cpu (codes "INC-1") (codes "INC-2") quiet (omega arith)
      claims_first (omega arith)

abbrev acme_process : Environ
acme_process = (codes "ORG_ID", codes "acme") ∷ (codes "GITHUB_TOKEN", codes "env-token") ∷ []

abbrev stored_credentials : Objects Text
stored_credentials = (codes "GITHUB_TOKEN", codes "stored-token") ∷ []

abbrev configured : World (Objects Text)
configured = record {
  objects = (codes "globex/config/credentials.json", stored_credentials) ∷ [];
  clock = λ n. n;
  reads = 0;
}

get-resolve_org_credentials_example :
    (creds : Objects Text) × ((run
        (resolve_org_credentials acme_process (codes "globex"))
        configured).0
      ≡ ok creds)
    × ((j : Text) → Memory.get j creds ≡ Memory.get j stored_credentials)
unfolding Memory.get config_key getenv text_eq
get-resolve_org_credentials_example =
    get-resolve_org_credentials acme_process (codes "globex") configured (refl, tt)

abbrev submitted : Objects (Option Text)
submitted =
    (codes "GITHUB_TOKEN", some (codes "new-token"))
    ∷ (codes "UNKNOWN_KEY", some (codes "x"))
    ∷ (codes "JIRA_URL", some (codes "  "))
    ∷ []

get-save_example :
    (read : Objects Text) × ((run
        (save (codes "globex") submitted >>= λ _. get (codes "globex"))
        configured).0
      ≡ ok read)
    × ((k : Text) → Memory.get k read ≡ kept k (Memory.get k submitted))
unfolding Memory.get text_eq
get-save_example = get-save (codes "globex") submitted configured (refl, (refl, (refl, tt)))

org_credentials-restores_example :
    Memory.get
      (codes "GITHUB_TOKEN")
      (org_credentials stored_credentials
        (λ env. (codes "GITHUB_TOKEN", codes "other") ∷ [])
        acme_process).1
    ≡ some (codes "env-token")
unfolding Memory.get text_mem
org_credentials-restores_example =
    org_credentials-restores stored_credentials (λ env. (codes "GITHUB_TOKEN", codes "other") ∷ [])
      acme_process (codes "GITHUB_TOKEN")

abbrev defaults : Settings
defaults = record {
  enabled = true;
  timeout_minutes = (false, 10);
  channels = codes "slack" ∷ codes "email" ∷ [];
  on_db = true;
  on_unresolved = true;
  on_ai_failure = true;
}

abbrev db_down : DbContext
db_down = record {
  resource_type = none;
  kind = some (codes "server");
  alertname = some (codes "PostgresDown");
  description = none;
  summary = none;
  service = none;
  labels = [];
}

abbrev solved : RunResult
solved = record { actions = []; resolved = true; grounded = some true; diagnosis = none }

evaluate-should_escalate_example :
    ((evaluate defaults
        (codes "INC-1")
        (some db_down)
        (some solved)
        0
        60000000
        none).should_escalate
      ≡ true)
    × ((evaluate defaults (codes "INC-1") (some db_down) (some solved) 0 60000000 none).priority
        ≡ critical)
unfolding is_database_incident incident_involves_blocked_database is_database_resource_type
    contains_any join_with
evaluate-should_escalate_example =
    evaluate-should_escalate defaults (codes "INC-1") (some db_down) (some solved) 0 60000000 none
