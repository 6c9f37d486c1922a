-- ===== src/Services/OrgConfig.antt =====
-- services/org_config.py: the credentials of an organisation, in its own folder of the store.
pub mod Isolation
use open_devops_agent.Prelude.{
  Bool, true, false, ◌&&◌, ◌||◌, not, Option, none, some, List, [], ◌∷◌, ◌++◌, if◌then◌else◌,
  filter_by, is_some, String,
}
use open_devops_agent.Text.{Text, codes, words, text_eq, text_mem, strip, is_empty}
use open_devops_agent.Storage.Keys.{org_prefix}
use open_devops_agent.Storage.Memory
use open_devops_agent.Storage.Memory.{Objects, sorted}
use open_devops_agent.Storage.Program.{Program, done, ◌>>=◌, ◌>>◌, get_json, put_json}
use open_devops_agent.Storage.Program
use open_devops_agent.Environ.{Environ, getenv, or_else}

abbrev pub org_credential_keys : List Text
org_credential_keys = words (
    "ANTHROPIC_API_KEY" ∷ "SLACK_WEBHOOK_URL" ∷ "SLACK_APPROVAL_CHANNEL" ∷ "SLACK_APPROVER_IDS"
    ∷ "SLACK_BOT_TOKEN" ∷ "SLACK_SIGNING_SECRET" ∷ "GITHUB_TOKEN" ∷ "GITHUB_ORG" ∷ "GITLAB_TOKEN"
    ∷ "GITLAB_URL" ∷ "JENKINS_URL" ∷ "JENKINS_USERNAME" ∷ "JENKINS_API_TOKEN"
    ∷ "JENKINS_SCM_PROVIDER" ∷ "JENKINS_SCM_REPO" ∷ "BAMBOO_URL" ∷ "BAMBOO_USERNAME"
    ∷ "BAMBOO_PASSWORD" ∷ "BAMBOO_VERSION_VARIABLE" ∷ "BAMBOO_SCM_PROVIDER" ∷ "BAMBOO_SPECS_REPO"
    ∷ "AZURE_DEVOPS_ORG" ∷ "AZURE_DEVOPS_PAT" ∷ "AZURE_DEVOPS_PROJECT" ∷ "BITBUCKET_USERNAME"
    ∷ "BITBUCKET_APP_PASSWORD" ∷ "BITBUCKET_TOKEN" ∷ "ARGOCD_SERVER_URL" ∷ "ARGOCD_AUTH_TOKEN"
    ∷ "AWS_ACCESS_KEY_ID" ∷ "AWS_SECRET_ACCESS_KEY" ∷ "AWS_REGION" ∷ "GCP_PROJECT_ID"
    ∷ "GOOGLE_APPLICATION_CREDENTIALS" ∷ "AZURE_SUBSCRIPTION_ID" ∷ "AZURE_TENANT_ID"
    ∷ "AZURE_CLIENT_ID" ∷ "AZURE_CLIENT_SECRET" ∷ "KUBECONFIG" ∷ "ALLOWED_NAMESPACES"
    ∷ "EMAIL_SMTP_HOST" ∷ "EMAIL_SMTP_PORT" ∷ "EMAIL_SMTP_USER" ∷ "EMAIL_SMTP_PASSWORD"
    ∷ "EMAIL_FROM" ∷ "EMAIL_TO" ∷ "JIRA_URL" ∷ "JIRA_EMAIL" ∷ "JIRA_API_TOKEN" ∷ "JIRA_PROJECT_KEY"
    ∷ "ZOHO_ACCESS_TOKEN" ∷ "ZOHO_DESK_ORG_ID" ∷ "PAGERDUTY_TOKEN" ∷ "PAGERDUTY_SERVICE_ID"
    ∷ "PAGERDUTY_FROM_EMAIL" ∷ "PAGERDUTY_SCHEDULE_ID" ∷ "PROMETHEUS_URL" ∷ "GRAFANA_URL"
    ∷ "GRAFANA_TOKEN" ∷ "DATADOG_API_KEY" ∷ "DATADOG_APP_KEY" ∷ "NEW_RELIC_API_KEY"
    ∷ "NEW_RELIC_ACCOUNT_ID" ∷ "STATUSPAGE_PAGE_ID" ∷ "STATUSPAGE_API_KEY" ∷ "AUTO_APPLY"
    ∷ "CLAUDE_MODEL" ∷ [])

-- A credential that is kept: a known key, with a value that is not blank.
abbrev pub is_credential : Text → Option Text → Bool
is_credential k none = false
is_credential k (some v) = text_mem k org_credential_keys && not (is_empty (strip v))

-- The dictionary that `save` stores; the keys of the one given are distinct.
unfoldable pub known_credentials : Objects (Option Text) → Objects Text
known_credentials [] = []
known_credentials ((k, v) ∷ more) =
    let rest = known_credentials more in
    elim v [ none ↦ rest | some t ↦ if is_credential k (some t) then (k, t) ∷ rest else rest ]

unfoldable pub config_key : Text → Text
unfolding org_prefix
config_key org_id = org_prefix org_id (codes "config" ∷ codes "credentials.json" ∷ [])

-- The keys that are configured now.
unfoldable pub save : Text → Objects (Option Text) → Program (Objects Text) (List Text)
save org_id credentials = do
  put_json (config_key org_id) (known_credentials credentials)
  done (Memory.keys (known_credentials credentials))

-- `data or {}`
unfoldable pub get : Text → Program (Objects Text) (Objects Text)
get org_id = do found ← get_json (config_key org_id); done (or_else found [])

unfoldable pub delete : Text → Program (Objects Text) Bool
delete org_id = Program.delete (config_key org_id)

-- {k: os.getenv(k) for k in keys if os.getenv(k)}
unfoldable pub env_values : Environ → List Text → Objects Text
env_values env [] = []
env_values env (k ∷ ks) =
    let rest = env_values env ks in
    elim (is_empty (or_else (Memory.get k env) [])) [
      | true ↦ rest
      | false ↦ (k, or_else (Memory.get k env) []) ∷ rest
    ]

unfoldable pub env_credentials_for_org : Environ → Text → Objects Text
env_credentials_for_org env org_id =
    if not (text_eq (getenv (codes "ORG_ID") (codes "default") env) org_id)
    then []
    else env_values env org_credential_keys

-- merged.update(stored)
unfoldable pub update : Objects Text → Objects Text → Objects Text
update merged [] = merged
update merged ((k, v) ∷ stored) = update (Memory.put k v merged) stored

unfoldable pub resolve_org_credentials : Environ → Text → Program (Objects Text) (Objects Text)
unfolding get
resolve_org_credentials env org_id = do
  stored ← get org_id
  done (update (env_credentials_for_org env org_id) stored)

-- set(stored) | set(from_env)
unfoldable pub merged_keys : Objects Text → Objects Text → List Text
merged_keys stored from_env =
    Memory.keys stored
    ++ filter_by (λ k. not (text_mem k (Memory.keys stored))) (Memory.keys from_env)

-- The configured keys, sorted, and the recommended ones that are missing.
unfoldable pub status : Environ → Text → Program (Objects Text) (List Text × List Text)
unfolding get
status env org_id = do
  stored ← get org_id
  let configured = merged_keys stored (env_credentials_for_org env org_id)
  done (
    sorted configured,
    filter_by (λ k. not (text_mem k configured))
        (words ("ANTHROPIC_API_KEY" ∷ "SLACK_WEBHOOK_URL" ∷ "GITHUB_TOKEN" ∷ [])),
  )
