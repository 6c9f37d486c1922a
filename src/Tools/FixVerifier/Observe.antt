-- ===== src/Tools/FixVerifier/Observe.antt =====
-- What tools/fix_verifier.py reads of the systems that a fix was applied to. The answers of the
-- clients are a parameter, the record `World`.
use open_devops_agent.Prelude.{
  ℕ, Bool, true, false, ◌&&◌, ◌||◌, not, Option, none, some, List, [], ◌∷◌, ◌++◌, if◌then◌else◌,
  ◌==◌,
}
use open_devops_agent.Text.{Text, codes, words, text_eq, text_mem, lower, is_empty, rstrip_code}
use open_devops_agent.Text.Decimal.{decimal}
use open_devops_agent.Environ.{Environ, getenv}
use open_devops_agent.Json.{
  Json, null, string, object, Fields, end, field, truthy, get_field, str_of, value_of, or_json,
  is_blank,
}

-- What a call of a client gives, or the text of the exception that it raises.
pub data Answer (A : Type 0) : Type 0 where
  returned : A → Answer A
  threw : Text → Answer A

pub record HttpRequest : Type 0 where
  pub url : Text
  pub headers : List (Text × Text)
  pub auth : Option (Text × Text)

-- A response's status, with what `resp.json()` gives.
pub record Response : Type 0 where
  pub status_code : ℕ
  pub json : Answer Json

pub record World : Type 0 where
  pub is_windows : Bool
  pub pod_phase : Json → Json → Answer Text
  pub service_state : Json → Answer Text
  pub http_get : HttpRequest → Answer Response
  pub azure_headers : List (Text × Text)
  pub aws : Json → Json → Fields → Answer Fields
  pub gcp : Json → Json → Fields → Answer Fields
  pub azure : Json → Json → Fields → Answer Fields
  pub argocd : Json → Answer Fields
  -- the text of the exception where a value that is no dict is asked for a key
  pub no_get : Json → Text

abbrev pub error_object : Text → Fields
error_object message = field (codes "error") (string message) end

module _ (world : World) where
  abbrev json_or_error : Answer Json → Json
  json_or_error (returned v) = v
  json_or_error (threw message) =
      object (error_object (codes "Target response was not JSON: " ++ message))

  abbrev response_json : Answer Response → Json
  response_json (threw message) = object (error_object message)
  response_json (returned resp) =
      if not (resp.status_code == 200)
      then object
          (error_object (codes "Could not fetch target status: " ++ decimal resp.status_code))
      else json_or_error resp.json

  unfoldable pub http_get_json : HttpRequest → Json
  unfolding decimal
  http_get_json request = response_json (world.http_get request)

  -- What is made of the JSON of a target, if it is a dict without an error.
  abbrev read_target : (Fields → Fields) → Json → Fields
  read_target view (object data') = elim (get_field (codes "error") data') [
    | none ↦ view data'
    | some e ↦ data'
  ]
  read_target view v = error_object (world.no_get v)

  abbrev status_view : Text → Json → Json → Fields
  status_view platform status url =
      field (codes "platform") (string platform)
        (field (codes "status") status (field (codes "url") url end))

  abbrev at : Text → Fields → Json
  at name fields = value_of (get_field name fields)

  module _ (repr : Json → Text) (env : Environ) where
    unfoldable pub observe_github_run : Fields → Fields
    unfolding get_field truthy
    observe_github_run expected =
        let repo = at (codes "repo") expected in
        let run_id = at (codes "run_id") expected in
        let token = getenv (codes "GITHUB_TOKEN") [] env in
        if not (truthy repo) || is_blank run_id
        then error_object (codes "GitHub verification requires repo and run_id")
        else if is_empty token
        then error_object (codes "GITHUB_TOKEN not configured; cannot observe GitHub Actions")
        else read_target
            (λ data'.
              status_view (codes "github")
                (or_json (at (codes "conclusion") data') (at (codes "status") data'))
                (at (codes "html_url") data'))
            (http_get_json (record {
              url =
                  codes "https://api.github.com/repos/"
                  ++ (str_of repr repo ++ (codes "/actions/runs/" ++ str_of repr run_id));
              headers =
                  (codes "Authorization", codes "Bearer " ++ token)
                  ∷ (codes "Accept", codes "application/vnd.github+json")
                  ∷ (codes "X-GitHub-Api-Version", codes "2022-11-28")
                  ∷ [];
              auth = none;
            }))

    unfoldable pub observe_gitlab_pipeline : Fields → Fields
    observe_gitlab_pipeline expected =
        let project_id = at (codes "project_id") expected in
        let pipeline_id = at (codes "pipeline_id") expected in
        let token = getenv (codes "GITLAB_TOKEN") [] env in
        if not (truthy project_id) || is_blank pipeline_id
        then error_object (codes "GitLab verification requires project_id and pipeline_id")
        else if is_empty token
        then error_object (codes "GITLAB_TOKEN not configured; cannot observe GitLab pipelines")
        else read_target
            (λ data'.
              status_view (codes "gitlab") (at (codes "status") data') (at (codes "web_url") data'))
            (http_get_json (record {
              url =
                  rstrip_code b'/' (getenv (codes "GITLAB_URL") (codes "https://gitlab.com") env)
                  ++ (codes "/api/v4/projects/"
                      ++ (str_of repr project_id
                          ++ (codes "/pipelines/" ++ str_of repr pipeline_id)));
              headers = (codes "PRIVATE-TOKEN", token) ∷ [];
              auth = none;
            }))

    -- (username, password) if both are there
    abbrev credentials : Text → Text → Option (Text × Text)
    credentials username password =
        if not (is_empty username) && not (is_empty password)
        then some (username, password)
        else none

    unfoldable pub observe_jenkins_build : Fields → Fields
    observe_jenkins_build expected =
        let job_name = at (codes "job_name") expected in
        let build_number = at (codes "build_number") expected in
        let jenkins_url = rstrip_code b'/' (getenv (codes "JENKINS_URL") [] env) in
        if not (truthy job_name) || is_blank build_number
        then error_object (codes "Jenkins verification requires job_name and build_number")
        else if is_empty jenkins_url
        then error_object (codes "JENKINS_URL not configured; cannot observe Jenkins builds")
        else read_target
            (λ data'.
              status_view (codes "jenkins") (at (codes "result") data') (at (codes "url") data'))
            (http_get_json (record {
              url =
                  jenkins_url
                  ++ (codes "/job/"
                      ++ (str_of repr job_name
                          ++ (b'/' ∷ (str_of repr build_number ++ codes "/api/json"))));
              headers = [];
              auth =
                  credentials (getenv (codes "JENKINS_USERNAME") [] env)
                    (getenv (codes "JENKINS_API_TOKEN") [] env);
            }))

    abbrev build_key : Json → Json → Text
    build_key plan_key build_number =
        if not (is_blank build_number)
        then str_of repr plan_key ++ (b'-' ∷ str_of repr build_number)
        else str_of repr plan_key ++ codes "/latest"

    -- `v.get`, which raises for what is no dict
    abbrev of_dict : (Fields → Fields) → Json → Fields
    of_dict view (object fields) = view fields
    of_dict view v = error_object (world.no_get v)

    -- `(v or {}).get`
    abbrev of_dict_or_empty : (Fields → Fields) → Json → Fields
    of_dict_or_empty view v = if truthy v then of_dict view v else view end

    -- `links.get("web", {})`
    abbrev of_web : (Fields → Fields) → Fields → Fields
    of_web view links = elim (get_field (codes "web") links) [
      | none ↦ view end
      | some web ↦ of_dict view web
    ]

    unfoldable pub observe_bamboo_build : Fields → Fields
    observe_bamboo_build expected =
        let plan_key = at (codes "plan_key") expected in
        let bamboo_url = rstrip_code b'/' (getenv (codes "BAMBOO_URL") [] env) in
        if not (truthy plan_key)
        then error_object (codes "Bamboo verification requires plan_key")
        else if is_empty bamboo_url
        then error_object (codes "BAMBOO_URL not configured; cannot observe Bamboo builds")
        else read_target
            (λ data'.
              of_dict_or_empty
                (λ link.
                  status_view (codes "bamboo")
                    (or_json (at (codes "buildState") data') (at (codes "lifeCycleState") data'))
                    (at (codes "href") link))
                (at (codes "link") data'))
            (http_get_json (record {
              url =
                  bamboo_url
                  ++ (codes "/rest/api/latest/result/"
                      ++ build_key plan_key (at (codes "build_number") expected));
              headers = [];
              auth =
                  credentials (getenv (codes "BAMBOO_USERNAME") [] env)
                    (getenv (codes "BAMBOO_PASSWORD") [] env);
            }))

    unfoldable pub observe_azure_pipeline : Fields → Fields
    observe_azure_pipeline expected =
        let project = at (codes "project") expected in
        let pipeline_id = at (codes "pipeline_id") expected in
        let run_id = at (codes "run_id") expected in
        let org = getenv (codes "AZURE_DEVOPS_ORG") [] env in
        if not (truthy project) || is_blank pipeline_id || is_blank run_id
        then error_object
            (codes "Azure DevOps verification requires project, pipeline_id, and run_id")
        else if is_empty org || is_empty (getenv (codes "AZURE_DEVOPS_PAT") [] env)
        then error_object (codes "AZURE_DEVOPS_ORG and AZURE_DEVOPS_PAT must be configured")
        else read_target
            (λ data'.
              of_dict_or_empty
                (of_web (λ web.
                  status_view (codes "azure_devops")
                    (or_json (at (codes "result") data') (at (codes "state") data'))
                    (or_json (at (codes "href") web) (at (codes "url") data'))))
                (at (codes "_links") data'))
            (http_get_json (record {
              url =
                  codes "https://dev.azure.com/"
                  ++ (org
                      ++ (b'/'
                          ∷ (str_of repr project
                              ++ (codes "/_apis/pipelines/"
                                  ++ (str_of repr pipeline_id
                                      ++ (codes "/runs/"
                                          ++ (str_of repr run_id ++ codes "?api-version=7.0")))))));
              headers = world.azure_headers;
              auth = none;
            }))

    unfoldable pub observe_cicd : Fields → Fields
    unfolding text_eq text_mem lower
    observe_cicd expected =
        let named = at (codes "platform") expected in
        let platform = lower (if truthy named then str_of repr named else []) in
        if text_mem platform (words ("" ∷ "unknown" ∷ []))
        then error_object (codes "CI/CD verification requires a target platform and identifiers")
        else if text_eq platform (codes "github")
        then observe_github_run expected
        else if text_eq platform (codes "gitlab")
        then observe_gitlab_pipeline expected
        else if text_eq platform (codes "jenkins")
        then observe_jenkins_build expected
        else if text_eq platform (codes "bamboo")
        then observe_bamboo_build expected
        else if text_mem platform (words ("azure_devops" ∷ "azure" ∷ []))
        then observe_azure_pipeline expected
        else error_object (codes "Unsupported CI/CD platform: " ++ platform)

  abbrev reserved : List Text
  reserved = words ("resource_type" ∷ "resource_id" ∷ "state" ∷ "status" ∷ "expected_status" ∷ [])

  abbrev is_null : Json → Bool
  is_null null = true
  is_null _ = false

  -- The other entries of the expected state that are not None.
  unfoldable pub cloud_params : Fields → Fields
  unfolding text_mem
  cloud_params end = end
  cloud_params (field k v fs) =
      let rest = cloud_params fs in
      if not (text_mem k reserved) && not (is_null v) then field k v rest else rest

  abbrev or_error : Answer Fields → Fields
  or_error (returned observation) = observation
  or_error (threw message) = error_object message

  unfoldable pub observe_cloud : Text → Fields → Fields
  unfolding text_eq
  observe_cloud incident_type expected =
      let resource_type = at (codes "resource_type") expected in
      let resource_id = at (codes "resource_id") expected in
      let params = cloud_params expected in
      if text_eq incident_type (codes "cloud_aws")
      then or_error (world.aws resource_type resource_id params)
      else if text_eq incident_type (codes "cloud_gcp")
      then or_error (world.gcp resource_type resource_id params)
      else if text_eq incident_type (codes "cloud_azure")
      then or_error (world.azure resource_type resource_id params)
      else error_object (codes "Unsupported cloud incident type: " ++ incident_type)
