-- ===== src/Agent/Classifier.antt =====
-- agent/classifier.py: the issue type of an alert, and the CI/CD platform of an incident.
pub mod Types
use open_devops_agent.Prelude.{
  Bool, true, false, ◌&&◌, ◌||◌, not, Option, none, some, List, [], ◌∷◌, if◌then◌else◌, String,
}
use open_devops_agent.Text.{Text, codes, words, text_mem, contains, contains_any, lower, is_empty}
use open_devops_agent.Storage.Memory
use open_devops_agent.Storage.Memory.{Objects}
use open_devops_agent.Environ.{or_else}

pub data IssueType : Type 0 where
  k8s cicd server cloud_aws cloud_gcp cloud_azure argocd helm terraform : IssueType
  observability data_store code_review : IssueType

abbrev pub issue_text : IssueType → Text
issue_text k8s = codes "k8s"
issue_text cicd = codes "cicd"
issue_text server = codes "server"
issue_text cloud_aws = codes "cloud_aws"
issue_text cloud_gcp = codes "cloud_gcp"
issue_text cloud_azure = codes "cloud_azure"
issue_text argocd = codes "argocd"
issue_text helm = codes "helm"
issue_text terraform = codes "terraform"
issue_text observability = codes "observability"
issue_text data_store = codes "data"
issue_text code_review = codes "code_review"

abbrev pub cicd_keywords : List Text
cicd_keywords = words (
    "pipeline" ∷ "build" ∷ "ci" ∷ "release" ∷ "workflow" ∷ "job" ∷ "jenkins" ∷ "gitlab" ∷ "bamboo"
    ∷ "azure-pipeline" ∷ "github-actions" ∷ "buildfailed" ∷ "pipelinefailed" ∷ "pipelineerror"
    ∷ "deploymentfailed" ∷ [])

abbrev pub k8s_keywords : List Text
k8s_keywords = words (
    "pod" ∷ "container" ∷ "crash" ∷ "oom" ∷ "image" ∷ "evict" ∷ "pending" ∷ "replicaset"
    ∷ "statefulset" ∷ "daemonset" ∷ "nodepool" ∷ "crashloop" ∷ [])

abbrev pub server_keywords : List Text
server_keywords = words (
    "cpu" ∷ "memory" ∷ "disk" ∷ "diskfull" ∷ "inode" ∷ "load" ∷ "nginx" ∷ "apache" ∷ "service"
    ∷ "host" ∷ "node" ∷ "network" ∷ "ssh" ∷ "systemd" ∷ "journal" ∷ "certbot" ∷ "letsencrypt"
    ∷ "wildcard" ∷ "certificate" ∷ "ssl" ∷ "filesystem" ∷ [])

abbrev pub argocd_keywords : List Text
argocd_keywords = words ("argocd" ∷ "argo" ∷ "gitops" ∷ "sync" ∷ [])

abbrev pub helm_keywords : List Text
helm_keywords = words ("helm" ∷ "chart" ∷ "helmrelease" ∷ "release failed" ∷ [])

abbrev pub terraform_keywords : List Text
terraform_keywords =
    words ("terraform" ∷ "tfstate" ∷ "tf plan" ∷ "iac drift" ∷ "infrastructure drift" ∷ [])

abbrev pub observability_keywords : List Text
observability_keywords = words (
    "slo" ∷ "errorbudget" ∷ "error-budget" ∷ "error budget" ∷ "apdex" ∷ "prometheus" ∷ "grafana"
    ∷ "datadog" ∷ "newrelic" ∷ "new relic" ∷ "synthetic" ∷ "blackbox" ∷ "jaeger" ∷ "tempo"
    ∷ "traceid" ∷ "oncall" ∷ "on-call" ∷ "statuspage" ∷ "status page" ∷ "latency" ∷ "p99"
    ∷ "burnrate" ∷ "burn-rate" ∷ [])

abbrev pub data_keywords : List Text
data_keywords = words (
    "kafka" ∷ "elasticsearch" ∷ "opensearch" ∷ "consumerlag" ∷ "consumer-lag" ∷ "snapshot"
    ∷ "backup" ∷ "restore" ∷ "failover" ∷ "wal" ∷ "replication slot" ∷ [])

abbrev pub code_review_keywords : List Text
code_review_keywords = words (
    "code review" ∷ "codereview" ∷ "pull_request" ∷ "pull request" ∷ "merge_request"
    ∷ "merge request" ∷ "pr opened" ∷ "pr updated" ∷ "mr opened" ∷ "bitbucket pr" ∷ [])

abbrev pub aws_keywords : List Text
aws_keywords = words (
    "ec2" ∷ "ecs" ∷ "eks" ∷ "fargate" ∷ "lambda" ∷ "rds" ∷ "aws" ∷ "cloudwatch" ∷ "elb" ∷ "alb"
    ∷ "ecr" ∷ "elasticache" ∷ "dynamodb" ∷ "sqs" ∷ "sns" ∷ "s3" ∷ "autoscaling" ∷ "elasticbeanstalk"
    ∷ "apprunner" ∷ "batch" ∷ [])

abbrev pub gcp_keywords : List Text
gcp_keywords = words (
    "gce" ∷ "gke" ∷ "cloud-run" ∷ "cloud-function" ∷ "gcp" ∷ "google-cloud" ∷ "compute-engine"
    ∷ "artifact-registry" ∷ "cloud-sql" ∷ "memorystore" ∷ "pubsub" ∷ "cloud-storage"
    ∷ "load-balancer" ∷ "cloud-composer" ∷ [])

abbrev pub azure_keywords : List Text
azure_keywords = words (
    "azure-vm" ∷ "aks" ∷ "app-service" ∷ "azure-function" ∷ "azure-sql" ∷ "aci"
    ∷ "container-instance" ∷ "container-apps" ∷ "acr" ∷ "vmss" ∷ "cosmosdb" ∷ "redis"
    ∷ "application-gateway" ∷ "service-bus" ∷ [])

-- The type that the name of the alert, in lower case, gives away.
unfoldable pub issue_of_name : Text → Option IssueType
issue_of_name name =
    if contains_any argocd_keywords name
    then some argocd
    else if contains_any helm_keywords name
    then some helm
    else if contains_any terraform_keywords name
    then some terraform
    else if contains_any observability_keywords name
    then some observability
    else if contains_any data_keywords name
    then some data_store
    else if contains_any code_review_keywords name
    then some code_review
    else if contains_any cicd_keywords name
    then some cicd
    else if contains_any aws_keywords name
    then some cloud_aws
    else if contains_any gcp_keywords name
    then some cloud_gcp
    else if contains_any azure_keywords name
    then some cloud_azure
    else if contains_any k8s_keywords name
    then some k8s
    else if contains_any server_keywords name
    then some server
    else none

abbrev pub Labels : Type 0
Labels = Objects Text

-- `labels.get(name)` counts: it is there and not empty.
unfoldable pub has_label : Labels → String → Bool
unfolding Memory.get
has_label labels name = not (is_empty (or_else (Memory.get (codes name) labels) []))

-- labels["cloud_provider"].lower(), where the label is there
unfoldable pub provider_of : Labels → Text
unfolding Memory.get lower
provider_of labels = lower (or_else (Memory.get (codes "cloud_provider") labels) [])

-- The provider of a cluster, by its exact name.
unfoldable pub cluster_cloud : Text → Option IssueType
unfolding text_mem
cluster_cloud cloud =
    if text_mem cloud (words ("aws" ∷ "eks" ∷ []))
    then some cloud_aws
    else if text_mem cloud (words ("gcp" ∷ "gke" ∷ "google" ∷ []))
    then some cloud_gcp
    else if text_mem cloud (words ("azure" ∷ "aks" ∷ []))
    then some cloud_azure
    else none

-- The provider, by what its name contains; a server if it says nothing.
unfoldable pub provider_cloud : Text → IssueType
unfolding contains
provider_cloud cloud =
    if contains cloud (codes "aws")
    then cloud_aws
    else if contains cloud (codes "gcp") || contains cloud (codes "google")
    then cloud_gcp
    else if contains cloud (codes "azure")
    then cloud_azure
    else server

-- The labels after the one on a cluster.
unfoldable pub issue_of_other_labels : Labels → IssueType
unfolding has_label provider_of provider_cloud
issue_of_other_labels labels =
    if has_label labels "pipeline" || has_label labels "job"
    then cicd
    else if has_label labels "argocd_app"
    then argocd
    else if has_label labels "helm_release" || has_label labels "chart"
    then helm
    else if has_label labels "terraform_workspace" || has_label labels "tf_workspace"
    then terraform
    else if has_label labels "slo" || has_label labels "prometheus" || has_label labels "statuspage"
    then observability
    else if has_label labels "kafka"
        || has_label labels "elasticsearch"
        || has_label labels "snapshot_id"
    then data_store
    else if has_label labels "pull_request"
        || has_label labels "merge_request"
        || has_label labels "pr_number"
        || has_label labels "mr_iid"
        || has_label labels "code_review"
    then code_review
    else if has_label labels "cloud_provider"
    then provider_cloud (provider_of labels)
    else server

unfoldable pub issue_of_labels : Labels → IssueType
unfolding has_label provider_of cluster_cloud issue_of_other_labels
issue_of_labels labels =
    if has_label labels "namespace" || has_label labels "pod"
    then k8s
    else if has_label labels "cluster" && has_label labels "cloud_provider"
    then or_else (cluster_cloud (provider_of labels)) (issue_of_other_labels labels)
    else issue_of_other_labels labels

unfoldable pub classify_issue : Text → Labels → IssueType
unfolding issue_of_name issue_of_labels lower
classify_issue alertname labels = or_else (issue_of_name (lower alertname)) (issue_of_labels labels)

-- What `get_cicd_platform` reads of the incident's context.
pub record PlatformContext : Type 0 where
  pub source : Option Text
  pub repo : Option Text
  pub plan_key : Option Text

abbrev or_blank : Option Text → Text
or_blank none = []
or_blank (some s) = s

-- `context.get("repo", "") or labels.get("repo_url", "")`
abbrev repo_url_of : Labels → Text → Text
repo_url_of labels [] = or_else (Memory.get (codes "repo_url") labels) []
repo_url_of labels (c ∷ s) = c ∷ s

unfoldable pub platform_of_repo : Labels → PlatformContext → Text → Text
unfolding contains has_label
platform_of_repo labels context repo_url =
    if contains repo_url (codes "github.com")
    then codes "github"
    else if contains repo_url (codes "gitlab")
    then codes "gitlab"
    else if contains repo_url (codes "bamboo")
        || has_label labels "plan_key"
        || not (is_empty (or_blank context.plan_key))
    then codes "bamboo"
    else codes "unknown"

unfoldable pub get_cicd_platform : Labels → PlatformContext → Text
unfolding has_label lower contains platform_of_repo Memory.get
get_cicd_platform labels context =
    let source = lower (or_blank context.source) in
    if has_label labels "cicd_platform"
    then lower (or_else (Memory.get (codes "cicd_platform") labels) [])
    else if contains source (codes "github")
    then codes "github"
    else if contains source (codes "gitlab")
    then codes "gitlab"
    else if contains source (codes "jenkins")
    then codes "jenkins"
    else if contains source (codes "bamboo")
    then codes "bamboo"
    else if contains source (codes "azure") || contains source (codes "azuredevops")
    then codes "azure_devops"
    else platform_of_repo labels context (repo_url_of labels (or_blank context.repo))
