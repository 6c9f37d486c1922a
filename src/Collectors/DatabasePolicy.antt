-- ===== src/Collectors/DatabasePolicy.antt =====
-- collectors/database_policy.py.
pub mod Blocked
use open_devops_agent.Prelude.{
  Bool, true, false, ◌&&◌, ◌||◌, not, Option, none, some, List, [], ◌∷◌, ◌++◌, if◌then◌else◌, any,
  filter_by, String,
}
use open_devops_agent.Text.{Text, codes, words, text_mem, contains, contains_any, lower, join_with}
use open_devops_agent.Storage.Memory
use open_devops_agent.Storage.Memory.{Objects, sorted}
use open_devops_agent.Environ.{Environ, getenv, or_else}

abbrev pub database_resource_types : Objects (List Text)
database_resource_types =
    (codes "aws", words ("rds" ∷ "elasticache" ∷ "dynamodb" ∷ []))
    ∷ (codes "gcp", words ("cloud_sql" ∷ "firestore" ∷ "memorystore" ∷ []))
    ∷ (codes "azure", words ("sql" ∷ "cosmosdb" ∷ "redis" ∷ []))
    ∷ []

-- The union of the sets.
abbrev pub union_of : Objects (List Text) → List Text
union_of [] = []
union_of ((cloud, types) ∷ rest) = types ++ union_of rest

abbrev pub all_database_resource_types : List Text
all_database_resource_types = union_of database_resource_types

unfoldable pub is_database_collection_enabled : Environ → Bool
unfolding getenv lower text_mem
is_database_collection_enabled env =
    text_mem (lower (getenv (codes "ENABLE_DATABASE_COLLECTION") (codes "false") env))
      (words ("true" ∷ "1" ∷ "yes" ∷ []))

unfoldable pub is_database_resource_type : Text → Bool
unfolding lower text_mem
is_database_resource_type resource_type = text_mem (lower resource_type) all_database_resource_types

-- The refusal, of which the rest is fixed text.
pub record BlockedResponse : Type 0 where
  pub blocked : Bool
  pub resource_type : Text
  pub cloud : Option Text

abbrev pub database_collection_blocked_response : Text → Option Text → BlockedResponse
database_collection_blocked_response resource_type cloud = record {
  blocked = true;
  resource_type = resource_type;
  cloud = cloud;
}

unfoldable pub check_database_access : Environ → Text → Option Text → Option BlockedResponse
check_database_access env resource_type cloud =
    if is_database_resource_type resource_type && not (is_database_collection_enabled env)
    then some (database_collection_blocked_response resource_type cloud)
    else none

unfoldable pub filter_supported_types : Environ → List Text → List Text
filter_supported_types env all_types =
    if is_database_collection_enabled env
    then all_types
    else filter_by (λ t. not (text_mem t all_database_resource_types)) all_types

unfoldable pub get_enabled_database_types : Environ → Text → List Text
unfolding Memory.get sorted
get_enabled_database_types env cloud =
    if not (is_database_collection_enabled env)
    then []
    else sorted (or_else (Memory.get cloud database_resource_types) [])

abbrev pub db_incident_keywords : List Text
db_incident_keywords = words (
    "rds" ∷ "sql" ∷ "database" ∷ "postgres" ∷ "postgresql" ∷ "mysql" ∷ "mariadb" ∷ "redis"
    ∷ "dynamodb" ∷ "cosmos" ∷ "elasticache" ∷ "cloud_sql" ∷ "firestore" ∷ "memorystore" ∷ "db_"
    ∷ "mongodb" ∷ "oracle" ∷ "sqlite" ∷ "cassandra" ∷ [])

-- What the policy reads of an incident's context; an absent part is read as blank.
pub record DbContext : Type 0 where
  pub resource_type : Option Text
  pub kind : Option Text
  pub alertname : Option Text
  pub description : Option Text
  pub summary : Option Text
  pub service : Option Text
  pub labels : Objects Text

abbrev pub searchable_of : DbContext → Text
searchable_of context = lower (
    join_with (codes " ") (
      or_else context.kind []
      ∷ or_else context.alertname []
      ∷ or_else context.description []
      ∷ or_else context.summary []
      ∷ or_else context.service []
      ∷ []))

abbrev pub label_values : Objects Text → List Text
label_values [] = []
label_values ((k, v) ∷ labels) = lower v ∷ label_values labels

abbrev is_db_context : DbContext → Bool
is_db_context context =
    if is_database_resource_type (lower (or_else context.resource_type []))
    then true
    else if contains_any db_incident_keywords (searchable_of context)
    then true
    else contains_any db_incident_keywords (join_with (codes " ") (label_values context.labels))

-- An empty context is no incident.
unfoldable pub is_database_incident : Option DbContext → Bool
is_database_incident none = false
is_database_incident (some context) = is_db_context context

-- What is read of an action's result.
pub record DbAction : Type 0 where
  pub blocked : Bool
  pub error : Text
  pub resource_type : Option Text

abbrev pub is_database_type : Option Text → Bool
is_database_type none = false
is_database_type (some t) = text_mem t all_database_resource_types

unfoldable pub incident_involves_blocked_database : List DbAction → Bool
incident_involves_blocked_database actions =
    any
      (λ action.
        action.blocked
        && (contains (lower action.error) (codes "database")
            || is_database_type action.resource_type))
      actions
