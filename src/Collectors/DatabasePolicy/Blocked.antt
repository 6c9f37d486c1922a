-- ===== src/Collectors/DatabasePolicy/Blocked.antt =====
-- When access to a database is refused (collectors/database_policy.py).
use open_devops_agent.Prelude.{
  ◌≡◌, refl, ◌↔◌, ◌⊎◌, inl, inr, Bool, true, false, ◌&&◌, not, Option, none, some, List, [], ◌∷◌,
  arith, if◌then◌else◌, Bool-cases, In, filter_by,
}
use open_devops_agent.Text.{Text, text_mem, words, codes, lower}
use open_devops_agent.Text.Laws.{text_eq_iff}
use open_devops_agent.Environ.{Environ, getenv}
use open_devops_agent.Collectors.DatabasePolicy.{
  all_database_resource_types, is_database_collection_enabled, is_database_resource_type,
  database_collection_blocked_response, BlockedResponse, check_database_access,
  filter_supported_types,
}

text_mem_iff : (a : Text) (ts : List Text) → (text_mem a ts ≡ true) ↔ In a ts
unfolding text_mem
text_mem_iff a [] = (λ h. cc, λ h. absurd h)
text_mem_iff a (t ∷ ts) = (
  λ h. ground (arith, text_mem_iff a ts, text_eq_iff a t),
  λ h. ground (arith, text_mem_iff a ts, text_eq_iff a t),
)

apart : false ≡ true → ⊥
apart e = absurd (cc)

-- The database types of the three clouds, written out.
abbrev pub databases : List Text
databases = words (
    "rds" ∷ "elasticache" ∷ "dynamodb" ∷ "cloud_sql" ∷ "firestore" ∷ "memorystore" ∷ "sql"
    ∷ "cosmosdb" ∷ "redis" ∷ [])

-- ENABLE_DATABASE_COLLECTION is `true`, `1` or `yes`, in whatever letters.
abbrev pub IsEnabled : Environ → Type 0
IsEnabled env =
    In (lower (getenv (codes "ENABLE_DATABASE_COLLECTION") (codes "false") env))
      (words ("true" ∷ "1" ∷ "yes" ∷ []))

-- Access to a resource is refused exactly if its name in small letters is one of the nine database
-- types written out above, and ENABLE_DATABASE_COLLECTION is none of `true`, `1` and `yes`,
-- in whatever letters. The refusal says that it is one and names the resource and the cloud as they
-- were given.
pub check_database_access-blocked :
    (env : Environ) (resource_type : Text) (cloud : Option Text) (answer : BlockedResponse)
    → (check_database_access env resource_type cloud ≡ some answer) ↔ (
        (answer ≡ record { blocked = true; resource_type = resource_type; cloud = cloud })
        × In (lower resource_type) databases
        × ¬ IsEnabled env)
unfolding check_database_access is_database_resource_type is_database_collection_enabled
check_database_access-blocked env resource_type cloud answer =
    by_tests (text_mem (lower resource_type) databases)
      (text_mem (lower (getenv (codes "ENABLE_DATABASE_COLLECTION") (codes "false") env))
        (words ("true" ∷ "1" ∷ "yes" ∷ [])))
      (text_mem_iff (lower resource_type) databases)
      (text_mem_iff (lower (getenv (codes "ENABLE_DATABASE_COLLECTION") (codes "false") env))
        (words ("true" ∷ "1" ∷ "yes" ∷ [])))
  where
    by_tests :
        {P Q : Type 0} (database enabled : Bool)
        → ((database ≡ true) ↔ P)
        → ((enabled ≡ true) ↔ Q)
        → ((if database && not enabled
              then some (database_collection_blocked_response resource_type cloud)
              else none)
            ≡ some answer)
          ↔ ((answer ≡ database_collection_blocked_response resource_type cloud) × P × ¬ Q)
    by_tests true true p q = (λ h. absurd (cc), λ h. absurd (h.2 (q.0 refl)))
    by_tests true false p q = (λ h. (cc, p.0 refl, λ x. absurd (apart (q.1 x))), λ h. rw h.0 refl)
    by_tests false enabled p q = (λ h. absurd (cc), λ h. absurd (apart (p.1 h.1)))

In-filter_by :
    (p : Text → Bool) (a : Text) (ks : List Text) → In a (filter_by p ks) ↔ (In a ks × (p a ≡ true))
unfolding filter_by
In-filter_by p a [] = (λ h. absurd h, λ h. absurd h.0)
In-filter_by p a (k ∷ ks) =
    (λ h. ground (arith, In-filter_by p a ks), λ h. ground (arith, In-filter_by p a ks))

of_not : (b : Bool) → not b ≡ true → b ≡ false
of_not true h = cc
of_not false h = refl

-- While database collection is off, the supported types that are left are those given that are no
-- database types; while it is on, all are left.
pub In-filter_supported_types :
    (env : Environ) (t : Text) (all_types : List Text)
    → In t (filter_supported_types env all_types) ↔ (
        In t all_types
        × ((is_database_collection_enabled env ≡ true)
            ⊎ (text_mem t all_database_resource_types ≡ false)))
unfolding filter_supported_types
In-filter_supported_types env t all_types =
    let listed = In-filter_by (λ u. not (text_mem u all_database_resource_types)) t all_types in
    elim (Bool-cases (is_database_collection_enabled env)) [
      | inl on ↦ rw on (λ h. (h, inl refl), λ h. h.0)
      | inr off ↦ rw off (
        λ h. ((listed.0 h).0, inr (of_not _ (listed.0 h).1)),
        λ h. listed.1 (h.0, elim h.1 [ inl e ↦ cc | inr e ↦ rw e ]),
      )
    ]
