-- ===== src/Examples/Storage.antt =====
-- Runs of the in-memory provider and of the keys.
use open_devops_agent.Prelude.{ℕ, ◌≡◌, refl, inl, inr, false, some, [], ◌∷◌, In}
use open_devops_agent.Text.{codes, contains}
use open_devops_agent.Text.Decimal.{padded, parse_int, parse_int-padded}
use open_devops_agent.Storage.Memory.{Objects, list_keys}
use open_devops_agent.Storage.Keys.{org_prefix}
use open_devops_agent.Storage.Segments.{org_prefix-no_traversal}

abbrev two_objects : Objects ℕ
two_objects = (codes "acme/b", 2) ∷ (codes "acme/a", 1) ∷ []

listed : In (codes "acme/b") (list_keys (codes "acme/") two_objects)
unfolding list_keys
listed = inr (inl refl)

parse_int-padded_example : parse_int (padded 20 42) ≡ some 42
parse_int-padded_example = parse_int-padded 20 42

org_prefix-no_traversal_example :
    contains (org_prefix (codes "../acme") (codes "..\\..\\etc" ∷ [])) (codes "..") ≡ false
org_prefix-no_traversal_example =
    org_prefix-no_traversal (codes "../acme") (codes "..\\..\\etc" ∷ [])
