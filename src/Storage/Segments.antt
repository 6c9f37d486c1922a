-- ===== src/Storage/Segments.antt =====
-- `_safe_path_segment` and `org_prefix` of storage/base.py, and traversal.
use open_devops_agent.Prelude.{
  ◌≡◌, refl, Bool, true, false, List, [], ◌∷◌, ◌++◌, map, arith, All, filter_by, not,
}
use open_devops_agent.Text.{Text, codes, contains, is_empty, strip}
use open_devops_agent.Storage.Keys.{
  without_dots, to_slash, or_default, safe_path_segment, join_slash, org_prefix,
}

contains-without_dots :
    (held : Bool) (s : Text) → contains (without_dots held s) (codes "..") ≡ false
unfolding contains without_dots
contains-without_dots false [] = refl
contains-without_dots true [] = refl
contains-without_dots false (c ∷ s) =
    ground (arith, contains-without_dots false s, contains-without_dots true s)
contains-without_dots true (c ∷ s) = ground (arith, contains-without_dots false s)

contains-map-to_slash :
    (s : Text) → contains s (codes "..") ≡ false → contains (map to_slash s) (codes "..") ≡ false
unfolding contains to_slash
contains-map-to_slash [] h = refl
contains-map-to_slash (c ∷ []) h = ground arith
contains-map-to_slash (c ∷ d ∷ s) h = ground (arith, contains-map-to_slash (d ∷ s))

contains-or_default :
    (s : Text) → contains s (codes "..") ≡ false → contains (or_default s) (codes "..") ≡ false
unfolding contains
contains-or_default [] h = refl
contains-or_default (c ∷ s) h = h

no_backslash : (s : Text) → contains (map to_slash s) (92 ∷ []) ≡ false
unfolding contains to_slash
no_backslash [] = refl
no_backslash (c ∷ s) = ground (arith, no_backslash s)

no_backslash-or_default :
    (s : Text) → contains s (92 ∷ []) ≡ false → contains (or_default s) (92 ∷ []) ≡ false
unfolding contains
no_backslash-or_default [] h = refl
no_backslash-or_default (c ∷ s) h = h

not-is_empty-or_default : (s : Text) → is_empty (or_default s) ≡ false
not-is_empty-or_default [] = refl
not-is_empty-or_default (c ∷ s) = refl

-- Whatever the value, the segment that `_safe_path_segment` makes of it is not empty and holds
-- neither `..` nor a backslash.
pub safe_path_segment-no_traversal :
    (value : Text)
    → (contains (safe_path_segment value) (codes "..") ≡ false)
      × (contains (safe_path_segment value) (codes "\\") ≡ false)
      × (is_empty (safe_path_segment value) ≡ false)
unfolding safe_path_segment
safe_path_segment-no_traversal value =
    let dotless = without_dots false (strip (or_default value)) in
    (
      contains-or_default (map to_slash dotless)
          (contains-map-to_slash dotless (contains-without_dots false (strip (or_default value)))),
      no_backslash-or_default (map to_slash dotless) (no_backslash dotless),
      not-is_empty-or_default (map to_slash dotless),
    )

contains-slash :
    (s t : Text)
    → contains s (codes "..") ≡ false
    → contains t (codes "..") ≡ false
    → contains (s ++ b'/' ∷ t) (codes "..") ≡ false
unfolding contains
contains-slash [] t hs ht = ground arith
contains-slash (c ∷ []) t hs ht = ground arith
contains-slash (c ∷ d ∷ s) t hs ht = ground (arith, contains-slash (d ∷ s) t)

contains-join_slash :
    (segments : List Text)
    → All (λ s. contains s (codes "..") ≡ false) segments
    → contains (join_slash segments) (codes "..") ≡ false
unfolding join_slash contains
contains-join_slash [] h = refl
contains-join_slash (s ∷ []) h = h.0
contains-join_slash (s ∷ t ∷ more) h =
    contains-slash s (join_slash (t ∷ more)) h.0 (contains-join_slash (t ∷ more) h.1)

All-safe_path_segment :
    (parts : List Text) → All (λ s. contains s (codes "..") ≡ false) (map safe_path_segment parts)
All-safe_path_segment [] = tt
All-safe_path_segment (p ∷ parts) =
    ((safe_path_segment-no_traversal p).0, All-safe_path_segment parts)

-- Whatever the organisation and the parts, the key that `org_prefix` makes of them holds no `..`:
-- no key leads out of the folder of the store.
pub org_prefix-no_traversal :
    (org_id : Text) (parts : List Text) → contains (org_prefix org_id parts) (codes "..") ≡ false
unfolding org_prefix
org_prefix-no_traversal org_id parts =
    let named = filter_by (λ p. not (is_empty p)) parts in
    contains-join_slash (safe_path_segment org_id ∷ map safe_path_segment named)
      ((safe_path_segment-no_traversal org_id).0, All-safe_path_segment named)
