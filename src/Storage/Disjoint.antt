-- ===== src/Storage/Disjoint.antt =====
-- The folders of an organisation's objects (storage/base.py), compared.
use open_devops_agent.Prelude.{◌≡◌, refl, true, false, [], ◌∷◌, ◌++◌, arith, Bool-cases, inl, inr}
use open_devops_agent.Text.{Text, codes, text_eq, starts_with}
use open_devops_agent.Text.Laws.{text_eq_iff}
use open_devops_agent.Storage.Keys.{
  org_prefix, safe_path_segment, json_file, queue_key, review_claim_key,
}

text_eq-common : (p s t : Text) → text_eq (p ++ s) (p ++ t) ≡ text_eq s t
unfolding text_eq
text_eq-common [] s t = refl
text_eq-common (c ∷ p) s t = ground (arith, text_eq-common p s t)

starts_with-common : (p s t : Text) → starts_with (p ++ s) (p ++ t) ≡ starts_with s t
unfolding starts_with
starts_with-common [] s t = refl
starts_with-common (c ∷ p) s t = ground (arith, starts_with-common p s t)

queue_key-processing :
    (org_id id : Text)
    → queue_key org_id (codes "processing") id
      ≡ safe_path_segment org_id ++ (codes "/queue/processing/" ++ safe_path_segment (json_file id))
unfolding queue_key
queue_key-processing org_id [] = refl
queue_key-processing org_id (c ∷ id) = refl

review_claim_key_lem :
    (org_id id : Text)
    → review_claim_key org_id id
      ≡ safe_path_segment org_id ++ (codes "/review_claims/" ++ safe_path_segment (json_file id))
unfolding review_claim_key
review_claim_key_lem org_id [] = refl
review_claim_key_lem org_id (c ∷ id) = refl

abbrev pub pending_folder : Text → Text
pending_folder org_id = org_prefix org_id (codes "queue" ∷ codes "pending" ∷ [])

org_prefix-pending :
    (org_id : Text) → pending_folder org_id ≡ safe_path_segment org_id ++ codes "/queue/pending"
unfolding org_prefix
org_prefix-pending org_id = refl

-- A processing key is no claim key of a review.
pub processing-ne-claim :
    (org_id id id' : Text)
    → text_eq (queue_key org_id (codes "processing") id) (review_claim_key org_id id') ≡ false
processing-ne-claim org_id id id' =
    rw
      (
        queue_key-processing org_id id,
        review_claim_key_lem org_id id',
        text_eq-common (safe_path_segment org_id),
      )
      (unfold text_eq in refl)

-- What the pending folder lists is no claim key of a review, and no processing key.
claim-not-pending :
    (org_id id : Text) → starts_with (review_claim_key org_id id) (pending_folder org_id) ≡ false
claim-not-pending org_id id =
    rw
      (
        review_claim_key_lem org_id id,
        org_prefix-pending org_id,
        starts_with-common (safe_path_segment org_id),
      )
      (unfold starts_with in refl)

processing-not-pending :
    (org_id id : Text)
    → starts_with (queue_key org_id (codes "processing") id) (pending_folder org_id) ≡ false
processing-not-pending org_id id =
    rw
      (
        queue_key-processing org_id id,
        org_prefix-pending org_id,
        starts_with-common (safe_path_segment org_id),
      )
      (unfold starts_with in refl)

ne_of_prefix :
    (j k p : Text) → starts_with j p ≡ true → starts_with k p ≡ false → text_eq j k ≡ false
ne_of_prefix j k p hj hk = elim (Bool-cases (text_eq j k)) [
  | inl same ↦ absurd (ground (arith, text_eq_iff j k))
  | inr other ↦ other
]

pub pending-ne-claim :
    (org_id j id : Text)
    → starts_with j (pending_folder org_id) ≡ true
    → text_eq j (review_claim_key org_id id) ≡ false
pending-ne-claim org_id j id h =
    ne_of_prefix j (review_claim_key org_id id) (pending_folder org_id) h
      (claim-not-pending org_id id)

pub processing-ne-pending :
    (org_id j id : Text)
    → starts_with j (pending_folder org_id) ≡ true
    → text_eq (queue_key org_id (codes "processing") id) j ≡ false
processing-ne-pending org_id j id h = ground (
  arith,
  text_eq_iff (queue_key org_id (codes "processing") id) j,
  processing-not-pending org_id id,
)

queue_key-completed :
    (org_id id : Text)
    → queue_key org_id (codes "completed") id
      ≡ safe_path_segment org_id ++ (codes "/queue/completed/" ++ safe_path_segment (json_file id))
unfolding queue_key
queue_key-completed org_id [] = refl
queue_key-completed org_id (c ∷ id) = refl

pub processing-ne-completed :
    (org_id id id' : Text)
    → text_eq (queue_key org_id (codes "processing") id) (queue_key org_id (codes "completed") id')
      ≡ false
processing-ne-completed org_id id id' =
    rw
      (
        queue_key-processing org_id id,
        queue_key-completed org_id id',
        text_eq-common (safe_path_segment org_id),
      )
      (unfold text_eq in refl)

completed-not-pending :
    (org_id id : Text)
    → starts_with (queue_key org_id (codes "completed") id) (pending_folder org_id) ≡ false
completed-not-pending org_id id =
    rw
      (
        queue_key-completed org_id id,
        org_prefix-pending org_id,
        starts_with-common (safe_path_segment org_id),
      )
      (unfold starts_with in refl)

pub completed-ne-pending :
    (org_id j id : Text)
    → starts_with j (pending_folder org_id) ≡ true
    → text_eq (queue_key org_id (codes "completed") id) j ≡ false
completed-ne-pending org_id j id h = ground (
  arith,
  text_eq_iff (queue_key org_id (codes "completed") id) j,
  completed-not-pending org_id id,
)
