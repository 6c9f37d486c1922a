-- ===== src/Services/IncidentQueue/Exclusive.antt =====
-- Workers that claim at once (services/incident_queue.py, `claim_next`).
use open_devops_agent.Prelude.{
  ℕ, ◌≡◌, refl, ap, sym, ◌∙◌, Bool, true, false, not, Option, none, some, List, [], ◌∷◌, map, All,
  if◌then◌else◌, Bool-cases, inl, inr,
}
use open_devops_agent.Text.{Text, text_eq, starts_with}
use open_devops_agent.Text.Laws.{text_eq_iff, text_eq_refl}
use open_devops_agent.Storage.Keys.{review_claim_key}
use open_devops_agent.Storage.Memory.{Objects}
use open_devops_agent.Storage.Program.{Outcome}
use open_devops_agent.Storage.Trace.{Reach}
use open_devops_agent.Storage.Exclusive.{by_creation, by_deletion, Contender, AtMostOne}
use open_devops_agent.Storage.Exclusive.Winners.{Reach-AtMostOne, copies, All-copies}
use open_devops_agent.Storage.Exclusive.Rules.{Contender-Holder, Contender-bind, Contender-if}
use open_devops_agent.Storage.Disjoint.{
  pending_folder, processing-ne-claim, pending-ne-claim, processing-ne-pending,
}
use open_devops_agent.Services.IncidentQueue.Entry.{
  Entry, pending, has_status, Queue, truthy, is_truthy,
}
use open_devops_agent.Services.IncidentQueue.Claim.{
  claimed, claim_canonical, claim_if_current, claim_review, claim_plain, claim_by_kind, claim_from,
  claim_keys, claim_next,
}

-- The answer is the review `id`, now the caller's.
abbrev pub TakesReview : Text → Option Entry → Type 0
TakesReview id none = ⊥
TakesReview id (some entry) = (entry.incident_id ≡ id) × (is_truthy entry.review_key ≡ true)

-- The answer is an incident, now the caller's.
abbrev pub Takes : Option Entry → Type 0
Takes none = ⊥
Takes (some entry) = Unit

module _ (org_id id : Text) where
  abbrev Contends : Queue (Option Entry) → Type 0
  Contends = Contender by_creation (review_claim_key org_id id) (TakesReview id)

  branch :
      (b : Bool) (p q : Queue (Option Entry))
      → Contends p
      → Contends q
      → Contends (if b then p else q)
  branch = Contender-if by_creation (review_claim_key org_id id) (TakesReview id)

  other_id :
      (incident_id : Text)
      → text_eq (review_claim_key org_id incident_id) (review_claim_key org_id id) ≡ false
      → ¬ (incident_id ≡ id)
  other_id incident_id other same = cc (
    other,
    text_eq_refl (review_claim_key org_id id),
    ap (λ j. text_eq (review_claim_key org_id j) (review_claim_key org_id id)) same,
  )

  claim_canonical-Contends :
      (key incident_id review_key : Text) (entry : Entry)
      → entry.incident_id ≡ incident_id
      → Contends (claim_canonical org_id key incident_id review_key entry)
  unfolding claim_canonical
  claim_canonical-Contends key incident_id review_key entry same =
      branch (not (has_status pending entry.status)) _ _ (λ x. x)
        λ t there.
          branch (not there) _ _ (λ x. x)
            (
              λ _. elim [ true ↦ tt | false ↦ (tt, tt) ],
              λ other. elim [
                | true ↦ λ x. x
                | false ↦ (tt, λ w. other_id incident_id other (sym same ∙ w.0))
              ],
              λ x. x,
              tt,
            )

  claim_if_current-Contends :
      (key incident_id review_key : Text) (found : Option Entry)
      → text_eq key (review_claim_key org_id id) ≡ false
      → Contends (claim_if_current org_id key incident_id review_key found)
  claim_if_current-Contends key incident_id review_key none apart = (apart, λ b x. x)
  claim_if_current-Contends key incident_id review_key (some entry) apart =
      elim (Bool-cases (text_eq entry.incident_id incident_id)) [
        | inl same ↦ rw same (
            claim_canonical-Contends key incident_id review_key entry
              ((text_eq_iff entry.incident_id incident_id).0 same))
        | inr other ↦ rw other (apart, λ b x. x)
      ]

  -- No review comes of an entry without a review key.
  not-review :
      (entry : Entry) (time : ℕ)
      → truthy entry.review_key ≡ none
      → ¬ TakesReview id (some (claimed entry time))
  not-review entry time plain (same, truth) = by_key entry.review_key plain truth
    where
      by_key : (key : Option Text) → truthy key ≡ none → is_truthy key ≡ true → ⊥
      by_key none e t = cc
      by_key (some []) e t = cc
      by_key (some (c ∷ s)) e t = cc

  claim_plain-Contends :
      (key : Text) (entry : Entry)
      → truthy entry.review_key ≡ none
      → text_eq key (review_claim_key org_id id) ≡ false
      → Contends (claim_plain org_id key entry)
  unfolding claim_plain
  claim_plain-Contends key entry plain apart =
      branch (not (has_status pending entry.status)) _ _ (λ x. x)
        λ t. (
          λ same. absurd (cc (same, processing-ne-claim org_id entry.incident_id id)),
          λ other. (
            apart,
            elim [
              | true ↦ not-review entry t plain
              | false ↦ (processing-ne-claim org_id entry.incident_id id, λ b x. x)
            ],
          ),
          λ x. x,
          tt,
        )

  claim_review-Contends :
      (key incident_id review_key : Text)
      → text_eq key (review_claim_key org_id id) ≡ false
      → Contends (claim_review org_id key incident_id review_key)
  unfolding claim_review
  claim_review-Contends key incident_id review_key apart = elim [
    | true ↦ (apart, λ b x. x)
    | false ↦ elim [
      | none ↦ λ found. claim_if_current-Contends key incident_id review_key found apart
      | some failure ↦ λ x. x
    ]
  ]

  claim_by_kind-Contends :
      (key : Text) (entry : Entry) (kind : Option Text)
      → truthy entry.review_key ≡ kind
      → text_eq key (review_claim_key org_id id) ≡ false
      → Contends (claim_by_kind org_id key entry kind)
  claim_by_kind-Contends key entry none e apart = claim_plain-Contends key entry e apart
  claim_by_kind-Contends key entry (some review_key) e apart =
      claim_review-Contends key entry.incident_id review_key apart

  claim_from-Contends :
      (key : Text)
      → starts_with key (pending_folder org_id) ≡ true
      → Contends (claim_from org_id key)
  unfolding claim_from
  claim_from-Contends key listed = elim [
    | none ↦ λ x. x
    | some entry ↦
        claim_by_kind-Contends key entry (truthy entry.review_key) refl
          (pending-ne-claim org_id key id listed)
  ]

  claim_keys-Contends :
      (keys : List Text)
      → All (λ key. starts_with key (pending_folder org_id) ≡ true) keys
      → Contends (claim_keys org_id keys)
  unfolding claim_keys
  claim_keys-Contends [] listed = λ x. x
  claim_keys-Contends (key ∷ keys) (listed, more) =
      let rest = claim_keys-Contends keys more in
      Contender-bind (review_claim_key org_id id) (TakesReview id) (TakesReview id) by_creation
        (claim_from org_id key) _ (claim_from-Contends key listed)
        (elim [ none ↦ Contender-Holder by_creation _ (TakesReview id) _ rest | some entry ↦ tt ])
        (elim [ none ↦ λ _. rest | some entry ↦ λ w. w ])

  claim_next-Contends : Contends (claim_next org_id)
  unfolding claim_next
  claim_next-Contends = claim_keys-Contends

-- Any number of workers call `claim_next` for one organisation at once, on any store, which nobody
-- else changes meanwhile. However their calls to the provider are interleaved, and whether or not
-- conditional writes raise, at most one of the workers gets the review `id`.
pub claim_next-AtMostOne :
    (org_id id : Text) (n : ℕ) (m : Objects Entry) (ps : List (Queue (Option Entry)))
    (m' : Objects Entry)
    → Reach (copies n (claim_next org_id)) m ps m'
    → AtMostOne (TakesReview id) ps
claim_next-AtMostOne org_id id n m ps m' r =
    Reach-AtMostOne by_creation (review_claim_key org_id id) (TakesReview id)
      (copies n (claim_next org_id)) m ps m' r (All-copies _ n _ (claim_next-Contends org_id id))

claim_plain-contends :
    (org_id key : Text) (entry : Entry)
    → starts_with key (pending_folder org_id) ≡ true
    → Contender by_deletion key Takes (claim_plain org_id key entry)
unfolding claim_plain
claim_plain-contends org_id key entry listed =
    Contender-if by_deletion key Takes (not (has_status pending entry.status)) _ _ (λ x. x)
      λ t. (
        processing-ne-pending org_id key entry.incident_id listed,
        elim [
          | Outcome.created ↦ (
            λ same. tt,
            λ other. absurd (cc (other, text_eq_refl key)),
            (λ same. tt, λ other x. x, λ x. x),
          )
          | Outcome.present ↦ λ x. x
          | Outcome.raised ↦ tt
        ],
      )

All-claim_plain :
    (org_id key : Text) (entries : List Entry)
    → starts_with key (pending_folder org_id) ≡ true
    → All (Contender by_deletion key Takes) (map (claim_plain org_id key) entries)
All-claim_plain org_id key [] listed = tt
All-claim_plain org_id key (entry ∷ entries) listed =
    (claim_plain-contends org_id key entry listed, All-claim_plain org_id key entries listed)

-- Any number of workers have each read some copy, however old, of what stood under one key of the
-- pending folder, and treat it as an incident that is no review; nobody else changes the store
-- meanwhile. However they go on, at most one of them takes an incident.
pub claim_plain-AtMostOne :
    (org_id key : Text) (entries : List Entry) (m : Objects Entry)
    (ps : List (Queue (Option Entry))) (m' : Objects Entry)
    → starts_with key (pending_folder org_id) ≡ true
    → Reach (map (claim_plain org_id key) entries) m ps m'
    → AtMostOne Takes ps
claim_plain-AtMostOne org_id key entries m ps m' listed r =
    Reach-AtMostOne by_deletion key Takes (map (claim_plain org_id key) entries) m ps m' r
      (All-claim_plain org_id key entries listed)
