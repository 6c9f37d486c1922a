-- ===== src/Services/IncidentQueue/Orgs/Found.antt =====
-- Which organisations the workers poll (services/incident_queue.py, `list_pending_org_ids`).
use open_devops_agent.Prelude.{
  Bool, false, ap₂, ap, ◌∙◌, if◌then◌else◌, ◌&&◌, and-true, ◌≡◌, refl, ◌↔◌, ◌⊎◌, inl, inr, true,
  Option, none, some, List, [], ◌∷◌, ◌++◌, In, arith, Bool-cases,
}
use open_devops_agent.Text.{Text, codes, text_mem, text_eq, split_on}
use open_devops_agent.Text.Laws.{text_eq_iff, eq_of_text_eq}
use open_devops_agent.Environ.{Environ, getenv, comma_list}
use open_devops_agent.Storage.Memory
use open_devops_agent.Storage.Program.{World, ok, run}
use open_devops_agent.Services.IncidentQueue.Entry.{Entry}
use open_devops_agent.Services.IncidentQueue.Orgs.{
  add_org, add_orgs, queued_org, add_found, discover_orgs, list_pending_org_ids,
}

In-text_mem : (a : Text) (orgs : List Text) → text_mem a orgs ≡ true → In a orgs
unfolding text_mem
In-text_mem a [] h = cc
In-text_mem a (org ∷ orgs) h = ground (arith, In-text_mem a orgs, text_eq_iff a org)

In-snoc : (a org : Text) (orgs : List Text) → In a (orgs ++ org ∷ []) ↔ (In a orgs ⊎ (a ≡ org))
In-snoc a org [] = (
  λ h. elim h [ inl e ↦ inr e | inr n ↦ absurd n ],
  λ h. elim h [ inl n ↦ absurd n | inr e ↦ inl e ],
)
In-snoc a org (o ∷ orgs) =
    (λ h. ground (arith, In-snoc a org orgs), λ h. ground (arith, In-snoc a org orgs))

In-add_org : (a org : Text) (orgs : List Text) → In a (add_org orgs org) ↔ (In a orgs ⊎ (a ≡ org))
unfolding add_org
In-add_org a org orgs = elim (Bool-cases (text_mem org orgs)) [
  | inl there ↦
      rw there (λ h. inl h, λ h. elim h [ inl i ↦ i | inr e ↦ rw e (In-text_mem org orgs there) ])
  | inr new ↦ rw new (In-snoc a org orgs)
]

In-add_orgs :
    (a : Text) (orgs more : List Text) → In a (add_orgs orgs more) ↔ (In a orgs ⊎ In a more)
unfolding add_orgs
In-add_orgs a orgs [] = (λ h. inl h, λ h. elim h [ inl i ↦ i | inr n ↦ absurd n ])
In-add_orgs a orgs (org ∷ more) = (
  λ h. ground (arith, In-add_orgs a (add_org orgs org) more, In-add_org a org orgs),
  λ h. ground (arith, In-add_orgs a (add_org orgs org) more, In-add_org a org orgs),
)

-- A key of the form `org/queue/pending/name`, or `processing`, perhaps with more below it.
abbrev pub IsQueueKey : Text → Text → Type 0
IsQueueKey a key =
    (status : Text) × (name : Text) × (more : List Text) × (split_on b'/' key
      ≡ a ∷ codes "queue" ∷ status ∷ name ∷ more)
    × ((status ≡ codes "pending") ⊎ (status ≡ codes "processing"))

-- One of the keys is a pending or processing key of the organisation's queue.
abbrev pub IsQueued : Text → List Text → Type 0
IsQueued a [] = ⊥
IsQueued a (key ∷ keys) = IsQueueKey a key ⊎ IsQueued a keys

abbrev waiting : List Text
waiting = codes "pending" ∷ codes "processing" ∷ []

chosen_one :
    {a org : Text} (b : Bool) → (if b then some org else none) ≡ some a → (b ≡ true) × (org ≡ a)
chosen_one true h = (refl, cc)
chosen_one false h = absurd (cc)

queued_org-parts :
    (a : Text) (parts : List Text)
    → queued_org parts ≡ some a
    → (status : Text) × (name : Text) × (more : List Text) × (parts
        ≡ a ∷ codes "queue" ∷ status ∷ name ∷ more)
      × ((status ≡ codes "pending") ⊎ (status ≡ codes "processing"))
queued_org-parts a [] h = absurd (cc)
queued_org-parts a (org ∷ []) h = absurd (cc)
queued_org-parts a (org ∷ folder ∷ []) h = absurd (cc)
queued_org-parts a (org ∷ folder ∷ status ∷ []) h = absurd (cc)
queued_org-parts a (org ∷ folder ∷ status ∷ name ∷ more) h =
    let (both, same) = chosen_one (text_eq folder (codes "queue") && text_mem status waiting) h in
    let (queue, listed) = and-true (text_eq folder (codes "queue")) _ both in
    (
      status,
      name,
      more,
      ap₂ (λ o f. o ∷ f ∷ status ∷ name ∷ more) same (eq_of_text_eq folder (codes "queue") queue),
      elim (In-text_mem status waiting listed) [
        | inl e1 ↦ inl e1
        | inr (inl e2) ↦ inr e2
        | inr (inr n) ↦ absurd n
      ],
    )

parts-queued_org :
    (a status name : Text) (more : List Text)
    → (status ≡ codes "pending") ⊎ (status ≡ codes "processing")
    → queued_org (a ∷ codes "queue" ∷ status ∷ name ∷ more) ≡ some a
unfolding text_eq text_mem
parts-queued_org a status name more (inl e) = rw e refl
parts-queued_org a status name more (inr e) = rw e refl

queued_org-IsQueueKey :
    (a key : Text) → (queued_org (split_on b'/' key) ≡ some a) ↔ IsQueueKey a key
queued_org-IsQueueKey a key = (
  queued_org-parts a (split_on b'/' key),
  λ h.
      let (status, name, more, e, which) = h in
      ap queued_org e ∙ parts-queued_org a status name more which,
)

In-add_found :
    (a : Text) (orgs : List Text) (found : Option Text)
    → In a (add_found orgs found) ↔ (In a orgs ⊎ (found ≡ some a))
In-add_found a orgs none = (λ h. inl h, λ h. elim h [ inl i ↦ i | inr e ↦ absurd (cc) ])
In-add_found a orgs (some org) = (
  λ h. elim ((In-add_org a org orgs).0 h) [ inl i ↦ inl i | inr e ↦ inr (rw e) ],
  λ h. (In-add_org a org orgs).1 (elim h [ inl i ↦ inl i | inr e ↦ inr (cc) ]),
)

In-discover_orgs :
    (a : Text) (orgs keys : List Text)
    → In a (discover_orgs orgs keys) ↔ (In a orgs ⊎ IsQueued a keys)
unfolding discover_orgs
In-discover_orgs a orgs [] = (λ h. inl h, λ h. elim h [ inl i ↦ i | inr n ↦ absurd n ])
In-discover_orgs a orgs (key ∷ keys) =
    let found = queued_org (split_on b'/' key) in
    let rest = In-discover_orgs a (add_found orgs found) keys in
    let one = In-add_found a orgs found in
    (
      λ h. elim (rest.0 h) [
        | inl i ↦ elim (one.0 i) [
          | inl j ↦ inl j
          | inr e ↦ inr (inl ((queued_org-IsQueueKey a key).0 e))
        ]
        | inr q ↦ inr (inr q)
      ],
      elim [
        | inl i ↦ rest.1 (inl (one.1 (inl i)))
        | inr (inl e) ↦ rest.1 (inl (one.1 (inr ((queued_org-IsQueueKey a key).1 e))))
        | inr (inr q) ↦ rest.1 (inr q)
      ],
    )

-- The organisations to poll are ORG_ID, those listed in ORG_IDS, and every organisation that has a
-- pending or processing key in the store, and no other.
pub In-list_pending_org_ids :
    (env : Environ) (w : World Entry)
    → (orgs : List Text) × ((run (list_pending_org_ids env) w).0 ≡ ok orgs)
      × ((a : Text)
          → In a orgs ↔ (
              ((a ≡ getenv (codes "ORG_ID") (codes "default") env)
                ⊎ In a (comma_list (getenv (codes "ORG_IDS") [] env)))
              ⊎ IsQueued a (Memory.list_keys [] w.objects)))
unfolding list_pending_org_ids run
In-list_pending_org_ids env w =
    let own = getenv (codes "ORG_ID") (codes "default") env ∷ [] in
    let more = comma_list (getenv (codes "ORG_IDS") [] env) in
    (
      discover_orgs (add_orgs own more) (Memory.list_keys [] w.objects),
      refl,
      λ a.
          let found = In-discover_orgs a (add_orgs own more) (Memory.list_keys [] w.objects) in
          let configured = In-add_orgs a own more in
          (
            λ h. elim (found.0 h) [
              | inl i ↦ elim (configured.0 i) [
                | inl (inl e) ↦ inl (inl e)
                | inl (inr n) ↦ absurd n
                | inr j ↦ inl (inr j)
              ]
              | inr q ↦ inr q
            ],
            elim [
              | inl (inl e) ↦ found.1 (inl (configured.1 (inl (inl e))))
              | inl (inr j) ↦ found.1 (inl (configured.1 (inr j)))
              | inr q ↦ found.1 (inr q)
            ],
          ),
    )
