-- ===== src/Examples/Queue.antt =====
-- Runs of the queue: two workers, and incidents of both kinds.
use open_devops_agent.Prelude.{
  ℕ, ◌+◌, ◌≡◌, refl, true, none, some, List, [], ◌∷◌, In, if◌then◌else◌, ◌⊎◌, ◌↔◌,
}
use open_devops_agent.Text.{Text, codes, text_eq, starts_with}
use open_devops_agent.Storage.Memory
use open_devops_agent.Storage.Keys.{queue_key, review_release_key, review_claim_key}
use open_devops_agent.Storage.Disjoint.{pending_folder}
use open_devops_agent.Storage.Program.{World, ok, run, done}
use open_devops_agent.Storage.Trace.Schedule.{play, Reach-play}
use open_devops_agent.Storage.Exclusive.{AtMostOne}
use open_devops_agent.Storage.Exclusive.Winners.{copies}
use open_devops_agent.Services.IncidentQueue.Entry.{
  Entry, pending, bare, pending_key, Summary, processing_key, completed_key, failed_key,
}
use open_devops_agent.Services.IncidentQueue.Claim.{claimed, claim_plain, claim_next}
use open_devops_agent.Services.IncidentQueue.Exclusive.{TakesReview, claim_next-AtMostOne}
use open_devops_agent.Services.IncidentQueue.Taken.{claim_plain-takes, get-claim_plain}
use open_devops_agent.Environ.{Environ, getenv, comma_list}
use open_devops_agent.Services.IncidentQueue.Finish.{mark_completed, mark_failed}
use open_devops_agent.Services.IncidentQueue.Ended.{
  completed_entry, failure_entry, get-mark_completed, get-mark_failed,
}
use open_devops_agent.Services.IncidentQueue.Orgs.{list_pending_org_ids}
use open_devops_agent.Services.IncidentQueue.Orgs.Found.{IsQueued, In-list_pending_org_ids}
use open_devops_agent.Services.IncidentQueue.Lifecycle.{after_claim, claim_plain-mark_completed}

abbrev pub acme : Text
acme = codes "acme"

abbrev disk_full : Entry
disk_full = record (bare (codes "INC-1") acme) { status = some pending; created_at = some 5 }

abbrev head_of_review : Text
head_of_review = codes "acme/review_dedupe/INC-2.json"

abbrev review : Entry
review = record (bare (codes "INC-2") acme) {
  status = some pending;
  review_key = some head_of_review;
}

abbrev disk_key : Text
disk_key = pending_key acme (codes "INC-1")

abbrev plain_store : World Entry
plain_store = record { objects = (disk_key, disk_full) ∷ []; clock = λ n. 100 + n; reads = 0 }

abbrev review_store : World Entry
review_store = record {
  objects = (pending_key acme (codes "INC-2"), review) ∷ (head_of_review, review) ∷ [];
  clock = λ n. 100 + n;
  reads = 0;
}

-- Two workers, turn about.
abbrev turn_about : List ℕ
turn_about = 0 ∷ 1 ∷ 0 ∷ 1 ∷ 0 ∷ 1 ∷ 0 ∷ 1 ∷ 0 ∷ 1 ∷ 0 ∷ 1 ∷ 0 ∷ 1 ∷ 0 ∷ 1 ∷ 0 ∷ 1 ∷ 0 ∷ 1 ∷ []

claim_next-AtMostOne_example :
    AtMostOne
      (TakesReview (codes "INC-2"))
      (play turn_about (copies 2 (claim_next acme)) review_store).0
claim_next-AtMostOne_example =
    claim_next-AtMostOne acme (codes "INC-2") 2 review_store.objects
      (play turn_about (copies 2 (claim_next acme)) review_store).0
      (play turn_about (copies 2 (claim_next acme)) review_store).1.objects
      (Reach-play turn_about (copies 2 (claim_next acme)) review_store)

claim_next-run : (run (claim_next acme) review_store).0 ≡ ok (some (claimed review 100))
unfolding claim_next run Memory.list_keys queue_key Memory.get Memory.exists review_release_key
    Memory.put_if_absent review_claim_key
claim_next-run = refl

-- Of the two workers the first gets the review.
claim_next-turn_about :
    (play turn_about (copies 2 (claim_next acme)) review_store).0
    ≡ done (some (claimed review 100)) ∷ done none ∷ []
unfolding claim_next play Memory.list_keys queue_key Memory.get Memory.exists review_release_key
    Memory.put_if_absent review_claim_key
claim_next-turn_about = refl

disk_key-listed : starts_with disk_key (pending_folder acme) ≡ true
unfolding queue_key starts_with
disk_key-listed = refl

claim_plain-takes_example :
    (run (claim_plain acme disk_key disk_full) plain_store).0 ≡ ok (some (claimed disk_full 100))
unfolding Memory.get Memory.exists queue_key
claim_plain-takes_example = claim_plain-takes acme disk_key disk_full plain_store disk_key-listed

get-claim_plain_example :
    Memory.get disk_key (run (claim_plain acme disk_key disk_full) plain_store).1.objects ≡ none
unfolding Memory.get Memory.exists queue_key text_eq
get-claim_plain_example =
    get-claim_plain acme disk_key disk_full plain_store disk_key disk_key-listed

abbrev processed : World Entry
processed = record {
  objects = (processing_key acme (codes "INC-1"), claimed disk_full 100) ∷ [];
  clock = λ n. 200 + n;
  reads = 0;
}

abbrev success : Summary
success = record { resolved = some true; steps = some 4 }

processed_found :
    Memory.get (processing_key acme (codes "INC-1")) processed.objects
    ≡ some (claimed disk_full 100)
unfolding Memory.get queue_key
processed_found = refl

get-mark_completed_example :
    ((run (mark_completed acme (codes "INC-1") success) processed).0 ≡ ok tt)
    × ((j : Text)
        → Memory.get j (run (mark_completed acme (codes "INC-1") success) processed).1.objects ≡ (
            if text_eq (processing_key acme (codes "INC-1")) j
            then none
            else if text_eq (completed_key acme (codes "INC-1")) j
            then some (completed_entry (claimed disk_full 100) processed success)
            else Memory.get j processed.objects))
get-mark_completed_example =
    get-mark_completed acme (codes "INC-1") (claimed disk_full 100) processed success
      processed_found refl

get-mark_failed_example :
    ((run (mark_failed acme (codes "INC-1") (codes "timeout")) processed).0 ≡ ok tt)
    × ((j : Text)
        → Memory.get j
            (run (mark_failed acme (codes "INC-1") (codes "timeout")) processed).1.objects
          ≡ (if text_eq (processing_key acme (codes "INC-1")) j
              then none
              else if text_eq (failed_key acme (codes "INC-1")) j
              then some (failure_entry (claimed disk_full 100) processed (codes "timeout"))
              else Memory.get j processed.objects))
get-mark_failed_example =
    get-mark_failed acme (codes "INC-1") (claimed disk_full 100) processed (codes "timeout")
      processed_found refl

abbrev two_orgs : Environ
two_orgs = (codes "ORG_IDS", codes "globex, initech") ∷ []

In-list_pending_org_ids_example :
    (orgs : List Text) × ((run (list_pending_org_ids two_orgs) plain_store).0 ≡ ok orgs)
    × ((a : Text)
        → In a orgs ↔ (
            ((a ≡ getenv (codes "ORG_ID") (codes "default") two_orgs)
              ⊎ In a (comma_list (getenv (codes "ORG_IDS") [] two_orgs)))
            ⊎ IsQueued a (Memory.list_keys [] plain_store.objects)))
In-list_pending_org_ids_example = In-list_pending_org_ids two_orgs plain_store

abbrev finished : World Entry
finished =
    (run (mark_completed acme (codes "INC-1") success)
      (after_claim acme disk_key disk_full plain_store)).1

claim_plain-mark_completed_example :
    (Memory.get disk_key finished.objects ≡ none)
    × (Memory.get (processing_key acme (codes "INC-1")) finished.objects ≡ none)
    × (Memory.get (completed_key acme (codes "INC-1")) finished.objects
        ≡ some (
            completed_entry
              (claimed disk_full 100)
              (after_claim acme disk_key disk_full plain_store)
              success))
unfolding Memory.get Memory.exists queue_key
claim_plain-mark_completed_example =
    claim_plain-mark_completed acme disk_key disk_full plain_store success disk_key-listed refl refl
