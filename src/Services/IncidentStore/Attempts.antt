-- ===== src/Services/IncidentStore/Attempts.antt =====
-- The objects of an attempt at a review, as `apply_retention` of services/incident_store.py tells
-- them from others.
use open_devops_agent.Prelude.{
  ◌≡◌, refl, sym, ◌∙◌, ap, Bool, true, false, ◌||◌, ◌&&◌, Option, none, some, [], ◌∷◌, inl, inr,
  ◌⊎◌, In,
}
use open_devops_agent.Text.{Text, codes, words, text_mem, text_eq}
use open_devops_agent.Text.Laws.{text_eq-false}
use open_devops_agent.Json.{
  Json, null, boolean, number, array, string, object, Fields, truthy, get_field, value_of,
  is_string,
}
use open_devops_agent.Storage.Memory
use open_devops_agent.Storage.Memory.{Objects}
use open_devops_agent.Services.IncidentStore.Live.{entry_in, plain_queued}
use open_devops_agent.Services.IncidentStore.Expire.{is_owned, is_failed_review}

-- An index or a claim of an attempt.
abbrev pub IsOwned : Text → Type 0
IsOwned category = (category ≡ codes "review_dedupe") ⊎ (category ≡ codes "review_claims")

-- An entry of the queue that is a review which failed.
abbrev pub IsFailed : Text → Fields → Type 0
IsFailed category fields =
    (category ≡ codes "queue")
    × ((truthy (value_of (get_field (codes "review_key") fields)) ≡ true)
        × (get_field (codes "status") fields ≡ some (string (codes "failed"))))

-- The categories whose objects belong to no review.
abbrev pub IsApart : Text → Type 0
IsApart category = In category (words ("audit" ∷ "logs" ∷ "checkpoints" ∷ "alert_dedupe" ∷ []))

-- Whether the code takes a key for one of an attempt.
abbrev pub of_attempt : Text → Text → Objects Json → Bool
of_attempt category key m = is_owned category || is_failed_review category (entry_in category key m)

pub IsOwned-is_owned : (category : Text) → IsOwned category → is_owned category ≡ true
unfolding text_mem text_eq
IsOwned-is_owned category (inl e) = ap is_owned e
IsOwned-is_owned category (inr e) = ap is_owned e

entry_in-IsOwned :
    (category key : Text) (m : Objects Json)
    → IsOwned category
    → entry_in category key m ≡ Memory.get key m
unfolding text_mem text_eq
entry_in-IsOwned category key m (inl e) = ap (λ c. entry_in c key m) e
entry_in-IsOwned category key m (inr e) = ap (λ c. entry_in c key m) e

pub entry_in-queue :
    (category key : Text) (m : Objects Json)
    → category ≡ codes "queue"
    → entry_in category key m ≡ Memory.get key m
unfolding text_mem text_eq
entry_in-queue category key m e = ap (λ c. entry_in c key m) e

pub queue-is_owned : (category : Text) → category ≡ codes "queue" → is_owned category ≡ false
unfolding text_mem text_eq
queue-is_owned category e = ap is_owned e

all_three : (a b c : Bool) → a ≡ true → b ≡ true → c ≡ true → (a && (b && c)) ≡ true
all_three true true true e f g = refl
all_three true true false e f g = absurd (cc)
all_three true false c e f g = absurd (cc)
all_three false b c e f g = absurd (cc)

or_true : (a b : Bool) → b ≡ true → (a || b) ≡ true
or_true true b e = refl
or_true false b e = e

is_string_self :
    (o : Option Json)
    → o ≡ some (string (codes "failed"))
    → is_string (codes "failed") (value_of o) ≡ true
unfolding text_eq
is_string_self o e = ap (λ x. is_string (codes "failed") (value_of x)) e

IsFailed-is_failed_review :
    (category : Text) (fields : Fields)
    → IsFailed category fields
    → truthy (object fields) ≡ true
    → is_failed_review category (some (object fields)) ≡ true
unfolding text_eq
IsFailed-is_failed_review category fields (queue, (keyed, failed)) there =
    ap (λ c. is_failed_review c (some (object fields))) queue
    ∙ all_three (truthy (object fields)) (truthy (value_of (get_field (codes "review_key") fields)))
        (is_string (codes "failed") (value_of (get_field (codes "status") fields))) there keyed
        (is_string_self _ failed)

pub entry_of_attempt :
    (category key : Text) (fields : Fields) (m : Objects Json)
    → IsOwned category ⊎ IsFailed category fields
    → Memory.get key m ≡ some (object fields)
    → entry_in category key m ≡ some (object fields)
entry_of_attempt category key fields m (inl owned) found =
    entry_in-IsOwned category key m owned ∙ found
entry_of_attempt category key fields m (inr failed) found =
    entry_in-queue category key m failed.0 ∙ found

pub attempt-of_attempt :
    (category key : Text) (fields : Fields) (m : Objects Json)
    → IsOwned category ⊎ IsFailed category fields
    → Memory.get key m ≡ some (object fields)
    → truthy (object fields) ≡ true
    → of_attempt category key m ≡ true
attempt-of_attempt category key fields m (inl owned) found there =
    ap (λ b. b || is_failed_review category (entry_in category key m))
      (IsOwned-is_owned category owned)
attempt-of_attempt category key fields m (inr failed) found there = or_true (is_owned category) _ (
    ap (is_failed_review category) (entry_of_attempt category key fields m (inr failed) found)
    ∙ IsFailed-is_failed_review category fields failed there)

pub IsApart-is_owned : (category : Text) → IsApart category → is_owned category ≡ false
unfolding text_mem text_eq
IsApart-is_owned category (inl e) = ap is_owned e
IsApart-is_owned category (inr (inl e)) = ap is_owned e
IsApart-is_owned category (inr (inr (inl e))) = ap is_owned e
IsApart-is_owned category (inr (inr (inr (inl e)))) = ap is_owned e
IsApart-is_owned category (inr (inr (inr (inr n)))) = absurd n

pub IsApart-of_attempt :
    (category key : Text) (m : Objects Json) → IsApart category → of_attempt category key m ≡ false
unfolding text_mem text_eq
IsApart-of_attempt category key m (inl e) = ap (λ c. of_attempt c key m) e
IsApart-of_attempt category key m (inr (inl e)) = ap (λ c. of_attempt c key m) e
IsApart-of_attempt category key m (inr (inr (inl e))) = ap (λ c. of_attempt c key m) e
IsApart-of_attempt category key m (inr (inr (inr (inl e)))) = ap (λ c. of_attempt c key m) e
IsApart-of_attempt category key m (inr (inr (inr (inr n)))) = absurd n

is_string_other :
    (o : Option Json)
    → ¬ (o ≡ some (string (codes "failed")))
    → is_string (codes "failed") (value_of o) ≡ false
is_string_other none h = refl
is_string_other (some null) h = refl
is_string_other (some (boolean b)) h = refl
is_string_other (some (number z t)) h = refl
is_string_other (some (array items)) h = refl
is_string_other (some (object fields)) h = refl
is_string_other (some (string t)) h =
    text_eq-false (codes "failed") t (λ e. h (ap (λ s. some (string s)) (sym e)))

-- An entry of the queue that has not failed is not taken for one of an attempt.
pub queued-of_attempt :
    (category key : Text) (fields : Fields) (m : Objects Json)
    → category ≡ codes "queue"
    → Memory.get key m ≡ some (object fields)
    → ¬ (get_field (codes "status") fields ≡ some (string (codes "failed")))
    → of_attempt category key m ≡ false
queued-of_attempt category key fields m queued found other =
    plain_queued category m key fields (is_string_other _ other) queued found
