-- ===== src/Services/IncidentStore/Live.antt =====
-- The entries of reviews that are pending or being processed, as `apply_retention` of
-- services/incident_store.py reads them.
use open_devops_agent.Prelude.{
  ◌≡◌, refl, ◌∙◌, ap, Bool, true, false, ◌||◌, ◌&&◌, Option, none, some, [], ◌∷◌, ◌++◌, inl, inr,
  ◌⊎◌, if◌then◌else◌,
}
use open_devops_agent.Text.{Text, codes, text_mem, text_eq, starts_with}
use open_devops_agent.Json.{
  Json, string, object, Fields, end, field, truthy, get_field, value_of, is_string,
}
use open_devops_agent.Storage.Memory
use open_devops_agent.Storage.Memory.{Objects}
use open_devops_agent.Storage.Keys.{org_prefix}
use open_devops_agent.Services.IncidentStore.Expire.{
  entry_categories, is_owned, is_failed_review, is_live, is_legacy,
}

-- The entry that retention looks at.
abbrev pub entry_in : Text → Text → Objects Json → Option Json
entry_in category key m = if text_mem category entry_categories then Memory.get key m else none

both_false : (a b c : Bool) → c ≡ false → (a && (b && c)) ≡ false
both_false false b c e = refl
both_false true false c e = refl
both_false true true c e = e

pub fields_there :
    (fields : Fields) (name : Text) (v : Json)
    → get_field name fields ≡ some v
    → truthy (object fields) ≡ true
unfolding get_field truthy
fields_there end name v e = absurd (cc)
fields_there (field k w fs) name v e = refl

-- The entry of a queued key, as the rest of its record reads it.
abbrev pub Going : Fields → Type 0
Going fields =
    (get_field (codes "status") fields ≡ some (string (codes "pending")))
    ⊎ (get_field (codes "status") fields ≡ some (string (codes "processing")))

not_failed :
    (fields : Fields)
    → Going fields
    → is_string (codes "failed") (value_of (get_field (codes "status") fields)) ≡ false
unfolding text_eq
not_failed fields (inl e) = ap (λ o. is_string (codes "failed") (value_of o)) e
not_failed fields (inr e) = ap (λ o. is_string (codes "failed") (value_of o)) e

is_string-Going :
    (fields : Fields)
    → Going fields
    → (is_string (codes "pending") (value_of (get_field (codes "status") fields))
        || is_string (codes "processing") (value_of (get_field (codes "status") fields)))
      ≡ true
unfolding text_eq
is_string-Going fields (inl e) =
    ap
      (λ o. is_string (codes "pending") (value_of o) || is_string (codes "processing") (value_of o))
      e
is_string-Going fields (inr e) =
    ap
      (λ o. is_string (codes "pending") (value_of o) || is_string (codes "processing") (value_of o))
      e

is_there : (fields : Fields) → Going fields → truthy (object fields) ≡ true
is_there fields (inl e) = fields_there fields (codes "status") _ e
is_there fields (inr e) = fields_there fields (codes "status") _ e

-- An entry of the queue that has not failed is not one of a failed review.
pub plain_queued :
    (category : Text) (m : Objects Json) (key : Text) (fields : Fields)
    → is_string (codes "failed") (value_of (get_field (codes "status") fields)) ≡ false
    → category ≡ codes "queue"
    → Memory.get key m ≡ some (object fields)
    → (is_owned category || is_failed_review category (entry_in category key m)) ≡ false
unfolding text_eq text_mem
plain_queued category m key fields other queued found =
    ap (λ c. is_owned c || is_failed_review c (entry_in c key m)) queued
    ∙ ap (λ e. is_owned (codes "queue") || is_failed_review (codes "queue") e) found
    ∙ both_false (truthy (object fields))
        (truthy (value_of (get_field (codes "review_key") fields)))
        (is_string (codes "failed") (value_of (get_field (codes "status") fields))) other

pub live-plain :
    (category : Text) (m : Objects Json) (key : Text) (fields : Fields)
    → Going fields
    → category ≡ codes "queue"
    → Memory.get key m ≡ some (object fields)
    → (is_owned category || is_failed_review category (entry_in category key m)) ≡ false
live-plain category m key fields going queued found =
    plain_queued category m key fields (not_failed fields going) queued found

all_true :
    (a l r g : Bool) → a ≡ true → (l ≡ true) ⊎ (r ≡ true) → g ≡ true → (a && ((l || r) && g)) ≡ true
all_true true true r true e k h = refl
all_true true false true true e k h = refl
all_true true false false true e (inl k) h = absurd (cc)
all_true true false false true e (inr k) h = absurd (cc)
all_true true l r false e k h = absurd (cc)
all_true false l r g e k h = absurd (cc)

pub live-is_live :
    (category : Text) (m : Objects Json) (org_id key : Text) (fields : Fields)
    → (starts_with key (org_prefix org_id (codes "queue" ∷ codes "reviews" ∷ []) ++ b'/' ∷ [])
        ≡ true)
      ⊎ (truthy (value_of (get_field (codes "review_key") fields)) ≡ true)
    → Going fields
    → category ≡ codes "queue"
    → Memory.get key m ≡ some (object fields)
    → is_live (is_legacy org_id category key) (entry_in category key m) ≡ true
unfolding text_eq text_mem
live-is_live category m org_id key fields kind going queued found =
    ap (λ c. is_live (is_legacy org_id c key) (entry_in c key m)) queued
    ∙ ap (λ e. is_live (is_legacy org_id (codes "queue") key) e) found
    ∙ all_true (truthy (object fields)) _ _ _ (is_there fields going) kind
        (is_string-Going fields going)
