-- ===== src/Services/IncidentStore/Dates.antt =====
-- The dates of services/incident_store.py by which an object's age is told.
use open_devops_agent.Prelude.{
  ℕ, Bool, false, ◌&&◌, Option, none, some, List, [], ◌∷◌, if◌then◌else◌, leb,
}
use open_devops_agent.Text.{Text, words, text_eq, split_on}
use open_devops_agent.Environ.{python_int}
use open_devops_agent.Json.{Json, string, object, Fields, get_field, value_of}

abbrev retention_timestamp_fields : List Text
retention_timestamp_fields =
    words ("updated_at" ∷ "completed_at" ∷ "failed_at" ∷ "claimed_at" ∷ "created_at" ∷ [])

-- What stands after the first part that is the category.
unfoldable pub after_category : Text → List Text → Option (List Text)
after_category category [] = none
after_category category (p ∷ ps) =
    let rest = after_category category ps in if text_eq p category then some ps else rest

-- What `_path_year_month` answers: None, a month, or the error that `datetime` raises for a year that
-- has more than four digits.
pub data PathMonth : Type 0 where
  no_month : PathMonth
  month_from : ℕ → PathMonth
  no_such_year : PathMonth

-- The age of an object: unknown, from a time, from the start of a month, or the error.
pub data Age : Type 0 where
  ageless : Age
  timed : ℕ → Age
  month_dated : ℕ → Age
  undatable : Age

module _ (parse_iso : Text → Option ℕ) (month_start : ℕ → ℕ → ℕ) where
  -- A year that is no less than 1970, and a month of it.
  abbrev month_of : Option (Bool × ℕ) → Option (Bool × ℕ) → PathMonth
  month_of (some (false, year)) (some (false, month)) =
      if leb 1970 year && (leb 1 month && leb month 12)
      then if leb year 9999 then month_from (month_start year month) else no_such_year
      else no_month
  month_of _ _ = no_month

  abbrev year_month_of : Option (List Text) → PathMonth
  year_month_of (some (year ∷ month ∷ parts)) = month_of (python_int year) (python_int month)
  year_month_of _ = no_month

  -- _path_year_month
  unfoldable pub path_year_month : Text → Text → PathMonth
  unfolding split_on after_category python_int
  path_year_month key category = year_month_of (after_category category (split_on b'/' key))

  -- _parse_iso_datetime
  unfoldable pub payload_date : Json → Option ℕ
  payload_date (string []) = none
  payload_date (string (c ∷ s)) = parse_iso (c ∷ s)
  payload_date _ = none

  -- The first of the fields that holds a time.
  unfoldable pub first_date : List Text → Fields → Option ℕ
  first_date [] fields = none
  first_date (name ∷ names) fields = elim (payload_date (value_of (get_field name fields))) [
    | none ↦ first_date names fields
    | some t ↦ some t
  ]

  -- _payload_timestamp
  unfoldable pub payload_timestamp : Option Json → Option ℕ
  payload_timestamp (some (object fields)) = first_date retention_timestamp_fields fields
  payload_timestamp _ = none

  abbrev pub or_payload : PathMonth → Option ℕ → Age
  or_payload (month_from t) payload = month_dated t
  or_payload no_such_year payload = undatable
  or_payload no_month (some t) = timed t
  or_payload no_month none = ageless

  -- _object_retention_date
  unfoldable pub retention_date : Text → Text → Option Json → Age
  retention_date category key payload =
      or_payload (path_year_month key category) (payload_timestamp payload)
