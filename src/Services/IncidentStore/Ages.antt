-- ===== src/Services/IncidentStore/Ages.antt =====
-- Which objects are too young for `apply_retention` of services/incident_store.py.
use open_devops_agent.Prelude.{
  ℕ, ◌≤◌, ◌≡◌, refl, ◌∙◌, ap, ap₂, true, false, ◌&&◌, Option, none, some, ◌∷◌, arith, ltb,
  if◌then◌else◌,
}
use open_devops_agent.Text.{Text, codes, text_eq}
use open_devops_agent.Json.{Json, string, object, Fields, truthy, get_field, value_of}
use open_devops_agent.Storage.Program.{Program, done}
use open_devops_agent.Services.IncidentStore.{date_of, when_expired}
use open_devops_agent.Services.IncidentStore.Expire.{is_owned, is_present, entry_field, ended_name}
use open_devops_agent.Services.IncidentStore.Dates.{
  Age, timed, ageless, month_dated, no_month, month_from, path_year_month, payload_timestamp,
  payload_date, retention_date, or_payload,
}

module _ (parse_iso : Text → Option ℕ) (month_start : ℕ → ℕ → ℕ) (first_of_month : ℕ → ℕ) where
  -- The key names no month and the object no time; or the object's time is not before the cutoff; or
  -- the key's month begins no earlier than the first of the cutoff's month.
  pub data IsYoung (cutoff : ℕ) (category key : Text) (payload : Option Json) : Type 0 where
    timeless :
        path_year_month parse_iso month_start key category ≡ no_month
        → payload_timestamp parse_iso month_start payload ≡ none
        → IsYoung cutoff category key payload
    since :
        (t : ℕ)
        → path_year_month parse_iso month_start key category ≡ no_month
        → payload_timestamp parse_iso month_start payload ≡ some t
        → cutoff ≤ t
        → IsYoung cutoff category key payload
    in_month :
        (t : ℕ)
        → path_year_month parse_iso month_start key category ≡ month_from t
        → first_of_month cutoff ≤ t
        → IsYoung cutoff category key payload

  -- The attempt completed or failed, at a time that is not before the cutoff.
  pub data EndedAfter (cutoff : ℕ) (terminal : Fields) : Type 0 where
    completed_at :
        (c : ℕ) (iso : Text) (t : ℕ)
        → get_field (codes "status") terminal ≡ some (string (codes "completed"))
        → get_field (codes "completed_at") terminal ≡ some (string (c ∷ iso))
        → parse_iso (c ∷ iso) ≡ some t
        → cutoff ≤ t
        → EndedAfter cutoff terminal
    failed_at :
        (c : ℕ) (iso : Text) (t : ℕ)
        → get_field (codes "status") terminal ≡ some (string (codes "failed"))
        → get_field (codes "failed_at") terminal ≡ some (string (c ∷ iso))
        → parse_iso (c ∷ iso) ≡ some t
        → cutoff ≤ t
        → EndedAfter cutoff terminal

  ltb-false : (a b : ℕ) → b ≤ a → ltb a b ≡ false
  ltb-false a b h = ground arith

  -- Whatever would be done with the object, it is not.
  abbrev pub IsSpared : ℕ → Age → Type 0
  IsSpared cutoff age =
      (p : Program Json ℕ) → when_expired parse_iso month_start first_of_month cutoff age p ≡ done 0

  timed-IsSpared : (cutoff t : ℕ) → cutoff ≤ t → IsSpared cutoff (timed t)
  timed-IsSpared cutoff t h p = ap (λ b. if b then p else done 0) (ltb-false t cutoff h)

  month_dated-IsSpared :
      (cutoff t : ℕ) → first_of_month cutoff ≤ t → IsSpared cutoff (month_dated t)
  month_dated-IsSpared cutoff t h p =
      ap (λ b. if b then p else done 0) (ltb-false t (first_of_month cutoff) h)

  IsSpared-same : (cutoff : ℕ) (a b : Age) → a ≡ b → IsSpared cutoff b → IsSpared cutoff a
  IsSpared-same cutoff a b e h p =
      ap (λ x. when_expired parse_iso month_start first_of_month cutoff x p) e ∙ h p

  retention_date-IsSpared :
      (cutoff : ℕ) (category key : Text) (payload : Option Json)
      → IsYoung cutoff category key payload
      → IsSpared cutoff (retention_date parse_iso month_start category key payload)
  unfolding retention_date
  retention_date-IsSpared cutoff category key payload (timeless e e') =
      IsSpared-same cutoff _ ageless (ap₂ (or_payload parse_iso month_start) e e') (λ p. refl)
  retention_date-IsSpared cutoff category key payload (since t e e' h) =
      IsSpared-same cutoff _ (timed t) (ap₂ (or_payload parse_iso month_start) e e')
        (timed-IsSpared cutoff t h)
  retention_date-IsSpared cutoff category key payload (in_month t e h) =
      IsSpared-same cutoff _ (month_dated t)
        (ap
          (λ x.
            or_payload parse_iso month_start x (payload_timestamp parse_iso month_start payload))
          e)
        (month_dated-IsSpared cutoff t h)

  pub IsYoung-IsSpared :
      (cutoff : ℕ) (category key : Text) (entry terminal payload : Option Json)
      → is_owned category ≡ false
      → IsYoung cutoff category key payload
      → IsSpared cutoff
          (date_of parse_iso month_start first_of_month category key entry terminal payload)
  unfolding date_of
  IsYoung-IsSpared cutoff category key entry terminal payload plain young =
      IsSpared-same cutoff _ (retention_date parse_iso month_start category key payload)
        (ap
          (λ b.
            if b && is_present terminal
            then elim (payload_date parse_iso month_start
                (entry_field (ended_name (entry_field (codes "status") terminal)) terminal)) [
                  | none ↦ ageless
                  | some t ↦ timed t
                ]
            else retention_date parse_iso month_start category key payload)
          plain)
        (retention_date-IsSpared cutoff category key payload young)

  -- The age that `date_of` finds in a terminal record.
  abbrev end_age : Fields → Age
  end_age fields =
      elim (payload_date parse_iso month_start
        (value_of (get_field (ended_name (value_of (get_field (codes "status") fields))) fields))) [
          | none ↦ ageless
          | some t ↦ timed t
        ]

  end_age-IsSpared :
      (cutoff : ℕ) (fields : Fields) → EndedAfter cutoff fields → IsSpared cutoff (end_age fields)
  unfolding text_eq payload_date
  end_age-IsSpared cutoff fields (completed_at c iso t status time parsed h) =
      IsSpared-same cutoff _ (timed t)
        (ap
            (λ s.
              elim (payload_date parse_iso month_start
                (value_of (get_field (ended_name (value_of s)) fields))) [
                  | none ↦ ageless
                  | some u ↦ timed u
                ])
            status
          ∙ ap
              (λ s. elim (payload_date parse_iso month_start (value_of s)) [
                | none ↦ ageless
                | some u ↦ timed u
              ])
              time
          ∙ ap (λ s. elim s [ none ↦ ageless | some u ↦ timed u ]) parsed)
        (timed-IsSpared cutoff t h)
  end_age-IsSpared cutoff fields (failed_at c iso t status time parsed h) =
      IsSpared-same cutoff _ (timed t)
        (ap
            (λ s.
              elim (payload_date parse_iso month_start
                (value_of (get_field (ended_name (value_of s)) fields))) [
                  | none ↦ ageless
                  | some u ↦ timed u
                ])
            status
          ∙ ap
              (λ s. elim (payload_date parse_iso month_start (value_of s)) [
                | none ↦ ageless
                | some u ↦ timed u
              ])
              time
          ∙ ap (λ s. elim s [ none ↦ ageless | some u ↦ timed u ]) parsed)
        (timed-IsSpared cutoff t h)

  pub EndedAfter-IsSpared :
      (cutoff : ℕ) (category key : Text) (entry payload : Option Json) (terminal : Fields)
      → is_owned category ≡ true
      → truthy (object terminal) ≡ true
      → EndedAfter cutoff terminal
      → IsSpared cutoff (
          date_of parse_iso month_start first_of_month category key entry
            (some (object terminal))
            payload)
  unfolding date_of
  EndedAfter-IsSpared cutoff category key entry payload terminal owned there ended =
      IsSpared-same cutoff _ (end_age terminal)
        (ap₂
          (λ a b.
            if a && b
            then end_age terminal
            else retention_date parse_iso month_start category key payload)
          owned there)
        (end_age-IsSpared cutoff terminal ended)
