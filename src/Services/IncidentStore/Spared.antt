-- ===== src/Services/IncidentStore/Spared.antt =====
-- Runs of `apply_retention` of services/incident_store.py on one key, by what is found of it.
use open_devops_agent.Prelude.{
  ℕ, ◌≡◌, refl, ◌∙◌, ap, Bool, true, false, Option, none, some, Bool-cases, inl, inr, ◌⊎◌,
  if◌then◌else◌,
}
use open_devops_agent.Text.{Text, codes, text_mem}
use open_devops_agent.Json.{Json, string, object, Fields, truthy, get_field}
use open_devops_agent.Storage.Memory
use open_devops_agent.Storage.Memory.{Objects}
use open_devops_agent.Storage.Keys.{review_release_key}
use open_devops_agent.Storage.Program.{Program, done, ◌>>=◌, World, ok, run}
use open_devops_agent.Services.IncidentStore.{
  date_of, after_name, dated, fenced, chosen, of_entry, retain_key,
}
use open_devops_agent.Services.IncidentStore.Live.{entry_in, fields_there}
use open_devops_agent.Services.IncidentStore.Attempts.{
  IsOwned, IsFailed, entry_of_attempt, attempt-of_attempt,
}
use open_devops_agent.Services.IncidentStore.Ages.{EndedAfter, completed_at, failed_at, IsSpared}
use open_devops_agent.Services.IncidentStore.Expire.{entry_categories, is_present, expire, text_of}

module _ (parse_iso : Text → Option ℕ) (month_start : ℕ → ℕ → ℕ) (first_of_month : ℕ → ℕ) where
  pub run-retain_key :
      (cutoff : ℕ) (org_id category key : Text) (w : World Json)
      → run (retain_key parse_iso month_start first_of_month cutoff org_id category key) w
        ≡ run
            (of_entry parse_iso month_start first_of_month cutoff org_id category key
              (entry_in category key w.objects))
            w
  unfolding retain_key run
  run-retain_key cutoff org_id category key w =
      elim (Bool-cases (text_mem category entry_categories)) [
        | inl stored ↦ rw stored refl
        | inr other ↦ rw other refl
      ]

  pub run-dated :
      (cutoff : ℕ) (org_id category key : Text) (entry terminal : Option Json) (w : World Json)
      → IsSpared parse_iso month_start first_of_month cutoff (
          date_of parse_iso month_start first_of_month category key entry terminal
            (Memory.get key w.objects))
      → run (dated parse_iso month_start first_of_month cutoff org_id category key entry terminal) w
        ≡ (ok 0, w)
  unfolding run
  run-dated cutoff org_id category key entry terminal w spared =
      ap (λ p. run p w) (spared (expire org_id category key entry terminal))

  run-fenced :
      (cutoff : ℕ) (org_id category key incident_id : Text) (fields : Fields) (w : World Json)
      → get_field (codes "incident_id") fields ≡ some (string incident_id)
      → (Memory.get (review_release_key org_id incident_id) w.objects ≡ none)
        ⊎ IsSpared parse_iso month_start first_of_month cutoff (
            date_of parse_iso month_start first_of_month category key
              (some (object fields))
              (Memory.get (review_release_key org_id incident_id) w.objects)
              (Memory.get key w.objects))
      → run
          (fenced parse_iso month_start first_of_month cutoff org_id category key
            (some (object fields)))
          w
        ≡ (ok 0, w)
  unfolding run
  run-fenced cutoff org_id category key incident_id fields w named reason =
      ap
        (λ f.
          run
            (text_of f
              >>= after_name parse_iso month_start first_of_month cutoff org_id category key
                  (some (object fields)))
            w)
        named
      ∙ by_end (Memory.get (review_release_key org_id incident_id) w.objects) reason
    where
      by_presence :
          (there : Bool) (p : Program Json ℕ)
          → run p w ≡ (ok 0, w)
          → run (if there then p else done 0) w ≡ (ok 0, w)
      by_presence true p h = h
      by_presence false p h = refl

      by_end :
          (terminal : Option Json)
          → (terminal ≡ none)
            ⊎ IsSpared parse_iso month_start first_of_month cutoff (
                date_of parse_iso month_start first_of_month category key
                  (some (object fields))
                  terminal
                  (Memory.get key w.objects))
          → run
              (if is_present terminal
                then dated parse_iso month_start first_of_month cutoff org_id category key
                    (some (object fields))
                    terminal
                else done 0)
              w
            ≡ (ok 0, w)
      by_end terminal (inl e) =
          ap
            (λ o.
              run
                (if is_present o
                  then dated parse_iso month_start first_of_month cutoff org_id category key
                      (some (object fields)) o
                  else done 0)
                w)
            e
      by_end terminal (inr spared) =
          by_presence (is_present terminal) _
            (run-dated cutoff org_id category key (some (object fields)) terminal w spared)

  pub EndedAfter-there :
      (cutoff : ℕ) (terminal : Fields)
      → EndedAfter parse_iso month_start first_of_month cutoff terminal
      → truthy (object terminal) ≡ true
  EndedAfter-there cutoff terminal (completed_at c iso t status time parsed h) =
      fields_there terminal _ _ status
  EndedAfter-there cutoff terminal (failed_at c iso t status time parsed h) =
      fields_there terminal _ _ status

  choice_ended :
      (a p l : Bool) (x y : Program Json ℕ)
      → a ≡ true
      → p ≡ true
      → chosen parse_iso month_start first_of_month a p l x y ≡ x
  choice_ended true true l x y e e' = refl
  choice_ended true false l x y e e' = absurd (cc)
  choice_ended false p l x y e e' = absurd (cc)

  pub choice_live :
      (a p l : Bool) (x y : Program Json ℕ)
      → a ≡ false
      → l ≡ true
      → chosen parse_iso month_start first_of_month a p l x y ≡ done 0
  choice_live false p true x y e e' = refl
  choice_live false p false x y e e' = absurd (cc)
  choice_live true p l x y e e' = absurd (cc)

  pub choice_dated :
      (a p l : Bool) (x y : Program Json ℕ) (w : World Json)
      → a ≡ false
      → run y w ≡ (ok 0, w)
      → run (chosen parse_iso month_start first_of_month a p l x y) w ≡ (ok 0, w)
  unfolding run
  choice_dated false p true x y w e same = refl
  choice_dated false p false x y w e same = same
  choice_dated true p l x y w e same = absurd (cc)

  -- The objects of an attempt are looked at by its end.
  pub run-attempt :
      (cutoff : ℕ) (org_id category key incident_id : Text) (fields : Fields) (w : World Json)
      → IsOwned category ⊎ IsFailed category fields
      → Memory.get key w.objects ≡ some (object fields)
      → get_field (codes "incident_id") fields ≡ some (string incident_id)
      → (Memory.get (review_release_key org_id incident_id) w.objects ≡ none)
        ⊎ IsSpared parse_iso month_start first_of_month cutoff (
            date_of parse_iso month_start first_of_month category key
              (some (object fields))
              (Memory.get (review_release_key org_id incident_id) w.objects)
              (Memory.get key w.objects))
      → run
          (of_entry parse_iso month_start first_of_month cutoff org_id category key
            (entry_in category key w.objects))
          w
        ≡ (ok 0, w)
  unfolding run
  run-attempt cutoff org_id category key incident_id fields w which found named reason =
      let entry = entry_of_attempt category key fields w.objects which found in
      let there = fields_there fields (codes "incident_id") (string incident_id) named in
      ap (λ p. run p w)
        (choice_ended _ _ _ _ _ (attempt-of_attempt category key fields w.objects which found there)
          (ap is_present entry ∙ there))
      ∙ ap (λ e. run (fenced parse_iso month_start first_of_month cutoff org_id category key e) w)
          entry
      ∙ run-fenced cutoff org_id category key incident_id fields w named reason
