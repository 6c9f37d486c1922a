-- ===== src/Services/IncidentQueue/Ended.antt =====
-- The end of a plain incident (services/incident_queue.py, `mark_completed` and `mark_failed`).
use open_devops_agent.Prelude.{
  suc, ◌≡◌, refl, none, some, if◌then◌else◌, ◌∙◌, ap, Bool-cases, inl, inr,
}
use open_devops_agent.Text.{Text, text_eq}
use open_devops_agent.Storage.Memory
use open_devops_agent.Storage.Memory.{Objects}
use open_devops_agent.Storage.Memory.Laws.{get-put, get-delete}
use open_devops_agent.Storage.Program.{World, ok, run, run-bind}
use open_devops_agent.Services.IncidentQueue.Entry.{
  Entry, completed, failed, has_status, truthy, Summary, processing_key, completed_key, failed_key,
}
use open_devops_agent.Services.IncidentQueue.Finish.{
  get_processing, or_next, mark_completed, mark_failed,
}

-- A folder other than `processing` gets the entry, and the processing object goes.
abbrev pub moved : Text → Text → Entry → Objects Entry → Objects Entry
moved from to entry m = (Memory.delete from (Memory.put to entry m)).1

get-moved :
    (from to j : Text) (entry : Entry) (m : Objects Entry)
    → Memory.get j (moved from to entry m)
      ≡ (if text_eq from j then none else if text_eq to j then some entry else Memory.get j m)
get-moved from to j entry m =
    get-delete from j (Memory.put to entry m)
    ∙ ap (λ o. if text_eq from j then none else o) (get-put to j entry m)

abbrev pub completed_entry : Entry → World Entry → Summary → Entry
completed_entry entry w result = record entry {
  status = some completed;
  completed_at = some (w.clock w.reads);
  result_summary = some result;
}

abbrev pub new_failure : Entry → World Entry → Text → Entry
new_failure entry w error = record entry {
  status = some failed;
  failed_at = some (w.clock w.reads);
  error = some error;
}

abbrev pub failure_entry : Entry → World Entry → Text → Entry
failure_entry entry w error =
    if has_status failed entry.status then entry else new_failure entry w error

module _ (org_id id : Text) (entry : Entry) (w : World Entry) where
  get_processing-found :
      Memory.get (processing_key org_id id) w.objects ≡ some entry
      → run (get_processing org_id id) w ≡ (ok (some entry), w)
  unfolding get_processing run
  get_processing-found found = rw (found, or_next, run)

  mark_completed-moved :
      (result : Summary)
      → Memory.get (processing_key org_id id) w.objects ≡ some entry
      → truthy entry.review_key ≡ none
      → run (mark_completed org_id id result) w ≡ (
        ok tt,
        record w {
          objects =
              moved
                (processing_key org_id id)
                (completed_key org_id id)
                (completed_entry entry w result)
                w.objects;
          reads = suc w.reads;
        },
      )
  unfolding mark_completed run
  mark_completed-moved result found plain =
      run-bind (get_processing org_id id) _ w ∙ rw (get_processing-found found) (rw plain)

  -- Completing a plain incident that is processed moves it from the processing folder to the
  -- completed one, marked with the time and the result; every other object stays.
  pub get-mark_completed :
      (result : Summary)
      → Memory.get (processing_key org_id id) w.objects ≡ some entry
      → truthy entry.review_key ≡ none
      → ((run (mark_completed org_id id result) w).0 ≡ ok tt)
        × ((j : Text)
            → Memory.get j (run (mark_completed org_id id result) w).1.objects ≡ (
                if text_eq (processing_key org_id id) j
                then none
                else if text_eq (completed_key org_id id) j
                then some (completed_entry entry w result)
                else Memory.get j w.objects))
  get-mark_completed result found plain = rw (mark_completed-moved result found plain) (
    refl,
    λ j.
        get-moved (processing_key org_id id) (completed_key org_id id) j
          (completed_entry entry w result) w.objects,
  )

  -- Failing a plain incident that is processed moves it from the processing folder to the failed
  -- one, marked with the time and the error unless it has failed before; every other object stays.
  pub get-mark_failed :
      (error : Text)
      → Memory.get (processing_key org_id id) w.objects ≡ some entry
      → truthy entry.review_key ≡ none
      → ((run (mark_failed org_id id error) w).0 ≡ ok tt)
        × ((j : Text)
            → Memory.get j (run (mark_failed org_id id error) w).1.objects ≡ (
                if text_eq (processing_key org_id id) j
                then none
                else if text_eq (failed_key org_id id) j
                then some (failure_entry entry w error)
                else Memory.get j w.objects))
  unfolding mark_failed run
  get-mark_failed error found plain =
      let from = processing_key org_id id in
      let to = failed_key org_id id in
      rw (run-bind (get_processing org_id id) _ w, get_processing-found found)
        (rw plain (elim (Bool-cases (has_status failed entry.status)) [
          | inl before ↦ rw before (refl, λ j. get-moved from to j entry w.objects)
          | inr now ↦ rw now (refl, λ j. get-moved from to j (new_failure entry w error) w.objects)
        ]))
