-- ===== src/Services/IncidentQueue/Lifecycle.antt =====
-- The life of a plain incident (services/incident_queue.py): claimed, then completed.
use open_devops_agent.Prelude.{◌≡◌, true, none, some, arith, ◌∙◌}
use open_devops_agent.Text.{Text, starts_with}
use open_devops_agent.Text.Laws.{text_eq_refl, text_eq_iff}
use open_devops_agent.Storage.Memory
use open_devops_agent.Storage.Program.{World, run}
use open_devops_agent.Storage.Disjoint.{
  pending_folder, processing-ne-pending, completed-ne-pending, processing-ne-completed,
}
use open_devops_agent.Services.IncidentQueue.Entry.{
  Entry, Summary, truthy, processing_key, completed_key,
}
use open_devops_agent.Services.IncidentQueue.Claim.{claimed, claim_plain}
use open_devops_agent.Services.IncidentQueue.Finish.{mark_completed}
use open_devops_agent.Services.IncidentQueue.Taken.{can_take, get-claim_plain}
use open_devops_agent.Services.IncidentQueue.Ended.{completed_entry, get-mark_completed}

module _ (org_id key : Text) (entry : Entry) (w : World Entry) where
  -- The store after the claim.
  abbrev pub after_claim : World Entry
  after_claim = (run (claim_plain org_id key entry) w).1

  processing-claimed :
      starts_with key (pending_folder org_id) ≡ true
      → can_take org_id key entry w.objects ≡ true
      → Memory.get (processing_key org_id entry.incident_id) after_claim.objects
        ≡ some (claimed entry (w.clock w.reads))
  processing-claimed listed takes =
      let here = processing_key org_id entry.incident_id in
      get-claim_plain org_id key entry w here listed
      ∙ ground (
        arith,
        takes,
        processing-ne-pending org_id key entry.incident_id listed,
        text_eq_refl here,
        text_eq_iff key here,
      )

  -- A plain incident that a worker can take, takes and completes, undisturbed, is afterwards in the
  -- completed folder, with its claim, its time and its result, and neither pending nor processed.
  pub claim_plain-mark_completed :
      (result : Summary)
      → starts_with key (pending_folder org_id) ≡ true
      → can_take org_id key entry w.objects ≡ true
      → truthy entry.review_key ≡ none
      → let m = (run (mark_completed org_id entry.incident_id result) after_claim).1.objects in
        (Memory.get key m ≡ none)
        × (Memory.get (processing_key org_id entry.incident_id) m ≡ none)
        × (Memory.get (completed_key org_id entry.incident_id) m
            ≡ some (completed_entry (claimed entry (w.clock w.reads)) after_claim result))
  claim_plain-mark_completed result listed takes plain =
      let id = entry.incident_id in
      let ended =
        (get-mark_completed org_id id (claimed entry (w.clock w.reads)) after_claim result
          (processing-claimed listed takes) plain).1 in
      (
        ended key
            ∙ rw
                (
                  processing-ne-pending org_id key id listed,
                  completed-ne-pending org_id key id listed,
                )
                (get-claim_plain org_id key entry w key listed ∙ rw (takes, text_eq_refl key)),
        ended (processing_key org_id id) ∙ rw (text_eq_refl (processing_key org_id id)),
        ended (completed_key org_id id)
            ∙ rw (processing-ne-completed org_id id id, text_eq_refl (completed_key org_id id)),
      )
