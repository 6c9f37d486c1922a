-- ===== src/Services/IncidentQueue/Taken.antt =====
-- What a claim of a plain incident does when nobody interferes (services/incident_queue.py,
-- `claim_next`).
use open_devops_agent.Prelude.{◌≡◌, Bool, true, ◌&&◌, not, none, some, arith, if◌then◌else◌}
use open_devops_agent.Text.{Text, text_eq, starts_with}
use open_devops_agent.Text.Laws.{text_eq_iff}
use open_devops_agent.Storage.Memory
use open_devops_agent.Storage.Memory.{Objects}
use open_devops_agent.Storage.Memory.Laws.{get-put, get-remove}
use open_devops_agent.Storage.Program.{World, ok, run}
use open_devops_agent.Storage.Disjoint.{pending_folder, processing-ne-pending}
use open_devops_agent.Services.IncidentQueue.Entry.{Entry, pending, has_status, processing_key}
use open_devops_agent.Services.IncidentQueue.Claim.{claimed, claim_plain}

-- Whether the incident can be taken: it is pending, in the folder still, and nobody processes it.
abbrev pub can_take : Text → Text → Entry → Objects Entry → Bool
can_take org_id key entry m =
    has_status pending entry.status
    && Memory.exists key m
    && not (Memory.exists (processing_key org_id entry.incident_id) m)

module _ (org_id key : Text) (entry : Entry) (w : World Entry) where
  -- A worker that no other disturbs takes the plain incident under a key of the pending folder
  -- exactly if it is pending, its key is still there, and no one processes it; what it gets is the
  -- entry marked as claimed now.
  pub claim_plain-takes :
      starts_with key (pending_folder org_id) ≡ true
      → (run (claim_plain org_id key entry) w).0
        ≡ ok (
            if can_take org_id key entry w.objects
            then some (claimed entry (w.clock w.reads))
            else none)
  unfolding run claim_plain Memory.exists Memory.put_if_absent Memory.delete
  claim_plain-takes listed = ground (
    arith,
    get-put (processing_key org_id entry.incident_id) key (claimed entry (w.clock w.reads))
        w.objects,
    processing-ne-pending org_id key entry.incident_id listed,
  )

  -- When a worker that no other disturbs tries to claim a plain incident under a key of the pending
  -- folder, the incident moves from its key to the processing folder if it can be taken, and the
  -- store stays as it was if not. No other object changes.
  pub get-claim_plain :
      (j : Text)
      → starts_with key (pending_folder org_id) ≡ true
      → Memory.get j (run (claim_plain org_id key entry) w).1.objects ≡ (
          if can_take org_id key entry w.objects
          then if text_eq key j
            then none
            else if text_eq (processing_key org_id entry.incident_id) j
            then some (claimed entry (w.clock w.reads))
            else Memory.get j w.objects
          else Memory.get j w.objects)
  unfolding run claim_plain Memory.exists Memory.put_if_absent Memory.delete
  get-claim_plain j listed =
      let here = processing_key org_id entry.incident_id in
      let put = Memory.put here (claimed entry (w.clock w.reads)) w.objects in
      ground (
        arith,
        get-put here key (claimed entry (w.clock w.reads)) w.objects,
        get-put here j (claimed entry (w.clock w.reads)) w.objects,
        get-remove key j put,
        get-remove here j put,
        text_eq_iff here j,
        processing-ne-pending org_id key entry.incident_id listed,
      )
