-- ===== src/Services/AlertDedupe/Claims.antt =====
-- What a delivery of an alert is told, and what it leaves in the store.
use open_devops_agent.Prelude.{
  ℕ, suc, ◌+◌, ◌<◌, ◌≡◌, ◌*◌, Bool, true, false, Option, some, arith, ◌==◌, not, ◌&&◌, ◌||◌,
  if◌then◌else◌,
}
use open_devops_agent.Text.{Text, text_eq}
use open_devops_agent.Text.Laws.{text_eq_iff, text_eq_refl}
use open_devops_agent.Storage.Memory
use open_devops_agent.Storage.Memory.Laws.{get-put}
use open_devops_agent.Storage.Program.{World, ok, run}
use open_devops_agent.Services.AlertDedupe.{Alert, Marker, within, existing_id, marker_of, claim_at}

-- Whether a delivery becomes an incident: dedupe is off, or nothing unexpired stands under its key.
abbrev admits : ℕ → ℕ → Option Marker → Bool
admits window time found = window == 0 || not (within window time found)

-- What the caller is told: its own incident, or the one that the marker names.
abbrev verdict : Bool → Text → Option Marker → Bool × Text
verdict admitted id found = if admitted then (true, id) else (false, existing_id found)

module _ (window : ℕ) (key : Text) (alert : Alert) (id : Text) (w : World Marker) where
  -- A claim tells the caller to enqueue its own incident exactly when dedupe is off or no marker
  -- younger than the window stands under the key; otherwise it reports the marker's incident.
  pub claim_at-verdict :
      (run (claim_at window key alert id) w).0
      ≡ ok (
          verdict
            (admits window (w.clock w.reads) (Memory.get key w.objects))
            id
            (Memory.get key w.objects))
  unfolding run claim_at Memory.exists Memory.put_if_absent
  claim_at-verdict =
      ground
        (arith, get-put key key (marker_of alert id (w.clock w.reads)) w.objects, text_eq_refl key)

  -- An admitted claim under a positive window leaves its marker under the key, any other claim
  -- leaves what was there, and no claim touches another key.
  pub get-claim_at :
      (j : Text)
      → Memory.get j (run (claim_at window key alert id) w).1.objects ≡ (
          if text_eq key j
            && not (window == 0)
            && admits window (w.clock w.reads) (Memory.get key w.objects)
          then some (marker_of alert id (w.clock w.reads))
          else Memory.get j w.objects)
  unfolding run claim_at Memory.exists Memory.put_if_absent
  get-claim_at j =
      ground
        (arith, get-put key j (marker_of alert id (w.clock w.reads)) w.objects, text_eq_iff key j)

  -- A claim with dedupe on reads the clock once.
  clock-claim_at :
      0 < window
      → (run (claim_at window key alert id) w).1.clock
          (run (claim_at window key alert id) w).1.reads
        ≡ w.clock (suc w.reads)
  unfolding run claim_at Memory.exists Memory.put_if_absent
  clock-claim_at h = ground arith

-- Of two deliveries of one alert, of which the second reads the clock less than a window after
-- the first was admitted, the second is refused and told the first one's incident, whatever
-- the two deliveries carry besides the key.
pub claim_at_twice :
    (window : ℕ) (key : Text) (alert again : Alert) (id id' : Text) (w : World Marker)
    → 0 < window
    → (run (claim_at window key alert id) w).0 ≡ ok (true, id)
    → w.clock (suc w.reads) < w.clock w.reads + window * 1000000
    → (run (claim_at window key again id') (run (claim_at window key alert id) w).1).0
      ≡ ok (false, id)
claim_at_twice window key alert again id id' w positive admitted soon =
    let w' = (run (claim_at window key alert id) w).1 in
    ground (
      arith,
      claim_at-verdict window key alert id w,
      get-claim_at window key alert id w key,
      clock-claim_at window key alert id w,
      claim_at-verdict window key again id' w',
      text_eq_refl key,
    )
