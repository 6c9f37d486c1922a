-- ===== src/Services/Approvals/Cleaned.antt =====
-- What `cleanup` of services/approval_store.py leaves alone.
use open_devops_agent.Prelude.{
  ℕ, suc, ◌≡◌, refl, ◌∙◌, Bool, true, false, some, List, [], ◌∷◌, arith, length, if◌then◌else◌,
}
use open_devops_agent.Text.{Text}
use open_devops_agent.Storage.Memory
use open_devops_agent.Storage.Memory.{Objects}
use open_devops_agent.Storage.Memory.Laws.{get-delete}
use open_devops_agent.Storage.Program.{
  World, Result, ok, err, fail, cleanup_failed, run, run-bind, continue, done,
}
use open_devops_agent.Services.Approvals.{
  Stored, is_expired, behind, reclaim, cleanup_keys, cleanup, Approvals,
}

-- Cleaning up deletes, and never writes.
pub record Cleaned (before after : World Stored) : Type 0 where
  pub same_clock : after.clock ≡ before.clock
  pub same_reads : after.reads ≡ before.reads
  pub kept :
      (j : Text) (v : Stored)
      → Memory.get j after.objects ≡ some v
      → Memory.get j before.objects ≡ some v

Cleaned-refl : (w : World Stored) → Cleaned w w
Cleaned-refl w = record { same_clock = refl; same_reads = refl; kept = λ j v h. h }

Cleaned-trans : {u v w : World Stored} → Cleaned u v → Cleaned v w → Cleaned u w
Cleaned-trans a b = record {
  same_clock = b.same_clock ∙ a.same_clock;
  same_reads = b.same_reads ∙ a.same_reads;
  kept = λ j x h. a.kept j x (b.kept j x h);
}

Cleaned-delete :
    (key : Text) (w : World Stored)
    → Cleaned w (record w { objects = (Memory.delete key w.objects).1 })
Cleaned-delete key w = record {
  same_clock = refl;
  same_reads = refl;
  kept = λ j v h. ground (arith, get-delete key j w.objects);
}

run_if-Cleaned :
    (b : Bool) (p q : Approvals (Unit {0})) (w : World Stored)
    → Cleaned w (run p w).1
    → Cleaned w (run q w).1
    → Cleaned w (run (if b then p else q) w).1
run_if-Cleaned true p q w hp hq = hp
run_if-Cleaned false p q w hp hq = hq

reclaim-Cleaned : (key : Text) (w : World Stored) → Cleaned w (run (reclaim key) w).1
unfolding run
reclaim-Cleaned key w =
    let w' : World Stored = record w { objects = (Memory.delete key w.objects).1 } in
    Cleaned-trans (Cleaned-delete key w) (
      run_if-Cleaned (Memory.delete key w.objects).0 (done tt) _ w' (Cleaned-refl w') (
        run_if-Cleaned (Memory.exists key w'.objects) (fail cleanup_failed) (done tt) w'
          (Cleaned-refl w') (Cleaned-refl w')))

continue-Cleaned :
    (w : World Stored) (r : Result (Unit {0}) × World Stored) (p : Approvals (Unit {0}))
    → Cleaned w r.1
    → ((w' : World Stored) → Cleaned w' (run p w').1)
    → Cleaned w (continue (λ _. p) r).1
continue-Cleaned w (ok a, w') p h hp = Cleaned-trans h (hp w')
continue-Cleaned w (err e, w') p h hp = h

cleanup_keys-Cleaned :
    (time : ℕ) (prefix : Text) (keys : List Text) (w : World Stored)
    → Cleaned w (run (cleanup_keys time prefix keys) w).1
unfolding cleanup_keys run
cleanup_keys-Cleaned time prefix [] w = Cleaned-refl w
cleanup_keys-Cleaned time prefix (key ∷ keys) w =
    let b = is_expired time (behind (length prefix) key) in
    rw (run-bind (if b then reclaim key else done tt) (λ _. cleanup_keys time prefix keys) w) (
      continue-Cleaned w (run (if b then reclaim key else done tt) w)
        (cleanup_keys time prefix keys)
        (run_if-Cleaned b (reclaim key) (done tt) w (reclaim-Cleaned key w) (Cleaned-refl w))
        (cleanup_keys-Cleaned time prefix keys))

-- The clock is read once, before.
pub cleanup-Cleaned :
    (org_id : Text) (w : World Stored)
    → Cleaned (record w { reads = suc w.reads }) (run (cleanup org_id) w).1
unfolding cleanup run
cleanup-Cleaned org_id w =
    cleanup_keys-Cleaned (w.clock w.reads) _ _ (record w { reads = suc w.reads })
