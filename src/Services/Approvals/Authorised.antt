-- ===== src/Services/Approvals/Authorised.antt =====
-- What a resolved reference rests on (services/approval_store.py, `resolve`).
use mathlib.Core.Path.{subst}
use open_devops_agent.Prelude.{
  ℕ, suc, ap₂, ◌<◌, ◌≡◌, refl, Bool, true, false, not, Option, none, some, arith, leb,
  if◌then◌else◌,
}
use open_devops_agent.Text.{Text, starts_with}
use open_devops_agent.Text.Laws.{text_eq_iff}
use open_devops_agent.Text.Hex.{hex_value, is_hex}
use open_devops_agent.Storage.Memory
use open_devops_agent.Storage.Memory.{Objects}
use open_devops_agent.Storage.Program.{
  World, Result, ok, err, run, run-bind, continue, done, now, delete, get_json, ◌>>=◌, ◌>>◌,
}
use open_devops_agent.Services.Approvals.Cleaned.{Cleaned, cleanup-Cleaned}
use open_devops_agent.Services.Approvals.{
  Approval, Stored, payload, reserved, in_microseconds, front, cleanup, command_of, spend,
  payload_key, identifier_in, reference_prefix, resolve_identifier, resolve, stored_eq, or_reserved,
}

command_of-some :
    (org_id reference : Text) (expires_at : ℕ) (found : Option Stored) (command : Text)
    → command_of org_id reference expires_at found ≡ some command
    → (a : Approval) × (found ≡ some (payload a))
      × (a.org_id ≡ org_id)
      × (a.reference ≡ reference)
      × (a.expires_at ≡ expires_at)
      × (a.command ≡ command)
unfolding command_of
command_of-some org_id reference expires_at none command h = absurd (cc)
command_of-some org_id reference expires_at (some (reserved t)) command h = absurd (cc)
command_of-some org_id reference expires_at (some (payload a)) command h = (
  a,
  refl,
  ground (arith, text_eq_iff a.org_id org_id),
  ground (arith, text_eq_iff a.reference reference),
  ground arith,
  ground arith,
)

in_time :
    (late : Bool) (held command : Text) (w : World Stored)
    → (run (if late then done none else done (some held)) w).0 ≡ ok (some command)
    → (late ≡ false) × (held ≡ command)
unfolding run
in_time true held command w h = absurd (cc)
in_time false held command w h = (refl, cc)

-- The end of `spend`, with the answer of the consumption at hand.
after_consume :
    (spent : Bool) (key : Text) (expires_at : ℕ) (held command : Text) (w : World Stored)
    → (run
        (if not spent then done none else do
          time ← now
          delete key
          if leb (in_microseconds expires_at) time then done none else done (some held))
        w).0
      ≡ ok (some command)
    → (held ≡ command) × (w.clock w.reads < in_microseconds expires_at)
unfolding run
after_consume false key expires_at held command w h = absurd (cc)
after_consume true key expires_at held command w h =
    let (early, same) =
      in_time (leb (in_microseconds expires_at) (w.clock w.reads)) held command _ h in
    (same, ground arith)

spend-some :
    (key : Text) (expires_at : ℕ) (found : Stored) (answer : Option Text) (command : Text)
    (w : World Stored)
    → (run (spend key expires_at found answer) w).0 ≡ ok (some command)
    → (answer ≡ some command) × (w.clock w.reads < in_microseconds expires_at)
unfolding run
spend-some key expires_at found none command w h = absurd (cc)
spend-some key expires_at found (some held) command w h =
    let (same, timely) =
      after_consume (Memory.consume key (stored_eq found) w.objects).0 key expires_at held command _
        h in
    (rw same, timely)

-- The record that lets a command run, in the objects that its caller found, and the reading of the
-- clock that still finds it in time.
pub record IsAuthorised (reading : ℕ) (org_id reference command : Text) (w : World Stored)
    : Type 0 where
  pub approval : Approval
  pub stored :
      Memory.get (payload_key org_id (identifier_in reference)) w.objects ≡ some (payload approval)
  pub same_org : approval.org_id ≡ org_id
  pub same_reference : approval.reference ≡ reference
  pub same_command : approval.command ≡ command
  pub unexpired : w.clock reading < in_microseconds approval.expires_at

abbrev expiry_of : Text → ℕ
expiry_of reference = hex_value (front 8 (identifier_in reference))

resolve_in_time :
    (late : Bool) (org_id reference command : Text) (w : World Stored)
    → (run
        (if late then done none else do
          found ← get_json (payload_key org_id (identifier_in reference))
          spend
              (payload_key org_id (identifier_in reference))
              (expiry_of reference)
              (or_reserved found)
              (command_of org_id reference (expiry_of reference) found))
        (record w { reads = suc w.reads })).0
      ≡ ok (some command)
    → IsAuthorised (suc w.reads) org_id reference command w
unfolding run
resolve_in_time true org_id reference command w e = absurd (cc)
resolve_in_time false org_id reference command w e =
    let key = payload_key org_id (identifier_in reference) in
    let found = Memory.get key w.objects in
    let later : World Stored = record w { reads = suc w.reads } in
    let (answer, timely) =
      spend-some key (expiry_of reference) (or_reserved found)
        (command_of org_id reference (expiry_of reference) found) command later e in
    let (a, there, org, label, expiry, same) =
      command_of-some org_id reference (expiry_of reference) found command answer in
    record {
      approval = a;
      stored = there;
      same_org = org;
      same_reference = label;
      same_command = same;
      unexpired = rw expiry timely;
    }

resolve_identifier-IsAuthorised :
    (org_id reference command : Text) (w : World Stored)
    → (run (resolve_identifier org_id reference (identifier_in reference)) w).0 ≡ ok (some command)
    → IsAuthorised (suc w.reads) org_id reference command w
unfolding resolve_identifier run
resolve_identifier-IsAuthorised org_id reference command w h =
    resolve_in_time (leb (in_microseconds (expiry_of reference)) (w.clock w.reads)) org_id reference
      command w h

IsAuthorised-Cleaned :
    {org_id reference command : Text} {w w' : World Stored}
    → Cleaned (record w { reads = suc w.reads }) w'
    → IsAuthorised (suc w'.reads) org_id reference command w'
    → IsAuthorised (suc (suc w.reads)) org_id reference command w
IsAuthorised-Cleaned {w = w} c h = record {
  approval = h.approval;
  stored = c.kept _ _ h.stored;
  same_org = h.same_org;
  same_reference = h.same_reference;
  same_command = h.same_command;
  unexpired =
      subst (λ t. t < in_microseconds h.approval.expires_at)
        (ap₂ (λ f n. f (suc n)) c.same_clock c.same_reads) h.unexpired;
}

-- The tests of the reference.
after_tests :
    (other odd : Bool) (org_id reference command : Text) (w : World Stored)
    → (run
        (if other
          then done none
          else if odd
          then done none
          else resolve_identifier org_id reference (identifier_in reference))
        w).0
      ≡ ok (some command)
    → IsAuthorised (suc w.reads) org_id reference command w
unfolding run
after_tests true odd org_id reference command w h = absurd (cc)
after_tests false true org_id reference command w h = absurd (cc)
after_tests false false org_id reference command w h =
    resolve_identifier-IsAuthorised org_id reference command w h

after_cleanup :
    (r : Result (Unit {0}) × World Stored) (org_id reference command : Text) (w : World Stored)
    → Cleaned (record w { reads = suc w.reads }) r.1
    → (continue
        (λ _.
          if not (starts_with reference reference_prefix)
          then done none
          else if not (is_hex 32 (identifier_in reference))
          then done none
          else resolve_identifier org_id reference (identifier_in reference))
        r).0
      ≡ ok (some command)
    → IsAuthorised (suc (suc w.reads)) org_id reference command w
after_cleanup (ok a, w') org_id reference command w c h = IsAuthorised-Cleaned c (
    after_tests (not (starts_with reference reference_prefix))
      (not (is_hex 32 (identifier_in reference))) org_id reference command w' h)
after_cleanup (err e, w') org_id reference command w c h = absurd (cc)

-- A reference that is resolved to a command stands for a stored record of that organisation, with
-- that very reference and command, which had not expired at the third reading of the clock: the
-- last one, after the record was consumed.
pub resolve-IsAuthorised :
    (org_id reference command : Text) (w : World Stored)
    → (run (resolve org_id reference) w).0 ≡ ok (some command)
    → IsAuthorised (suc (suc w.reads)) org_id reference command w
unfolding resolve
resolve-IsAuthorised org_id reference command w h =
    after_cleanup (run (cleanup org_id) w) org_id reference command w (cleanup-Cleaned org_id w) (
      rw
        (run-bind (cleanup org_id)
          (λ _.
            if not (starts_with reference reference_prefix)
            then done none
            else if not (is_hex 32 (identifier_in reference))
            then done none
            else resolve_identifier org_id reference (identifier_in reference))
          w)
        at h)
