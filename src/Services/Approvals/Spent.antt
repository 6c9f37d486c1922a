-- ===== src/Services/Approvals/Spent.antt =====
-- Callers that resolve one reference at once (services/approval_store.py, `resolve`).
use open_devops_agent.Prelude.{
  ℕ, true, false, not, Option, none, some, List, [], ◌∷◌, if◌then◌else◌, leb,
}
use open_devops_agent.Text.{Text, starts_with}
use open_devops_agent.Text.Laws.{text_eq_refl}
use open_devops_agent.Text.Hex.{is_hex, hex_value}
use open_devops_agent.Storage.Memory.{Objects}
use open_devops_agent.Storage.Program.{done}
use open_devops_agent.Storage.Trace.{Reach}
use open_devops_agent.Storage.Exclusive.{by_deletion, Contender, AtMostOne}
use open_devops_agent.Storage.Exclusive.Winners.{Reach-AtMostOne, copies, All-copies}
use open_devops_agent.Storage.Exclusive.Rules.{
  Contender-Holder, Contender-bind, Contender-if, Holder-if,
}
use open_devops_agent.Services.Approvals.{
  Stored, Approvals, front, is_expired, behind, reclaim, cleanup_keys, cleanup, spend, payload_key,
  in_microseconds, identifier_in, reference_prefix, resolve_identifier, resolve,
}

-- The caller may execute the command.
abbrev pub IsCommand : Option Text → Type 0
IsCommand none = ⊥
IsCommand (some command) = Unit

module _ (k : Text) where
  -- Nothing of the cleanup wins.
  abbrev Cleans : Approvals (Unit {0}) → Type 0
  Cleans = Contender by_deletion k (λ _. ⊥)

  reclaim-Cleans : (key : Text) → Cleans (reclaim key)
  reclaim-Cleans key = (λ same. tt, λ other x. x, elim [ true ↦ tt | false ↦ λ x. x ])

  cleanup_keys-Cleans :
      (time : ℕ) (prefix : Text) (keys : List Text) → Cleans (cleanup_keys time prefix keys)
  unfolding cleanup_keys
  cleanup_keys-Cleans time prefix [] = λ x. x
  cleanup_keys-Cleans time prefix (key ∷ keys) =
      let rest = cleanup_keys-Cleans time prefix keys in
      Contender-bind k (λ _. ⊥) (λ _. ⊥) by_deletion
        (if is_expired time (behind _ key) then reclaim key else done tt) _
        (Contender-if by_deletion k (λ _. ⊥) (is_expired time (behind _ key)) _ _
          (reclaim-Cleans key) (λ x. x))
        (λ _. Contender-Holder by_deletion k (λ _. ⊥) _ rest) (λ _ _. rest)

  cleanup-Cleans : (org_id : Text) → Cleans (cleanup org_id)
  unfolding cleanup
  cleanup-Cleans org_id = λ time keys listed. cleanup_keys-Cleans time _ keys

spend-Contends :
    (k : Text) (expires_at : ℕ) (found : Stored) (command : Option Text)
    → Contender by_deletion k IsCommand (spend k expires_at found command)
spend-Contends k expires_at found none = λ x. x
spend-Contends k expires_at found (some command) = (
  λ same t. (
    tt,
    λ b.
        Holder-if by_deletion k (leb (in_microseconds expires_at) t) (done none)
          (done (some command)) tt tt,
  ),
  λ other. absurd (cc (other, text_eq_refl k)),
  λ x. x,
)

resolve_identifier-Contends :
    (org_id reference identifier : Text)
    → Contender by_deletion
        (payload_key org_id identifier)
        IsCommand
        (resolve_identifier org_id reference identifier)
unfolding resolve_identifier
resolve_identifier-Contends org_id reference identifier = λ t.
    Contender-if by_deletion (payload_key org_id identifier) IsCommand
      (leb (in_microseconds (hex_value (front 8 identifier))) t) _ _ (λ x. x)
      λ found. spend-Contends (payload_key org_id identifier) _ _ _

pub resolve-Contends :
    (org_id reference : Text)
    → Contender by_deletion
        (payload_key org_id (identifier_in reference))
        IsCommand
        (resolve org_id reference)
unfolding resolve
resolve-Contends org_id reference =
    let k = payload_key org_id (identifier_in reference) in
    let rest =
      Contender-if by_deletion k IsCommand (not (starts_with reference reference_prefix)) _ _
        (λ x. x)
        (Contender-if by_deletion k IsCommand (not (is_hex 32 (identifier_in reference))) _ _
          (λ x. x) (resolve_identifier-Contends org_id reference (identifier_in reference))) in
    Contender-bind k (λ _. ⊥) IsCommand by_deletion (cleanup org_id) _ (cleanup-Cleans k org_id)
      (λ _. Contender-Holder by_deletion k IsCommand _ rest) (λ _ _. rest)

-- Any number of callers resolve one reference of one organisation at once, from any store, which
-- nobody else changes meanwhile. However their calls to the provider are interleaved, at most one
-- of them is given the command.
pub resolve-AtMostOne :
    (org_id reference : Text) (n : ℕ) (m : Objects Stored) (ps : List (Approvals (Option Text)))
    (m' : Objects Stored)
    → Reach (copies n (resolve org_id reference)) m ps m'
    → AtMostOne IsCommand ps
resolve-AtMostOne org_id reference n m ps m' r =
    Reach-AtMostOne by_deletion (payload_key org_id (identifier_in reference)) IsCommand
      (copies n (resolve org_id reference)) m ps m' r
      (All-copies _ n _ (resolve-Contends org_id reference))
