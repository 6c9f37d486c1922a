-- ===== src/Services/Approvals.antt =====
-- services/approval_store.py on the in-memory provider: approved commands behind references that
-- expire, are bound to an organisation, and are spent once. The clock is in microseconds. The JSON
-- of the target's label, the size of a record as JSON and the random part of an identifier are
-- parameters.
pub mod Spent
pub mod Cleaned
pub mod Authorised
use open_devops_agent.Prelude.{
  ℕ, zero, suc, ◌+◌, ◌-◌, ◌*◌, ◌/◌, Bool, true, false, ◌&&◌, ◌||◌, not, Option, none, some, List,
  [], ◌∷◌, ◌++◌, if◌then◌else◌, ltb, leb, ◌==◌, length,
}
use open_devops_agent.Text.{Text, codes, text_eq, starts_with, is_empty, split_on, partition_on}
use open_devops_agent.Text.Hex.{hex_padded, is_hex, hex_value}
use open_devops_agent.Storage.Keys.{org_prefix}
use open_devops_agent.Storage.Program.{
  Program, done, fail, Error, cleanup_failed, too_large, expired_in_retention, capacity_exhausted,
  ◌>>=◌, ◌>>◌, get_json, put_json, put_json_if_absent, delete, consume, exists, list_keys, now,
}

abbrev pub reference_prefix : Text
reference_prefix = codes "agent-approval:"

abbrev pub ttl_seconds : ℕ
ttl_seconds = 3600

abbrev pub approvals_per_window : ℕ
approvals_per_window = 256

abbrev pub max_record_bytes : ℕ
max_record_bytes = 262144

pub record Approval : Type 0 where
  pub org_id : Text
  pub reference : Text
  pub command : Text
  pub host : Option Text
  pub created_at : ℕ
  pub expires_at : ℕ

-- What stands under a key: a payload, or the reservation of a slot with its time of expiry.
pub data Stored : Type 0 where
  payload : Approval → Stored
  reserved : ℕ → Stored

abbrev pub Approvals : Type 0 → Type 0
Approvals A = Program Stored A

-- Equality of the objects as JSON.
abbrev host_eq : Option Text → Option Text → Bool
host_eq none none = true
host_eq (some a) (some b) = text_eq a b
host_eq _ _ = false

unfoldable pub stored_eq : Stored → Stored → Bool
unfolding text_eq
stored_eq (payload a) (payload b) =
    text_eq a.org_id b.org_id
    && text_eq a.reference b.reference
    && text_eq a.command b.command
    && host_eq a.host b.host
    && a.created_at == b.created_at
    && a.expires_at == b.expires_at
stored_eq (reserved a) (reserved b) = a == b
stored_eq _ _ = false

-- _prefix
unfoldable pub approvals_prefix : Text → Text
unfolding org_prefix
approvals_prefix org_id = org_prefix org_id (codes "approvals" ∷ []) ++ b'/' ∷ []

abbrev pub in_microseconds : ℕ → ℕ
in_microseconds seconds = seconds * 1000000

-- int(time.time())
abbrev pub in_seconds : ℕ → ℕ
in_seconds time = time / 1000000

-- s[:n] and s[n:]
abbrev pub front : ℕ → Text → Text
front zero s = []
front (suc n) [] = []
front (suc n) (c ∷ s) = c ∷ front n s

abbrev pub behind : ℕ → Text → Text
behind zero s = s
behind (suc n) [] = []
behind (suc n) (c ∷ s) = behind n s

-- [0-9a-f]{32}\.json
unfoldable pub is_untimed : Text → Bool
unfolding is_hex text_eq
is_untimed relative = is_hex 32 (front 32 relative) && text_eq (behind 32 relative) (codes ".json")

-- [0-9a-f]{32}\.(?:json|claim)
abbrev is_object_file : Text → Bool
is_object_file file =
    is_hex 32 (front 32 file)
    && (text_eq (behind 32 file) (codes ".json") || text_eq (behind 32 file) (codes ".claim"))

abbrev is_reservation : Text → Bool
is_reservation file = text_eq file (codes "reserved.json")

-- The path v2/<window>/<slot>/<file>, and whether its window or its file is over at the time.
abbrev is_over : ℕ → List Text → Bool
is_over time (v2 ∷ window ∷ slot ∷ file ∷ []) =
    text_eq v2 (codes "v2")
    && is_hex 8 window
    && is_hex 4 slot
    && (is_reservation file || is_object_file file)
    && (ltb (hex_value window + 1) (in_seconds time / ttl_seconds)
        || (not (is_reservation file) && leb (in_microseconds (hex_value (front 8 file))) time))
is_over time _ = false

-- The two patterns are of different shapes.
unfoldable pub is_expired : ℕ → Text → Bool
unfolding is_untimed is_hex hex_value split_on text_eq
is_expired time relative = is_untimed relative || is_over time (split_on b'/' relative)

abbrev pub reclaim : Text → Approvals (Unit {0})
reclaim key = do
  removed ← delete key
  if removed then done tt else do there ← exists key; if there then fail cleanup_failed else done tt

unfoldable pub cleanup_keys : ℕ → Text → List Text → Approvals (Unit {0})
cleanup_keys time prefix [] = done tt
cleanup_keys time prefix (key ∷ keys) = do
  (if is_expired time (behind (length prefix) key) then reclaim key else done tt)
  cleanup_keys time prefix keys

unfoldable pub cleanup : Text → Approvals (Unit {0})
unfolding cleanup_keys approvals_prefix
cleanup org_id = do
  time ← now
  keys ← list_keys (approvals_prefix org_id)
  cleanup_keys time (approvals_prefix org_id) keys

-- The folder of a slot.
abbrev slot_folder : Text → Text → Text → Text
slot_folder org_id window slot =
    approvals_prefix org_id ++ (codes "v2/" ++ (window ++ (b'/' ∷ (slot ++ (b'/' ∷ [])))))

module _ (label_json : Text → Text) (record_size : Approval → ℕ) (random : ℕ → Text) where
  -- str(host or "localhost")[:128]
  abbrev pub target_of : Option Text → Text
  target_of none = codes "localhost"
  target_of (some []) = codes "localhost"
  target_of (some (c ∷ s)) = front 128 (c ∷ s)

  abbrev pub identifier_of : ℕ → ℕ → Text
  identifier_of expires_at slot = hex_padded 8 expires_at ++ (hex_padded 4 slot ++ random slot)

  abbrev pub approval_of : Text → Text → Option Text → ℕ → ℕ → Approval
  approval_of org_id command host created_at slot = record {
    org_id = org_id;
    reference =
        reference_prefix
        ++ (identifier_of (created_at + ttl_seconds) slot
            ++ (codes " (" ++ (label_json (target_of host) ++ codes ")")));
    command = command;
    host = host;
    created_at = created_at;
    expires_at = created_at + ttl_seconds;
  }

  -- A slot that was won: the payload is stored, unless the time ran out meanwhile.
  abbrev pub keep : Text → Approval → Approvals Text
  keep key approval = do
    put_json key (payload approval)
    time ← now
    if leb (in_microseconds approval.expires_at) time
        then (do delete key; fail expired_in_retention)
        else done approval.reference

  -- The loop over the slots: `left` of them are to be tried, from `slot` on.
  unfoldable pub retain_from : Text → Text → Option Text → ℕ → ℕ → ℕ → Approvals Text
  retain_from org_id command host created_at slot zero = fail capacity_exhausted
  retain_from org_id command host created_at slot (suc left) =
      let approval = approval_of org_id command host created_at slot in
      let folder =
        slot_folder org_id (hex_padded 8 (created_at / ttl_seconds)) (hex_padded 4 slot) in
      let rest = retain_from org_id command host created_at (slot + 1) left in
      if ltb max_record_bytes (record_size approval) then fail too_large else do
        won ← put_json_if_absent (folder ++ codes "reserved.json") (reserved approval.expires_at)
        if not won
            then rest
            else keep (folder ++ (identifier_of approval.expires_at slot ++ codes ".json")) approval

  unfoldable pub retain : Text → Text → Option Text → Approvals Text
  unfolding cleanup retain_from
  retain org_id command host = do
    cleanup org_id
    time ← now
    retain_from org_id command host (in_seconds time) 0 approvals_per_window

-- f"{(expires_at - 3600) // 3600:08x}", where the quotient is rounded down
abbrev pub window_text : ℕ → Text
window_text expires_at =
    if ltb expires_at ttl_seconds
    then codes "-0000001"
    else hex_padded 8 ((expires_at - ttl_seconds) / ttl_seconds)

-- reference[len(prefix):].split(" ", 1)[0]
abbrev pub identifier_in : Text → Text
identifier_in reference = (partition_on b' ' (behind (length reference_prefix) reference)).0

-- The key of the payload that an identifier names.
unfoldable pub payload_key : Text → Text → Text
unfolding approvals_prefix hex_padded hex_value
payload_key org_id identifier =
    slot_folder org_id (window_text (hex_value (front 8 identifier)))
      (hex_padded 4 (hex_value (front 4 (behind 8 identifier))))
    ++ (identifier ++ codes ".json")

-- The command of a record that belongs to the reference.
unfoldable pub command_of : Text → Text → ℕ → Option Stored → Option Text
unfolding text_eq
command_of org_id reference expires_at (some (payload a)) =
    if text_eq a.org_id org_id && text_eq a.reference reference && a.expires_at == expires_at
    then (if is_empty a.command then none else some a.command)
    else none
command_of org_id reference expires_at _ = none

abbrev pub or_reserved : Option Stored → Stored
or_reserved none = reserved 0
or_reserved (some s) = s

-- The end of `resolve`, with the record and its command at hand.
abbrev pub spend : Text → ℕ → Stored → Option Text → Approvals (Option Text)
spend key expires_at found none = done none
spend key expires_at found (some command) = do
  spent ← consume key (stored_eq found)
  if not spent then done none else do
    time ← now
    delete key
    if leb (in_microseconds expires_at) time then done none else done (some command)

unfoldable pub resolve_identifier : Text → Text → Text → Approvals (Option Text)
resolve_identifier org_id reference identifier = do
  let expires_at = hex_value (front 8 identifier)
  time ← now
  if leb (in_microseconds expires_at) time then done none else do
    let key = payload_key org_id identifier
    found ← get_json key
    spend key expires_at (or_reserved found) (command_of org_id reference expires_at found)

unfoldable pub resolve : Text → Text → Approvals (Option Text)
unfolding cleanup resolve_identifier
resolve org_id reference = do
  cleanup org_id
  if not (starts_with reference reference_prefix)
      then done none
      else if not (is_hex 32 (identifier_in reference))
      then done none
      else resolve_identifier org_id reference (identifier_in reference)
