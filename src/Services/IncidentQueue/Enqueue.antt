-- ===== src/Services/IncidentQueue/Enqueue.antt =====
-- `enqueue` and the adoption of legacy reviews, of services/incident_queue.py. The random ids and
-- the SHA-256 digest of the review's identity are arguments.
use open_devops_agent.Prelude.{
  ℕ, ◌+◌, Bool, true, false, ◌&&◌, ◌||◌, not, Option, none, some, List, [], ◌∷◌, ◌++◌, reverse,
  is_some, if◌then◌else◌, ltb, all,
}
use open_devops_agent.Text.{Text, codes, text_eq, ends_with, split_on, is_empty}
use open_devops_agent.Text.Decimal.{parse_int}
use open_devops_agent.Storage.Keys.{org_prefix, queue_key, review_release_key}
use open_devops_agent.Storage.Program.{
  done, fail, value_error, lineage_missing, legacy_conflict, legacy_lost, ◌>>=◌, ◌>>◌, get_json,
  put_json, delete, exists, list_keys, now, require,
}
use open_devops_agent.Services.IncidentQueue.Entry.{
  Entry, Status, pending, processing, completed, failed, has_status, bare, Queue, Context,
  pending_key, failed_key, update,
}
use open_devops_agent.Services.IncidentQueue.Reviews.{
  or_fail, reserve_review_slot, publish_review, record_terminal,
}

abbrev is_code_review : Option Text → Bool
is_code_review none = false
is_code_review (some kind) = text_eq kind (codes "code_review")

abbrev or_blank : Option Text → Text
or_blank none = []
or_blank (some t) = t

-- The list `identity`; a missing part is blank, and neither counts as given.
unfoldable pub identity_of : Text → Context → List Text
identity_of org_id context =
    org_id
    ∷ or_blank context.scm_platform
    ∷ or_blank context.repo
    ∷ or_blank context.change_id
    ∷ or_blank context.head_sha
    ∷ []

unfoldable pub is_review : Text → Context → Bool
unfolding text_eq all identity_of
is_review org_id context =
    is_code_review context.kind && all (λ t. not (is_empty t)) (identity_of org_id context)

abbrev pub entry_of : Text → Context → Text → ℕ → Entry
entry_of org_id context incident_id time = record (bare incident_id org_id) {
  context = some context;
  status = some pending;
  created_at = some time;
  attempts = some 0;
}

-- text.rsplit("/", 1)[-1]
abbrev last_part : List Text → Text
last_part [] = []
last_part (p ∷ []) = p
last_part (p ∷ q ∷ ps) = last_part (q ∷ ps)

abbrev drop_codes : Text → Text → Text
drop_codes [] s = s
drop_codes (c ∷ p) [] = []
drop_codes (c ∷ p) (d ∷ s) = drop_codes p s

-- text.removesuffix(suffix)
abbrev remove_suffix : Text → Text → Text
remove_suffix text suffix =
    if ends_with text suffix then reverse (drop_codes suffix (reverse text)) else text

-- int(key.rsplit("/", 1)[-1].removesuffix(".json"))
unfoldable pub slot_sequence : Text → Option ℕ
unfolding ends_with split_on parse_int
slot_sequence key = parse_int (remove_suffix (last_part (split_on b'/' key)) (codes ".json"))

abbrev slot_number : Text → Queue ℕ
slot_number key = read (slot_sequence key)
  where
    read : Option ℕ → Queue ℕ
    read none = fail value_error
    read (some n) = done n

-- max(keys, key=...): the first of the keys with the highest sequence, and its sequence
unfoldable pub newest_from : Text → ℕ → List Text → Queue (Text × ℕ)
newest_from key n [] = done (key, n)
newest_from key n (other ∷ keys) = do
  m ← slot_number other
  newest_from (if ltb n m then other else key) (if ltb n m then m else n) keys

abbrev newest : Text → List Text → Queue (Text × ℕ)
newest key keys = do n ← slot_number key; newest_from key n keys

-- The entry that takes a slot: `entry.update(slot)`, published.
unfoldable pub publish_slot : Text → Entry → Entry → Queue Text
unfolding update publish_review
publish_slot org_id entry slot = publish_review org_id (update entry slot)

-- A fresh attempt: a new id in a newly reserved slot.
abbrev new_attempt : Text → Text → Text → ℕ → Entry → Queue Text
new_attempt org_id review_id fresh sequence entry = do
  let attempt = record entry { incident_id = review_id ++ b'-' ∷ fresh }
  slot ← reserve_review_slot org_id review_id sequence attempt
  publish_slot org_id attempt slot

-- The terminal record of the slot's attempt; a failure that left none is recorded now.
unfoldable pub slot_terminal : Text → Entry → Queue (Option Entry)
unfolding record_terminal
slot_terminal org_id slot = do
  terminal ← get_json (review_release_key org_id slot.incident_id)
  if is_some terminal
      then done terminal
      else do failure ← get_json (failed_key org_id slot.incident_id); record_failure failure
  where
    record_failure : Option Entry → Queue (Option Entry)
    record_failure none = done none
    record_failure (some entry) = do
      key ← require slot.review_key
      there ← exists key
      if there then done none else record_terminal org_id entry

-- What the newest slot of a lineage means for a delivery: its attempt is over and done (the answer
-- is its id), it failed (a new attempt takes the next slot), or it is open (the slot is shared).
unfoldable pub join_lineage : Text → Text → Text → Entry → Text → ℕ → Queue Text
unfolding slot_terminal reserve_review_slot publish_slot
join_lineage org_id review_id fresh entry slot_key n = do
  found ← get_json slot_key
  slot ← or_fail found (fail lineage_missing)
  terminal ← slot_terminal org_id slot
  status ← terminal_status terminal
  if has_status completed status
      then done slot.incident_id
      else if has_status failed status
      then new_attempt org_id review_id fresh (n + 1) entry
      else publish_slot org_id entry slot
  where
    terminal_status : Option Entry → Queue (Option Status)
    terminal_status none = done none
    terminal_status (some record') = do status ← require record'.status; done (some status)

abbrev join_or_open : Text → Text → Text → Entry → List Text → Queue Text
join_or_open org_id review_id fresh entry [] = new_attempt org_id review_id fresh 0 entry
join_or_open org_id review_id fresh entry (key ∷ keys) = do
  head ← newest key keys
  join_lineage org_id review_id fresh entry head.0 head.1

-- _adopt_legacy_review
unfoldable pub adopt_legacy_review : Text → Text → Entry → Queue Unit
unfolding reserve_review_slot publish_slot
adopt_legacy_review org_id key legacy = do
  entry ← recovered
  slot ← reserve_review_slot org_id legacy.incident_id 0 entry
  if not (text_eq slot.incident_id legacy.incident_id) then fail legacy_conflict else do
    publish_slot org_id entry slot
    queued ← exists (pending_key org_id slot.incident_id)
    over ← (if queued then done true else exists (review_release_key org_id slot.incident_id))
    if not over then fail legacy_lost else do delete key; done tt
  where
    recovered : Queue Entry
    recovered =
        if has_status processing legacy.status
        then (do
          time ← now
          done (record legacy { recovered_at = some time; status = some pending }))
        else done (record legacy { status = some pending })

abbrev pub is_active : Option Status → Bool
is_active status = has_status pending status || has_status processing status

-- A legacy record under the review's id: a finished one is the answer, an active one is adopted.
unfoldable pub enqueue_review : Text → Text → Text → Entry → Queue Text
unfolding join_lineage adopt_legacy_review newest_from
enqueue_review org_id review_id fresh entry = do
  let prefix = org_prefix org_id (codes "review_heads" ∷ review_id ∷ []) ++ b'/' ∷ []
  keys ← list_keys prefix
  by_keys prefix keys
  where
    by_keys : Text → List Text → Queue Text
    by_keys prefix (key ∷ keys) = join_or_open org_id review_id fresh entry (key ∷ keys)
    by_keys prefix [] = do
      let legacy_key = queue_key org_id (codes "reviews") review_id
      legacy ← get_json legacy_key
      by_legacy legacy_key legacy
      where
        by_legacy : Text → Option Entry → Queue Text
        by_legacy legacy_key none = join_or_open org_id review_id fresh entry []
        by_legacy legacy_key (some old) =
            if not (is_active old.status) then done old.incident_id else do
              adopt_legacy_review org_id legacy_key old
              keys ← list_keys prefix
              join_or_open org_id review_id fresh entry keys

-- `incident_id or f"INC-..."`
abbrev given_or : Option Text → Text → Text
given_or none generated = generated
given_or (some []) generated = generated
given_or (some (c ∷ s)) generated = c ∷ s

module _ (digest : List Text → Text) where
  -- `generated` is the id made from the clock and a random number, `fresh` the random part of the
  -- id of a new attempt at a review.
  unfoldable pub enqueue : Text → Context → Option Text → Text → Text → Queue Text
  unfolding is_review identity_of enqueue_review
  enqueue org_id context incident_id generated fresh = do
    time ← now
    let entry = entry_of org_id context (given_or incident_id generated) time
    if not (is_review org_id context)
        then (do put_json (pending_key org_id entry.incident_id) entry; done entry.incident_id)
        else enqueue_review org_id (codes "INC-review-" ++ digest (identity_of org_id context))
            fresh entry
