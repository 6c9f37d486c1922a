-- ===== src/Agent/Loop/Claude.antt =====
-- `_call_claude` of agent/core.py: a call of the language model, tried again after a transient
-- failure with a delay that doubles. What the client answers to each attempt is a parameter.
use open_devops_agent.Prelude.{
  ℕ, zero, suc, ◌+◌, ◌-◌, ◌*◌, ◌^◌, ◌≤◌, ◌<◌, ◌≡◌, refl, List, [], ◌∷◌, arith,
}
use open_devops_agent.Text.{Text}
use open_devops_agent.Json.{Json}

pub data ContentBlock : Type 0 where
  text_block : Text → ContentBlock
  tool_block : Text → Text → Json → ContentBlock

pub data Stop : Type 0 where
  end_turn tool_use other_stop : Stop

pub record Response : Type 0 where
  pub stop_reason : Stop
  pub content : List ContentBlock

-- What the client does: it answers, raises one of the errors that are tried again, or another.
pub data Attempt : Type 0 where
  answered : Response → Attempt
  transient : Text → Attempt
  fatal : Text → Attempt

-- What the caller sees. `no_attempt` is `raise None`, where no attempt is configured.
pub data Called : Type 0 where
  responded : Response → Called
  gave_up : Text → Called
  no_attempt : Called

pub record Calls : Type 0 where
  pub outcome : Called
  pub attempts : ℕ
  pub delays : List ℕ

module _ (claude_retry_delay : ℕ) (create : ℕ → Attempt) where
  -- What follows an attempt, given what the attempts after it do, of which so many are left.
  abbrev pub attempted : ℕ → ℕ → Attempt → Calls → Calls
  attempted left attempt (answered response) rest = record {
    outcome = responded response;
    attempts = attempt;
    delays = [];
  }
  attempted left attempt (fatal message) rest = record {
    outcome = gave_up message;
    attempts = attempt;
    delays = [];
  }
  attempted zero attempt (transient message) rest = record {
    outcome = gave_up message;
    attempts = attempt;
    delays = [];
  }
  attempted (suc left) attempt (transient message) rest = record rest {
    delays = claude_retry_delay * 2 ^ (attempt - 1) ∷ rest.delays;
  }

  -- The attempts from the given number on, with so many left.
  unfoldable pub call_from : ℕ → ℕ → Calls
  call_from zero attempt = record { outcome = no_attempt; attempts = 0; delays = [] }
  call_from (suc left) attempt =
      attempted left attempt (create attempt) (call_from left (suc attempt))

  unfoldable pub call_claude : ℕ → Calls
  call_claude claude_retries = call_from claude_retries 1

abbrev pub total : List ℕ → ℕ
total [] = 0
total (n ∷ ns) = n + total ns

-- The attempts are so many at most, and the delays before them add up.
abbrev pub IsBacked : ℕ → ℕ → ℕ → Calls → Type 0
IsBacked claude_retry_delay last attempt c =
    (c.attempts ≤ last)
    × (suc attempt ≤ c.attempts)
    × (total c.delays + claude_retry_delay * 2 ^ attempt
        ≡ claude_retry_delay * 2 ^ (c.attempts - 1))

module _ (claude_retry_delay : ℕ) (create : ℕ → Attempt) where
  back : (n : ℕ) → suc n - 1 ≡ n
  back n = omega arith

  twice :
      (attempt rest n : ℕ)
      → rest + claude_retry_delay * 2 ^ suc attempt ≡ n
      → claude_retry_delay * 2 ^ attempt + rest + claude_retry_delay * 2 ^ attempt ≡ n
  twice attempt rest n h =
      let double : 2 ^ suc attempt ≡ 2 ^ attempt + 2 ^ attempt = omega arith in grind arith

  attempted-IsBacked :
      (left attempt : ℕ) (a : Attempt) (rest : Calls)
      → ((l : ℕ)
          → left ≡ suc l
          → IsBacked claude_retry_delay (suc left + attempt) (suc attempt) rest)
      → IsBacked claude_retry_delay
          (suc left + attempt)
          attempt
          (attempted claude_retry_delay create left (suc attempt) a rest)
  attempted-IsBacked left attempt (answered response) rest h =
      (omega arith, omega arith, rw (back attempt) (omega arith))
  attempted-IsBacked left attempt (fatal message) rest h =
      (omega arith, omega arith, rw (back attempt) (omega arith))
  attempted-IsBacked zero attempt (transient message) rest h =
      (omega arith, omega arith, rw (back attempt) (omega arith))
  attempted-IsBacked (suc left) attempt (transient message) rest h =
      let (few, some_more, sum) = h left refl in
      (few, omega arith, rw (back attempt) (twice attempt _ _ sum))

  call_from-IsBacked :
      (left attempt : ℕ)
      → IsBacked claude_retry_delay
          (suc left + attempt)
          attempt
          (call_from claude_retry_delay create (suc left) (suc attempt))
  unfolding call_from
  call_from-IsBacked zero attempt =
      attempted-IsBacked zero attempt _ _ (λ l e. absurd (omega arith))
  call_from-IsBacked (suc left) attempt = attempted-IsBacked (suc left) attempt _ _ λ l e.
      let (few, more, sum) = call_from-IsBacked left (suc attempt) in (omega arith, more, sum)

-- A call of the language model makes at least one attempt and no more than configured, and waits
-- between attempts for `delay * (2 ** (attempts - 1) - 1)` in all.
pub call_claude-IsBacked :
    (claude_retry_delay : ℕ) (create : ℕ → Attempt) (claude_retries : ℕ)
    → 0 < claude_retries
    → IsBacked claude_retry_delay claude_retries 0
        (call_claude claude_retry_delay create claude_retries)
unfolding call_claude
call_claude-IsBacked claude_retry_delay create zero positive = absurd (omega arith)
call_claude-IsBacked claude_retry_delay create (suc left) positive =
    let (few, more, sum) = call_from-IsBacked claude_retry_delay create left 0 in
    (omega arith, more, sum)
