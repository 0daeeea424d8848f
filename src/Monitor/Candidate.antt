-- ===== src/Monitor/Candidate.antt =====
-- rkvm-input/src/monitor.rs: `RetryBackoff`, `CandidateState`, `Candidate` and their methods. Times are
-- milliseconds, and `now` is `Instant::now()`.
use rkvm.Prelude.{
  ℕ, suc, ◌+◌, ◌-◌, ◌^◌, Bool, true, false, List, [], ◌∷◌, Option, none, some, ltb, leb, ◌==◌, ◌=?◌,
  if◌then◌else◌, get_elem?,
}
use rkvm.Input.Device.{FilePath, DeviceInfo}
use rkvm.Monitor.Policy.{Policy, Selection, Selection_eq, selection, delay}

abbrev pub retry_backoff : List ℕ
retry_backoff = 100 ∷ 250 ∷ 500 ∷ 1000 ∷ 2000 ∷ []

abbrev pub blocked_retry : ℕ
blocked_retry = 5000

abbrev pub usize_max : ℕ
usize_max = 2 ^ 64 - 1

abbrev pub or_zero : Option ℕ → ℕ
or_zero none = 0
or_zero (some n) = n

-- `RETRY_BACKOFF[failures.min(RETRY_BACKOFF.len() - 1)]`, whose index is in range.
unfoldable pub backoff_delay : ℕ → ℕ
backoff_delay failures = or_zero (get_elem? retry_backoff (if ltb failures 4 then failures else 4))

-- `saturating_add`
unfoldable pub next_failures : ℕ → ℕ
next_failures failures = if ltb failures usize_max then suc failures else usize_max

pub data CandidateState : Type 0 where
  deferred : ℕ → CandidateState
  ready : CandidateState
  waiting : ℕ → CandidateState
  blocked : ℕ → CandidateState
  unsupported : CandidateState
  active : ℕ → Bool → CandidateState
  rejected : CandidateState

pub record Candidate : Type 0 where
  pub info : DeviceInfo
  pub aliases : List FilePath
  pub selection : Option Selection
  pub state : CandidateState
  pub failures : ℕ
  pub promotion_logged : Bool

unfoldable pub deferred_or_ready : ℕ → ℕ → CandidateState
deferred_or_ready now delay = if delay == 0 then ready else deferred (now + delay)

abbrev pub state_for : ℕ → Policy → Option Selection → CandidateState
state_for now policy none = rejected
state_for now policy (some s) = deferred_or_ready now (delay policy s)

unfoldable pub new : ℕ → DeviceInfo → List FilePath → Policy → Candidate
new now info aliases policy = record {
  info = info;
  aliases = aliases;
  selection = selection policy info;
  state = state_for now policy (selection policy info);
  failures = 0;
  promotion_logged = false;
}

abbrev pub deadline : CandidateState → Option ℕ
deadline (deferred until) = some until
deadline (waiting until) = some until
deadline (blocked until) = some until
deadline _ = none

unfoldable pub retry_at : Candidate → Option ℕ
retry_at c = deadline c.state

abbrev pub is_active : CandidateState → Bool
is_active (active id removal_sent) = true
is_active _ = false

abbrev pub is_ready : CandidateState → Bool
is_ready ready = true
is_ready _ = false

unfoldable pub update_policy : ℕ → Policy → Candidate → Candidate
update_policy now policy c = if selection policy c.info =? c.selection then c else record c {
  selection = selection policy c.info;
  failures = 0;
  promotion_logged = false;
  state = state_for now policy (selection policy c.info);
}

abbrev suppresses : CandidateState → Bool
suppresses unsupported = false
suppresses rejected = false
suppresses _ = true

unfoldable pub suppresses_lower_rules : Candidate → Bool
suppresses_lower_rules c = suppresses c.state

unfoldable pub schedule_backoff : ℕ → Candidate → Candidate
unfolding backoff_delay next_failures
schedule_backoff now c = record c {
  state = waiting (now + backoff_delay c.failures);
  failures = next_failures c.failures;
}

abbrev pub woken : ℕ → Candidate → Option ℕ → Candidate
woken now c none = c
woken now c (some until) = if leb until now then record c { state = ready } else c

-- What `wake_expired` does to one candidate.
unfoldable pub wake : ℕ → Candidate → Candidate
wake now c = woken now c (retry_at c)
