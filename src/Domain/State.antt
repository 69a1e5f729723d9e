-- ===== src/Domain/State.antt =====
-- internal/domain/state.go: the life cycles of requests, attempts and credentials. A state is a Go
-- string; the texts that no constant names are the constructor `other`.
pub mod Lives
use urbino.Base.{Bool, true, false, ◌&&◌, ◌||◌, not, if◌then◌else◌}
use urbino.Base.Text.{Text}
use urbino.Base.Result.{Result, ok, err}

pub data RequestState : Type 0 where
  pending running succeeded failed cancelled : RequestState
  other : Text → RequestState

pub data AttemptState : Type 0 where
  pending running succeeded failed unknown : AttemptState
  other : Text → AttemptState

pub data CredentialState : Type 0 where
  active disabled expired requires_auth : CredentialState
  other : Text → CredentialState

abbrev pub request_valid : RequestState → Bool
request_valid (RequestState.other s) = false
request_valid _ = true

abbrev pub attempt_valid : AttemptState → Bool
attempt_valid (AttemptState.other s) = false
attempt_valid _ = true

abbrev pub credential_valid : CredentialState → Bool
credential_valid (CredentialState.other s) = false
credential_valid _ = true

-- The error names both states.
pub data TransitionError (S : Type 0) : Type 0 where
  invalid_transition : S → S → TransitionError S

abbrev is_pending : RequestState → Bool
is_pending RequestState.pending = true
is_pending _ = false

abbrev is_running : RequestState → Bool
is_running RequestState.running = true
is_running _ = false

abbrev is_succeeded : RequestState → Bool
is_succeeded RequestState.succeeded = true
is_succeeded _ = false

abbrev is_failed : RequestState → Bool
is_failed RequestState.failed = true
is_failed _ = false

abbrev is_cancelled : RequestState → Bool
is_cancelled RequestState.cancelled = true
is_cancelled _ = false

unfoldable pub transition_request :
    (from to : RequestState) → Result (TransitionError RequestState) (Unit {0})
transition_request from to =
    if not (request_valid from) || not (request_valid to)
    then err (invalid_transition from to)
    else (let allowed =
          (is_pending from && (is_running to || is_cancelled to || is_failed to))
          || (is_running from && (is_succeeded to || is_failed to || is_cancelled to)) in
        if not allowed then err (invalid_transition from to) else ok tt)

abbrev attempt_is_pending : AttemptState → Bool
attempt_is_pending AttemptState.pending = true
attempt_is_pending _ = false

abbrev attempt_is_running : AttemptState → Bool
attempt_is_running AttemptState.running = true
attempt_is_running _ = false

abbrev attempt_is_succeeded : AttemptState → Bool
attempt_is_succeeded AttemptState.succeeded = true
attempt_is_succeeded _ = false

abbrev attempt_is_failed : AttemptState → Bool
attempt_is_failed AttemptState.failed = true
attempt_is_failed _ = false

abbrev attempt_is_unknown : AttemptState → Bool
attempt_is_unknown AttemptState.unknown = true
attempt_is_unknown _ = false

unfoldable pub transition_attempt :
    (from to : AttemptState) → Result (TransitionError AttemptState) (Unit {0})
transition_attempt from to =
    if not (attempt_valid from) || not (attempt_valid to)
    then err (invalid_transition from to)
    else (let allowed =
          (attempt_is_pending from
            && (attempt_is_running to || attempt_is_failed to || attempt_is_unknown to))
          || (attempt_is_running from
              && (attempt_is_succeeded to || attempt_is_failed to || attempt_is_unknown to)) in
        if not allowed then err (invalid_transition from to) else ok tt)

abbrev is_active : CredentialState → Bool
is_active CredentialState.active = true
is_active _ = false

abbrev leaves_active : CredentialState → Bool
leaves_active CredentialState.disabled = true
leaves_active CredentialState.expired = true
leaves_active CredentialState.requires_auth = true
leaves_active _ = false

unfoldable pub transition_credential :
    (from to : CredentialState) → Result (TransitionError CredentialState) (Unit {0})
transition_credential from to =
    if not (credential_valid from) || not (credential_valid to)
    then err (invalid_transition from to)
    else if is_active from && leaves_active to
    then ok tt
    else err (invalid_transition from to)
