-- ===== src/Domain/State/Lives.antt =====
-- The diagrams of internal/domain/state.go, and how long a life can be.
use urbino.Base.{ℕ, ◌+◌, ◌≤◌, ◌<◌, ◌≡◌, refl, ◌↔◌, List, [], ◌∷◌, length, arith}
use urbino.Base.Result.{Result, ok}
use urbino.Domain.State.{
  RequestState, AttemptState, CredentialState, TransitionError, transition_request,
  transition_attempt, transition_credential,
}

-- The documented diagram of a request.
pub data RequestStep : RequestState → RequestState → Type 0 where
  start : RequestStep RequestState.pending RequestState.running
  drop_pending : RequestStep RequestState.pending RequestState.cancelled
  refuse : RequestStep RequestState.pending RequestState.failed
  succeed : RequestStep RequestState.running RequestState.succeeded
  fail : RequestStep RequestState.running RequestState.failed
  cancel : RequestStep RequestState.running RequestState.cancelled

pub data AttemptStep : AttemptState → AttemptState → Type 0 where
  start : AttemptStep AttemptState.pending AttemptState.running
  refuse : AttemptStep AttemptState.pending AttemptState.failed
  lose_pending : AttemptStep AttemptState.pending AttemptState.unknown
  succeed : AttemptStep AttemptState.running AttemptState.succeeded
  fail : AttemptStep AttemptState.running AttemptState.failed
  lose : AttemptStep AttemptState.running AttemptState.unknown

pub data CredentialStep : CredentialState → CredentialState → Type 0 where
  disable : CredentialStep CredentialState.active CredentialState.disabled
  expire : CredentialStep CredentialState.active CredentialState.expired
  ask_auth : CredentialStep CredentialState.active CredentialState.requires_auth

request_of_step : {s t : RequestState} → RequestStep s t → transition_request s t ≡ ok tt
unfolding transition_request
request_of_step RequestStep.start = refl
request_of_step RequestStep.drop_pending = refl
request_of_step RequestStep.refuse = refl
request_of_step RequestStep.succeed = refl
request_of_step RequestStep.fail = refl
request_of_step RequestStep.cancel = refl

ruleset request_edges = (
  RequestStep.start, RequestStep.drop_pending, RequestStep.refuse, RequestStep.succeed,
  RequestStep.fail, RequestStep.cancel,
)

request_to_step : (s t : RequestState) → transition_request s t ≡ ok tt → RequestStep s t
unfolding transition_request
request_to_step s t h = grind (arith, request_edges)

attempt_of_step : {s t : AttemptState} → AttemptStep s t → transition_attempt s t ≡ ok tt
unfolding transition_attempt
attempt_of_step AttemptStep.start = refl
attempt_of_step AttemptStep.refuse = refl
attempt_of_step AttemptStep.lose_pending = refl
attempt_of_step AttemptStep.succeed = refl
attempt_of_step AttemptStep.fail = refl
attempt_of_step AttemptStep.lose = refl

ruleset attempt_edges = (
  AttemptStep.start, AttemptStep.refuse, AttemptStep.lose_pending, AttemptStep.succeed,
  AttemptStep.fail, AttemptStep.lose,
)

attempt_to_step : (s t : AttemptState) → transition_attempt s t ≡ ok tt → AttemptStep s t
unfolding transition_attempt
attempt_to_step s t h = grind (arith, attempt_edges)

credential_of_step :
    {s t : CredentialState} → CredentialStep s t → transition_credential s t ≡ ok tt
unfolding transition_credential
credential_of_step CredentialStep.disable = refl
credential_of_step CredentialStep.expire = refl
credential_of_step CredentialStep.ask_auth = refl

credential_to_step :
    (s t : CredentialState) → transition_credential s t ≡ ok tt → CredentialStep s t
unfolding transition_credential
credential_to_step s t h =
    grind (arith, CredentialStep.disable, CredentialStep.expire, CredentialStep.ask_auth)

-- A change of a request's state is accepted exactly when it is an edge of the request diagram.
pub transition_request_iff :
    (s t : RequestState) → (transition_request s t ≡ ok tt) ↔ RequestStep s t
transition_request_iff s t = (request_to_step s t, request_of_step)

-- A change of an attempt's state is accepted exactly when it is an edge of the attempt diagram.
pub transition_attempt_iff :
    (s t : AttemptState) → (transition_attempt s t ≡ ok tt) ↔ AttemptStep s t
transition_attempt_iff s t = (attempt_to_step s t, attempt_of_step)

-- A change of a credential's state is accepted exactly when it is an edge of the credential diagram.
pub transition_credential_iff :
    (s t : CredentialState) → (transition_credential s t ≡ ok tt) ↔ CredentialStep s t
transition_credential_iff s t = (credential_to_step s t, credential_of_step)

-- Every change of a sequence is accepted.
module _ {S : Type 0} (transition : S → S → Result (TransitionError S) (Unit {0})) where
  abbrev pub AllAccepted : S → List S → Type 0
  AllAccepted s [] = Unit
  AllAccepted s (t ∷ ts) = (transition s t ≡ ok tt) × AllAccepted t ts

  -- If each accepted change raises a rank that is at most `top`, few changes are left.
  AllAccepted-length :
      (rank : S → ℕ) (top : ℕ)
      → ((s t : S) → transition s t ≡ ok tt → rank s < rank t)
      → ((s : S) → rank s ≤ top)
      → (s : S) (ts : List S) → AllAccepted s ts
      → rank s + length ts ≤ top
  AllAccepted-length rank top up bound s [] h = omega (arith, bound s)
  AllAccepted-length rank top up bound s (t ∷ ts) h =
      omega (arith, up s t h.0, AllAccepted-length rank top up bound t ts h.1)

abbrev request_rank : RequestState → ℕ
request_rank RequestState.pending = 0
request_rank RequestState.running = 1
request_rank _ = 2

request_rank-lt :
    (s t : RequestState) → transition_request s t ≡ ok tt → request_rank s < request_rank t
unfolding transition_request
request_rank-lt s t h = ground arith

request_rank-le : (s : RequestState) → request_rank s ≤ 2
request_rank-le s = ground arith

-- From any state a request makes at most two accepted changes, so none is ever repeated.
pub request_life :
    (s : RequestState) (ts : List RequestState)
    → AllAccepted transition_request s ts
    → length ts ≤ 2
request_life s ts h = omega (
  arith,
  AllAccepted-length transition_request request_rank 2 request_rank-lt request_rank-le s ts h,
)

abbrev attempt_rank : AttemptState → ℕ
attempt_rank AttemptState.pending = 0
attempt_rank AttemptState.running = 1
attempt_rank _ = 2

attempt_rank-lt :
    (s t : AttemptState) → transition_attempt s t ≡ ok tt → attempt_rank s < attempt_rank t
unfolding transition_attempt
attempt_rank-lt s t h = ground arith

attempt_rank-le : (s : AttemptState) → attempt_rank s ≤ 2
attempt_rank-le s = ground arith

-- From any state an attempt makes at most two accepted changes.
pub attempt_life :
    (s : AttemptState) (ts : List AttemptState)
    → AllAccepted transition_attempt s ts
    → length ts ≤ 2
attempt_life s ts h = omega (
  arith,
  AllAccepted-length transition_attempt attempt_rank 2 attempt_rank-lt attempt_rank-le s ts h,
)
