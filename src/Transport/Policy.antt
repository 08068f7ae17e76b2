-- ===== src/Transport/Policy.antt =====
-- How hard the transport tries: `connection_policy`, `_is_flapping`, `_aget_handshake` and
-- `_classify_close` of rekuest/agents/transport/websocket.py, and the failures of errors.py beside it.
-- Times are numbers of ticks. `ConnectionPolicy` and `Backoff` belong to another package: a policy
-- has the fields that this code reads, and `backoff` is a parameter.
use rekuest.Prelude.{
  ℕ, ◌+◌, Bool, false, Option, none, some, List, String, leb, nat_beq, if◌then◌else◌, keep, length,
}

pub record ConnectionPolicy : Type 0 where
  pub max_retries : ℕ
  pub delay_for : ℕ → ℕ
  pub reset_after : ℕ
  pub flap_limit : Option ℕ
  pub flap_window : ℕ

-- The deprecated knobs of the transport.
pub record RetryKnobs : Type 0 where
  pub max_retries : Option ℕ
  pub time_between_retries : Option ℕ
  pub allow_reconnect : Option Bool

-- The agent's policy with the knobs on top. `backoff initial factor max jitter` is the delay of the
-- other package's `Backoff`; its factor 1.0 and jitter 0.0 are the numbers 1 and 0.
unfoldable pub connection_policy :
    (ℕ → ℕ → ℕ → ℕ → ℕ → ℕ) → RetryKnobs → ConnectionPolicy → ConnectionPolicy
connection_policy backoff knobs policy =
    let retries : ℕ = elim knobs.max_retries [ none ↦ policy.max_retries | some n ↦ n ] in
    let delay : ℕ → ℕ = elim knobs.time_between_retries [
      | none ↦ policy.delay_for
      | some t ↦ backoff t 1 t 0
    ] in
    let budget : ℕ = elim knobs.allow_reconnect [ some false ↦ 0 | _ ↦ retries ] in
    record policy { max_retries = budget; delay_for = delay }

-- The drops that `_is_flapping` keeps: `t >= now - flap_window`, on signed times.
unfoldable pub recent_drops : ConnectionPolicy → ℕ → List ℕ → List ℕ
recent_drops policy now drops = keep (λ t. leb now (t + policy.flap_window)) drops

-- Whether the link has dropped too often, and the drops that are kept.
unfoldable pub is_flapping : ConnectionPolicy → ℕ → List ℕ → Bool × List ℕ
unfolding recent_drops
is_flapping policy now drops = elim policy.flap_limit [
  | none ↦ (false, drops)
  | some limit ↦ (leb limit (length (recent_drops policy now drops)), recent_drops policy now drops)
]

pub record HandshakeParams {ℓ} (R : Type ℓ) : Type ℓ where
  pub force : Option Bool
  pub session_id : Option String
  pub rest : R

-- `none` is a transport without a host; `bare` stands for the fields that such a handshake lacks.
unfoldable pub get_handshake {ℓ} :
    {R : Type ℓ} → R → Option (HandshakeParams R) → Bool → HandshakeParams R
get_handshake bare none force = record { force = some force; session_id = none; rest = bare }
get_handshake bare (some params) force = elim params.force [
  | none ↦ record params { force = some force }
  | some asked ↦ params
]

-- The terminal failures. `definite` is `DefiniteConnectionFail`, with what it was raised for.
pub data Cause : Type 0 where
  kick_message retries_exceeded flapping unhandled invalid_json schema_mismatch : Cause

pub data Failure : Type 0 where
  definite : Cause → Failure
  agent_was_kicked agent_is_already_busy agent_was_blocked cancelled : Failure

pub data Class : Type 0 where
  correctable : Class
  fatal : Failure → Class

abbrev pub heartbeat_not_responded_code : ℕ
heartbeat_not_responded_code = 3001

abbrev pub invalid_json_code : ℕ
invalid_json_code = 3002

abbrev pub schema_mismatch_code : ℕ
schema_mismatch_code = 3003

abbrev pub before_registration_code : ℕ
before_registration_code = 3004

abbrev pub blocked_code : ℕ
blocked_code = 4003

abbrev pub busy_code : ℕ
busy_code = 4004

abbrev pub kick_code : ℕ
kick_code = 4005

-- `CloseCode.ABNORMAL_CLOSURE`
abbrev pub abnormal_closure : ℕ
abnormal_closure = 1006

-- `agent_error_codes`
unfoldable pub agent_error : ℕ → Option Failure
agent_error code =
    if nat_beq code kick_code
    then some agent_was_kicked
    else if nat_beq code busy_code
    then some agent_is_already_busy
    else if nat_beq code blocked_code
    then some agent_was_blocked
    else if nat_beq code invalid_json_code
    then some (definite invalid_json)
    else if nat_beq code schema_mismatch_code
    then some (definite schema_mismatch)
    else none

-- The argument is the code of the close frame that was received, if one was. A bounce is correctable
-- as every code without an entry is.
unfoldable pub classify_close : Option ℕ → Class
unfolding agent_error
classify_close rcvd =
    let close_code : ℕ = elim rcvd [ none ↦ abnormal_closure | some code ↦ code ] in
    elim (agent_error close_code) [ none ↦ correctable | some failure ↦ fatal failure ]
