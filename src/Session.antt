-- ===== src/Session.antt =====
-- components/lakers_ffi/rust/src/lib.rs: the Lakers session of a board behind its C interface.
-- A pointer is an `Option`, and an output buffer is returned with what the call has written to it.
pub mod Credentials
pub mod Messages
pub mod Protocol
pub mod Context
pub mod Start
pub mod Random
use espnow_edhoc.Prelude.{
  ℕ, ◌-◌, Bool, true, false, not, ◌||◌, Option, none, some, List, [], ◌∷◌, ltb, ◌==◌, if◌then◌else◌,
  length,
}
use espnow_edhoc.Memory.{zeros, memcpy, read_bytes, is_null, pointee}
use espnow_edhoc.Platform.{Platform}
use espnow_edhoc.Firmware.{
  InitiatorPhase, ResponderPhase, Session, empty, initiator, responder, returned, aborted, M, ◌>>=◌,
  ◌>>◌, return, checked,
}
use espnow_edhoc.Session.Credentials.{cred_i, initiator_private, cred_r, responder_private}

-- the status codes; `status_code` of the component's C part has their numbers
pub data Status : Type 0 where
  status_ok status_invalid_argument status_wrong_state status_buffer_too_small : Status
  status_protocol_error status_credential_error : Status

abbrev pub is_status_ok : Status → Bool
is_status_ok status_ok = true
is_status_ok _ = false

abbrev pub role_initiator : ℕ
role_initiator = 1

abbrev pub role_responder : ℕ
role_responder = 2

abbrev pub max_edhoc_message_len : ℕ
max_edhoc_message_len = 192

abbrev pub espnow_lmk_len : ℕ
espnow_lmk_len = 16

abbrev pub exporter_label_espnow_lmk : ℕ
exporter_label_espnow_lmk = 0xF0

-- b"ESP-NOW-LMK-v1"
abbrev pub exporter_purpose : List ℕ
exporter_purpose =
    b'E' ∷ b'S' ∷ b'P' ∷ b'-' ∷ b'N' ∷ b'O' ∷ b'W' ∷ b'-' ∷ b'L' ∷ b'M' ∷ b'K' ∷ b'-' ∷ b'v' ∷ b'1'
    ∷ []

abbrev pub exporter_context_len : ℕ
exporter_context_len = 27

-- `Result<A, i32>`
pub data Res (A : Type 0) : Type 0 where
  okay : A → Res A
  error : Status → Res A

-- `output`, `output_capacity` and `*output_length` of a call
pub record Out : Type 0 where
  pub output : Option (List ℕ)
  pub output_capacity : ℕ
  pub output_length : Option ℕ

unfoldable pub set_session : {p : Platform} → Session p → M p (Unit {0})
set_session s fw = returned tt (record fw { session = s })

-- A panic ends in the panic handler, which never returns.
abbrev pub or_panic : {p : Platform} {A : Type 0} → Option A → M p A
or_panic none fw = aborted
or_panic (some a) fw = returned a fw

unfoldable pub parse_initiator_credential : (p : Platform) → Option p.lakers.Credential
parse_initiator_credential p = p.lakers.parse_ccs cred_i

unfoldable pub parse_responder_credential : (p : Platform) → Option p.lakers.Credential
parse_responder_credential p = p.lakers.parse_ccs cred_r

-- `dst[lo..hi].copy_from_slice(src)`, which panics if the lengths differ
copy_from_slice : ℕ → ℕ → List ℕ → List ℕ → Option (List ℕ)
copy_from_slice lo hi src dst = if length src == hi - lo then memcpy dst lo src (hi - lo) else none

unfoldable pub build_exporter_context : List ℕ → List ℕ → ℕ → Option (List ℕ)
unfolding copy_from_slice
build_exporter_context initiator_mac responder_mac channel =
    elim (copy_from_slice 0 14 exporter_purpose (zeros exporter_context_len)) [
      | none ↦ none
      | some c₁ ↦ elim (copy_from_slice 14 20 initiator_mac c₁) [
        | none ↦ none
        | some c₂ ↦ elim (copy_from_slice 20 26 responder_mac c₂) [
          | none ↦ none
          | some c₃ ↦ memcpy c₃ 26 (channel ∷ []) 1
        ]
      ]
    ]

new_initiator : {p : Platform} → List ℕ → Option p.lakers.Credential → Res (Session p)
new_initiator context none = error status_credential_error
new_initiator {p} context (some credential) = okay (
    initiator (record {
      phase = InitiatorPhase.start (
          p.lakers.set_identity (p.lakers.initiator_new p.lakers.stat_stat p.lakers.cipher_suite_2)
            initiator_private credential);
      exporter_context = context;
    }))

new_responder : {p : Platform} → List ℕ → Option p.lakers.Credential → Res (Session p)
new_responder context none = error status_credential_error
new_responder {p} context (some credential) = okay (
    responder (record {
      phase = ResponderPhase.start (p.lakers.responder_new responder_private credential);
      exporter_context = context;
    }))

-- the arms of `match role` in `create_session`
create_initiator : {p : Platform} → List ℕ → List ℕ → ℕ → M p (Res (Session p))
unfolding new_initiator parse_initiator_credential
create_initiator {p} own_mac peer_mac channel = do
  context ← or_panic (build_exporter_context own_mac peer_mac channel)
  return (new_initiator context (parse_initiator_credential p))

create_responder : {p : Platform} → List ℕ → List ℕ → ℕ → M p (Res (Session p))
unfolding new_responder parse_responder_credential
create_responder {p} own_mac peer_mac channel = do
  context ← or_panic (build_exporter_context peer_mac own_mac channel)
  return (new_responder context (parse_responder_credential p))

unfoldable pub create_session : {p : Platform} → ℕ → List ℕ → List ℕ → ℕ → M p (Res (Session p))
unfolding create_initiator create_responder
create_session role own_mac peer_mac channel =
    if not (length own_mac == 6) || (not (length peer_mac == 6) || (channel == 0 || ltb 14 channel))
    then return (error status_invalid_argument)
    else if role == role_initiator
    then create_initiator own_mac peer_mac channel
    else if role == role_responder
    then create_responder own_mac peer_mac channel
    else return (error status_invalid_argument)

unfoldable pub prepare_output : Out → Status × Out
prepare_output out =
    if is_null out.output || is_null out.output_length
    then (status_invalid_argument, out)
    else if ltb out.output_capacity max_edhoc_message_len
    then (status_buffer_too_small, record out { output_length = some max_edhoc_message_len })
    else (status_ok, record out { output_length = some 0 })

-- `none` is a write outside the buffer
unfoldable pub copy_output : List ℕ → Out → Option Out
copy_output bytes out = elim (memcpy (pointee out.output) 0 bytes (length bytes)) [
  | none ↦ none
  | some buffer ↦ some (record out { output = some buffer; output_length = some (length bytes) })
]

unfoldable pub input_slice : Option (List ℕ) → ℕ → Option (Res (List ℕ))
input_slice input input_length =
    if is_null input || (input_length == 0 || ltb max_edhoc_message_len input_length)
    then some (error status_invalid_argument)
    else elim (read_bytes (pointee input) input_length) [ none ↦ none | some s ↦ some (okay s) ]

-- the session that `protocol_failed` leaves
abbrev pub failed_session : (p : Platform) → ℕ → Session p
failed_session p role =
    if role == role_initiator
    then initiator
        (record { phase = InitiatorPhase.failed; exporter_context = zeros exporter_context_len })
    else if role == role_responder
    then responder
        (record { phase = ResponderPhase.failed; exporter_context = zeros exporter_context_len })
    else empty

unfoldable pub protocol_failed : {p : Platform} → ℕ → M p Status
unfolding set_session
protocol_failed {p} role = do set_session (failed_session p role); return status_protocol_error

finish_init : {p : Platform} → Res (Session p) → M p Status
unfolding set_session
finish_init (okay new_session) = do set_session new_session; return status_ok
finish_init (error status) = return status

-- `__real_lakers_edhoc_session_init`
unfoldable pub lakers_edhoc_session_init :
    {p : Platform} → ℕ → Option (List ℕ) → Option (List ℕ) → ℕ → M p Status
unfolding finish_init create_session
lakers_edhoc_session_init role own_mac peer_mac channel =
    if is_null own_mac || is_null peer_mac then return status_invalid_argument else do
      own ← checked (read_bytes (pointee own_mac) 6)
      peer ← checked (read_bytes (pointee peer_mac) 6)
      created ← create_session role own peer channel
      finish_init created
