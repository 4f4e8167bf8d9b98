-- ===== src/Session/Messages.antt =====
-- components/lakers_ffi/rust/src/lib.rs: the calls that make and process the messages. `mem::replace` and the write back are one match on the session: a call that
-- does not fit the phase puts back what it took out.
pub mod Initiator
pub mod Calls
pub mod Responder
pub mod Export
pub mod Authentic
pub mod Handshake
use espnow_edhoc.Prelude.{ℕ, Option, none, some, List, if◌then◌else◌}
use espnow_edhoc.Platform.{Platform}
use espnow_edhoc.Firmware.{
  InitiatorPhase, ResponderPhase, Session, initiator, responder, M, ◌>>=◌, ◌>>◌, return, call,
  checked,
}
use espnow_edhoc.Session.{
  Status, status_ok, status_invalid_argument, status_wrong_state, is_status_ok, role_initiator,
  role_responder, Res, okay, error, Out, set_session, parse_initiator_credential,
  parse_responder_credential, prepare_output, copy_output, input_slice, protocol_failed,
}

-- the `?` operator, in a chain of calls of the library
pub or_fail : {p : Platform} {A B : Type 0} → (A → M p (Option B)) → Option A → M p (Option B)
or_fail f none = return none
or_fail f (some a) = f a

infixl 5 ◌>>?◌
pub ◌>>?◌ : {p : Platform} {A B : Type 0} → M p (Option A) → (A → M p (Option B)) → M p (Option B)
unfolding or_fail
m >>? f = do r ← m; or_fail f r

-- A call that writes a message: `prepare_output`, then the rest with the buffer that it leaves.
pub with_output : {p : Platform} → (Out → M p (Status × Out)) → Status × Out → M p (Status × Out)
with_output rest (status, out) = if is_status_ok status then rest out else return (status, out)

-- `input_slice` and `new_from_slice`, with the early returns of their errors
pub with_message :
    {p : Platform} {B C : Type 0}
    → (Status → B)
    → (List ℕ → Option C)
    → (C → M p B)
    → Res (List ℕ)
    → M p B
with_message early new_from_slice rest (error status) = return (early status)
with_message early new_from_slice rest (okay slice) = elim (new_from_slice slice) [
  | none ↦ return (early status_invalid_argument)
  | some message ↦ rest message
]

-- `match result` at the end of the initiator's calls
pub finish_initiator :
    {p : Platform} → Out → List ℕ → Option (InitiatorPhase p × List ℕ) → M p (Status × Out)
unfolding set_session
finish_initiator out context (some (phase, message)) = do
  out' ← checked (copy_output message out)
  set_session (initiator (record { phase = phase; exporter_context = context }))
  return (status_ok, out')
finish_initiator out context none = do status ← protocol_failed role_initiator; return (status, out)

pub finish_responder :
    {p : Platform} → Out → List ℕ → Option (ResponderPhase p × List ℕ) → M p (Status × Out)
unfolding set_session
finish_responder out context (some (phase, message)) = do
  out' ← checked (copy_output message out)
  set_session (responder (record { phase = phase; exporter_context = context }))
  return (status_ok, out')
finish_responder out context none = do status ← protocol_failed role_responder; return (status, out)

make_m1 : {p : Platform} → p.lakers.Initiator → M p (Option (InitiatorPhase p × List ℕ))
make_m1 {p} i =
    call (p.lakers.prepare_message_1 i) >>? λ r. return (some (InitiatorPhase.wait_m2 r.0, r.1))

make_m1_at : {p : Platform} → Out → List ℕ → InitiatorPhase p → M p (Status × Out)
unfolding finish_initiator make_m1
make_m1_at out context (InitiatorPhase.start i) = do r ← make_m1 i; finish_initiator out context r
make_m1_at out context _ = return (status_wrong_state, out)

make_m1_in : {p : Platform} → Session p → Out → M p (Status × Out)
unfolding make_m1_at
make_m1_in (initiator s) out = make_m1_at out s.exporter_context s.phase
make_m1_in _ out = return (status_wrong_state, out)

unfoldable pub lakers_edhoc_make_message_1 : {p : Platform} → Out → M p (Status × Out)
unfolding with_output make_m1_in
lakers_edhoc_make_message_1 out fw = with_output (make_m1_in fw.session) (prepare_output out) fw

-- `process_message_1(...).and_then(prepare_message_2)`
answer_m1 :
    {p : Platform}
    → p.lakers.Responder
    → p.lakers.Message1
    → M p (Option (ResponderPhase p × List ℕ))
answer_m1 {p} r message_1 = call (p.lakers.process_message_1 r message_1) >>? λ processed_m1.
    call (p.lakers.prepare_message_2 processed_m1) >>? λ t.
    return (some (ResponderPhase.wait_m3 t.0, t.1))

process_m1_at :
    {p : Platform} → Out → List ℕ → ResponderPhase p → p.lakers.Message1 → M p (Status × Out)
unfolding finish_responder answer_m1
process_m1_at out context (ResponderPhase.start r) message_1 = do
  result ← answer_m1 r message_1
  finish_responder out context result
process_m1_at out context _ message_1 = return (status_wrong_state, out)

process_m1_in : {p : Platform} → Session p → Out → p.lakers.Message1 → M p (Status × Out)
unfolding process_m1_at
process_m1_in (responder s) out = process_m1_at out s.exporter_context s.phase
process_m1_in _ out = λ message_1. return (status_wrong_state, out)

-- the part below `prepare_output`
process_m1_rest : {p : Platform} → Option (List ℕ) → ℕ → Session p → Out → M p (Status × Out)
unfolding with_message process_m1_in
process_m1_rest {p} input input_length session out = do
  slice ← checked (input_slice input input_length)
  with_message (λ status. (status, out)) p.lakers.message_1_from_slice (process_m1_in session out)
      slice

unfoldable pub lakers_edhoc_process_message_1 :
    {p : Platform} → Option (List ℕ) → ℕ → Out → M p (Status × Out)
unfolding with_output process_m1_rest
lakers_edhoc_process_message_1 input input_length out fw =
    with_output (process_m1_rest input input_length fw.session) (prepare_output out) fw

-- the closure of `lakers_edhoc_process_message_2`
complete_m2 :
    {p : Platform} → p.lakers.WaitM2 → p.lakers.Message2 → M p (Option (InitiatorPhase p × List ℕ))
unfolding parse_responder_credential
complete_m2 {p} wait_m2 message_2 = call (p.lakers.parse_message_2 wait_m2 message_2) >>? λ parsed.
    return (parse_responder_credential p) >>? λ expected_r.
    call (p.lakers.credential_check_or_fetch expected_r parsed.1) >>? λ valid_r.
    call (p.lakers.verify_message_2 parsed.0 valid_r) >>? λ processed_m2.
    call (p.lakers.prepare_message_3 processed_m2) >>? λ t.
    call (p.lakers.wait_m4_completed t.0) >>? λ done. return (some (InitiatorPhase.done done, t.1))

process_m2_at :
    {p : Platform} → Out → List ℕ → InitiatorPhase p → p.lakers.Message2 → M p (Status × Out)
unfolding finish_initiator complete_m2
process_m2_at out context (InitiatorPhase.wait_m2 w) message_2 = do
  result ← complete_m2 w message_2
  finish_initiator out context result
process_m2_at out context _ message_2 = return (status_wrong_state, out)

process_m2_in : {p : Platform} → Session p → Out → p.lakers.Message2 → M p (Status × Out)
unfolding process_m2_at
process_m2_in (initiator s) out = process_m2_at out s.exporter_context s.phase
process_m2_in _ out = λ message_2. return (status_wrong_state, out)

-- the part below `prepare_output`
process_m2_rest : {p : Platform} → Option (List ℕ) → ℕ → Session p → Out → M p (Status × Out)
unfolding with_message process_m2_in
process_m2_rest {p} input input_length session out = do
  slice ← checked (input_slice input input_length)
  with_message (λ status. (status, out)) p.lakers.message_2_from_slice (process_m2_in session out)
      slice

unfoldable pub lakers_edhoc_process_message_2 :
    {p : Platform} → Option (List ℕ) → ℕ → Out → M p (Status × Out)
unfolding with_output process_m2_rest
lakers_edhoc_process_message_2 input input_length out fw =
    with_output (process_m2_rest input input_length fw.session) (prepare_output out) fw

-- the closure of `lakers_edhoc_process_message_3`
complete_m3 : {p : Platform} → p.lakers.WaitM3 → p.lakers.Message3 → M p (Option p.lakers.Done)
unfolding parse_initiator_credential
complete_m3 {p} wait_m3 message_3 = call (p.lakers.parse_message_3 wait_m3 message_3) >>? λ parsed.
    return (parse_initiator_credential p) >>? λ expected_i.
    call (p.lakers.credential_check_or_fetch expected_i parsed.1) >>? λ valid_i.
    call (p.lakers.verify_message_3 parsed.0 valid_i) >>? λ processed_m3.
    call (p.lakers.processed_m3_completed processed_m3)

finish_m3 : {p : Platform} → List ℕ → Option p.lakers.Done → M p Status
unfolding set_session
finish_m3 context (some done) = do
  set_session (responder (record { phase = ResponderPhase.done done; exporter_context = context }))
  return status_ok
finish_m3 context none = protocol_failed role_responder

process_m3_at : {p : Platform} → List ℕ → ResponderPhase p → p.lakers.Message3 → M p Status
unfolding finish_m3 complete_m3
process_m3_at context (ResponderPhase.wait_m3 w) message_3 = do
  result ← complete_m3 w message_3
  finish_m3 context result
process_m3_at context _ message_3 = return status_wrong_state

process_m3_in : {p : Platform} → Session p → p.lakers.Message3 → M p Status
unfolding process_m3_at
process_m3_in (responder s) = process_m3_at s.exporter_context s.phase
process_m3_in _ = λ message_3. return status_wrong_state

unfoldable pub lakers_edhoc_process_message_3 : {p : Platform} → Option (List ℕ) → ℕ → M p Status
unfolding with_message process_m3_in
lakers_edhoc_process_message_3 {p} input input_length fw =
    (do
      slice ← checked (input_slice input input_length)
      with_message (λ status. status) p.lakers.message_3_from_slice (process_m3_in fw.session)
          slice)
      fw
