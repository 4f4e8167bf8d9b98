-- ===== src/Session/Protocol.antt =====
-- The contract of the Lakers session (components/lakers_ffi/rust/src/lib.rs) in the abstract: its
-- phases, which call moves which phase, and what the calls rely on.
use espnow_edhoc.Prelude.{
  refl, ◌⊎◌, ℕ, ◌≤◌, ◌≡◌, Bool, true, false, Option, none, some, List, [], length,
}
use espnow_edhoc.Memory.{pointee}
use espnow_edhoc.Platform.{Platform}
use espnow_edhoc.Firmware.{
  InitiatorPhase, ResponderPhase, Session, empty, initiator, responder, Firmware,
}
use espnow_edhoc.Firmware.Contracts.{SameStatics}
use espnow_edhoc.Session.{
  is_status_ok, Status, status_ok, status_invalid_argument, status_wrong_state,
  status_buffer_too_small, status_protocol_error, Out, failed_session, max_edhoc_message_len,
}

-- a session with the library's values left out
pub data Phase : Type 0 where
  no_session i_start i_wait_m2 i_done i_failed r_start r_wait_m3 r_done r_failed : Phase

abbrev pub initiator_view : {p : Platform} → InitiatorPhase p → Phase
initiator_view (InitiatorPhase.start i) = i_start
initiator_view (InitiatorPhase.wait_m2 w) = i_wait_m2
initiator_view (InitiatorPhase.done d) = i_done
initiator_view InitiatorPhase.failed = i_failed

abbrev pub responder_view : {p : Platform} → ResponderPhase p → Phase
responder_view (ResponderPhase.start r) = r_start
responder_view (ResponderPhase.wait_m3 w) = r_wait_m3
responder_view (ResponderPhase.done d) = r_done
responder_view ResponderPhase.failed = r_failed

abbrev pub view : {p : Platform} → Session p → Phase
view empty = no_session
view (initiator s) = initiator_view s.phase
view (responder s) = responder_view s.phase

abbrev pub context_of : {p : Platform} → Session p → List ℕ
context_of empty = []
context_of (initiator s) = s.exporter_context
context_of (responder s) = s.exporter_context

-- the statuses of a call that did nothing
abbrev pub is_refusal : Status → Bool
is_refusal status_invalid_argument = true
is_refusal status_wrong_state = true
is_refusal status_buffer_too_small = true
is_refusal _ = false

pub refusal-not_ok : (status : Status) → is_refusal status ≡ true → is_status_ok status ≡ false
refusal-not_ok status_ok e = cc
refusal-not_ok _ e = refl

-- A call that a session in phase `from` answers: it succeeds and moves the phase to `to` with the
-- same exporter context, or the protocol fails for good, or it is refused and changes nothing.
pub data Follows {p : Platform} (from to : Phase) (role : ℕ) (s : Session p) (status : Status)
    (s' : Session p) : Type 0 where
  succeeds :
      status ≡ status_ok
      → view s ≡ from
      → view s' ≡ to
      → context_of s' ≡ context_of s
      → Follows from to role s status s'
  fails :
      status ≡ status_protocol_error
      → view s ≡ from
      → s' ≡ failed_session p role
      → Follows from to role s status s'
  refuses : is_refusal status ≡ true → s' ≡ s → Follows from to role s status s'

-- the output buffer is as large as its capacity says
abbrev pub HasRoom : Out → Type 0
HasRoom out = out.output_capacity ≤ length (pointee out.output)

-- the pointer points to as many bytes as the length says
abbrev pub Readable : Option (List ℕ) → ℕ → Type 0
Readable input n = n ≤ length (pointee input)

-- the length that a call has left is at most 192 and inside the buffer
abbrev pub LengthFits : Option (List ℕ) → Option ℕ → Type 0
LengthFits (some buffer) (some n) = (n ≤ max_edhoc_message_len) × (n ≤ length buffer)
LengthFits _ _ = ⊥

-- what a call that writes a message promises
pub record Answers {p : Platform} (from to : Phase) (role : ℕ) (fw : Firmware p) (status : Status)
    (out : Out) (fw' : Firmware p) : Type 0 where
  pub follows : Follows from to role fw.session status fw'.session
  pub message : (is_status_ok status ≡ false) ⊎ LengthFits out.output out.output_length
  pub same : SameStatics fw fw'

abbrev pub IfSome : {A : Type 0} → (A → Type 0) → Option A → Type 0
IfSome P none = Unit
IfSome P (some a) = P a

-- the message of an answer fits a buffer
abbrev pub Fits : {A : Type 0} → A × List ℕ → Type 0
Fits (a, message) = length message ≤ max_edhoc_message_len

-- What EDHOC promises of two sessions of one handshake: they export the same bytes.
abbrev pub ExportAlike : (p : Platform) → p.lakers.Done → p.lakers.Done → Type 0
ExportAlike p d d' =
    (label : ℕ) (context : List ℕ) (n : ℕ) (w w' : p.World)
    → (p.lakers.edhoc_exporter d label context n w).0.0
      ≡ (p.lakers.edhoc_exporter d' label context n w').0.0

-- Lakers' message buffers hold at most 192 bytes, the number that both sides of the interface name,
-- and the exporter fills the slice that it is given.
pub record MessagesFit (p : Platform) : Type 0 where
  pub m1_fits :
      (i : p.lakers.Initiator) (w : p.World) → IfSome Fits (p.lakers.prepare_message_1 i w).0
  pub m2_fits :
      (r : p.lakers.ProcessedM1) (w : p.World) → IfSome Fits (p.lakers.prepare_message_2 r w).0
  pub m3_fits :
      (r : p.lakers.ProcessedM2) (w : p.World) → IfSome Fits (p.lakers.prepare_message_3 r w).0
  pub key_fits :
      (d : p.lakers.Done) (label : ℕ) (context : List ℕ) (n : ℕ) (w : p.World)
      → length (p.lakers.edhoc_exporter d label context n w).0.0 ≡ n
