-- ===== src/Session/Messages/Handshake/Buffers.antt =====
-- The buffers that the calls of a handshake pass on, between two boards.
use espnow_edhoc.Prelude.{
  ℕ, ◌≤◌, ◌≡◌, refl, Option, none, some, List, ◌++◌, false, arith, length, drop, ltb, ◌==◌,
  length-append, take_append_len,
}
use espnow_edhoc.Memory.{zeros, length-zeros, read_bytes_within}
use espnow_edhoc.Platform.{Platform}
use espnow_edhoc.Firmware.{
  InitiatorPhase, ResponderPhase, Session, initiator, responder, Firmware, M, ◌>>=◌, checked,
}
use espnow_edhoc.Firmware.Contracts.{Returns, Returns-mono}
use espnow_edhoc.Session.{Status, status_ok, Out, okay, input_slice}
use espnow_edhoc.Session.Messages.{with_message, finish_initiator, finish_responder}
use espnow_edhoc.Session.Messages.Calls.{written, copy_output_lem}
use espnow_edhoc.Session.Messages.Handshake.{Yes, IsMessage}

-- the sessions of the two boards
abbrev pub of_initiator : {p : Platform} → InitiatorPhase p → List ℕ → Session p
of_initiator phase context = initiator (record { phase = phase; exporter_context = context })

abbrev pub of_responder : {p : Platform} → ResponderPhase p → List ℕ → Session p
of_responder phase context = responder (record { phase = phase; exporter_context = context })

-- a buffer as `handle_received_message` and `app_task` have it
abbrev pub fresh_buffer : Out
fresh_buffer = record { output = some (zeros 192); output_capacity = 192; output_length = some 0 }

-- the buffer with this message
abbrev pub holding : List ℕ → List ℕ
holding bytes = bytes ++ drop (length bytes) (zeros 192)

input_slice_ok :
    (bytes : List ℕ)
    → IsMessage bytes
    → input_slice (some (holding bytes)) (length bytes) ≡ some (okay bytes)
unfolding input_slice
input_slice_ok bytes h =
    let room : length bytes ≤ length (holding bytes) =
      omega (arith, length-append bytes (drop (length bytes) (zeros 192))) in
    let some_bytes : (length bytes == 0) ≡ false = ground arith in
    let fits : ltb 192 (length bytes) ≡ false = ground arith in
    rw
      (
        some_bytes,
        fits,
        read_bytes_within (holding bytes) (length bytes) room,
        take_append_len (length bytes) bytes (drop (length bytes) (zeros 192)) refl,
      )
      refl

-- the guards on the input pass
module _ {p : Platform} {B C : Type 0} (early : Status → B) (new_from_slice : List ℕ → Option C)
    (rest : C → M p B) (bytes : List ℕ) (fw : Firmware p) (D : C → Type 0)
    (Q : B → Firmware p → Type 0)
    (next : (message : C) → D message → Returns (rest message fw) Q) where
  found :
      (o : Option C)
      → new_from_slice bytes ≡ o
      → Yes o D
      → Returns (with_message early new_from_slice rest (okay bytes) fw) Q
  unfolding with_message
  found none e h = absurd h
  found (some message) e h = rw (e, with_message) (next message h)

  pub with_input :
      IsMessage bytes
      → Yes (new_from_slice bytes) D
      → Returns
          ((do
            slice ← checked (input_slice (some (holding bytes)) (length bytes))
            with_message early new_from_slice rest slice)
            fw)
          Q
  with_input h taken = rw (input_slice_ok bytes h) (found (new_from_slice bytes) refl taken)

-- a message that is made is left in the buffer
finish_initiator_ok :
    {p : Platform} (context : List ℕ) (phase : InitiatorPhase p) (bytes : List ℕ) (fw : Firmware p)
    → IsMessage bytes
    → Returns (finish_initiator fresh_buffer context (some (phase, bytes)) fw) (λ a fw'.
      (a ≡ (status_ok, written bytes fresh_buffer)) × (fw'.session ≡ of_initiator phase context))
unfolding finish_initiator
finish_initiator_ok context phase bytes fw h =
    rw (copy_output_lem bytes fresh_buffer (omega (arith, length-zeros 192, h.1))) (refl, refl)

finish_responder_ok :
    {p : Platform} (context : List ℕ) (phase : ResponderPhase p) (bytes : List ℕ) (fw : Firmware p)
    → IsMessage bytes
    → Returns (finish_responder fresh_buffer context (some (phase, bytes)) fw) (λ a fw'.
      (a ≡ (status_ok, written bytes fresh_buffer)) × (fw'.session ≡ of_responder phase context))
unfolding finish_responder
finish_responder_ok context phase bytes fw h =
    rw (copy_output_lem bytes fresh_buffer (omega (arith, length-zeros 192, h.1))) (refl, refl)

-- A call that leaves a message in a fresh buffer, for which `R` holds of it and the new phase.
abbrev pub InitiatorSends :
    {p : Platform}
    → List ℕ
    → (InitiatorPhase p → List ℕ → Type 0)
    → Status × Out
    → Firmware p
    → Type 0
InitiatorSends {p} context R a fw' =
    (phase : InitiatorPhase p) × (bytes : List ℕ) × (a ≡ (status_ok, written bytes fresh_buffer))
    × (fw'.session ≡ of_initiator phase context)
    × R phase bytes
    × IsMessage bytes

abbrev pub ResponderSends :
    {p : Platform}
    → List ℕ
    → (ResponderPhase p → List ℕ → Type 0)
    → Status × Out
    → Firmware p
    → Type 0
ResponderSends {p} context R a fw' =
    (phase : ResponderPhase p) × (bytes : List ℕ) × (a ≡ (status_ok, written bytes fresh_buffer))
    × (fw'.session ≡ of_responder phase context)
    × R phase bytes
    × IsMessage bytes

pub finished_initiator :
    {p : Platform} (context : List ℕ) (R : InitiatorPhase p → List ℕ → Type 0)
    (o : Option (InitiatorPhase p × List ℕ)) (fw : Firmware p)
    → Yes o (λ t. R t.0 t.1 × IsMessage t.1)
    → Returns (finish_initiator fresh_buffer context o fw) (λ a fw'. InitiatorSends context R a fw')
finished_initiator context R none fw h = absurd h
finished_initiator context R (some (phase, bytes)) fw h =
    Returns-mono (finish_initiator fresh_buffer context (some (phase, bytes)) fw) _ _
      (finish_initiator_ok context phase bytes fw h.1)
      (λ a fw' k. (phase, bytes, k.0, k.1, h.0, h.1))

pub finished_responder :
    {p : Platform} (context : List ℕ) (R : ResponderPhase p → List ℕ → Type 0)
    (o : Option (ResponderPhase p × List ℕ)) (fw : Firmware p)
    → Yes o (λ t. R t.0 t.1 × IsMessage t.1)
    → Returns (finish_responder fresh_buffer context o fw) (λ a fw'. ResponderSends context R a fw')
finished_responder context R none fw h = absurd h
finished_responder context R (some (phase, bytes)) fw h =
    Returns-mono (finish_responder fresh_buffer context (some (phase, bytes)) fw) _ _
      (finish_responder_ok context phase bytes fw h.1)
      (λ a fw' k. (phase, bytes, k.0, k.1, h.0, h.1))
