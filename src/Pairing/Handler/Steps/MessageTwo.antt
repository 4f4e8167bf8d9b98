-- ===== src/Pairing/Handler/Steps/MessageTwo.antt =====
-- main/main.c: message 2 at the initiator: the checks of the library.
use espnow_edhoc.Prelude.{◌≡◌, refl, ◌⊎◌, inl, inr, some, take, ◌+◌}
use espnow_edhoc.Config.{Config}
use espnow_edhoc.Platform.{Platform}
use espnow_edhoc.Firmware.{return, esp_error_check, ◌>>◌, Firmware, Outcome}
use espnow_edhoc.Firmware.Contracts.{
  Ensures, Upto, Upto-check, Upto-Ensures, Returns-both, Returns-bind_Upto,
}
use espnow_edhoc.Wire.{m3, Msg}
use espnow_edhoc.Session.{Status, Out, role_initiator}
use espnow_edhoc.Session.Protocol.{
  refusal-not_ok, i_wait_m2, i_done, succeeds, fails, refuses, Answers, MessagesFit,
}
use espnow_edhoc.Session.Messages.{lakers_edhoc_process_message_2}
use espnow_edhoc.Session.Messages.Initiator.{process_message_2-Answers}
use espnow_edhoc.Session.Messages.Authentic.Initiator.{
  Authenticated2, OnlyAuthentic2, process_message_2-Authentic,
}
use espnow_edhoc.Pairing.{PairingState, wait_edhoc_ack, failed, send_edhoc_payload}
use espnow_edhoc.Pairing.Effects.{MsgFits, Sends, may_abort, Sent}
use espnow_edhoc.Pairing.Handler.{message_buffer, length_of, send_generated, on_m2}
use espnow_edhoc.Pairing.Handler.Steps.{
  left_message, message-Sent, logged, readable, message_buffer-HasRoom,
}

-- If the state has moved on, the library has verified the bytes as message 2, and the session is
-- the one that it has then finished.
abbrev pub Authentic : {p : Platform} → Msg → Firmware p → PairingState → Firmware p → Type 0
Authentic {p} msg fw state fw' =
    (state ≡ failed)
    ⊎ ((out : Out) × (fw₁ : Firmware p) × Authenticated2 (take msg.payload_len msg.payload)
          message_buffer fw out fw₁
        × (fw'.session ≡ fw₁.session))

send_generated-Authentic :
    {p : Platform} {X : Type 0} (sends : Sends p X) (cfg : Config) (msg : Msg) (status : Status)
    (out : Out) (fw fw₁ : Firmware p)
    → Answers i_wait_m2 i_done role_initiator fw status out fw₁
      × OnlyAuthentic2 (take msg.payload_len msg.payload) message_buffer fw (status, out) fw₁
    → Upto X
        (send_generated cfg m3 (msg.seq + 1) wait_edhoc_ack (status, out) fw₁)
        (λ state fw'. Authentic msg fw state fw')
unfolding send_generated
send_generated-Authentic sends cfg msg answer out fw fw₁ (a, inl bad) = rw bad (inl refl)
send_generated-Authentic {X = X} sends cfg msg answer out fw fw₁ (a, inr auth) = elim a.follows [
  | succeeds ok _ v k ↦ rw ok (
      Returns-bind_Upto X
        (send_edhoc_payload cfg m3 (msg.seq + 1) out.output (length_of out.output_length) fw₁)
        (λ e fw'. (do esp_error_check e; return wait_edhoc_ack) fw') (λ e fw₂. Sent X fw₁ e fw₂)
        (λ state fw'. Authentic msg fw state fw')
        (message-Sent sends cfg m3 (msg.seq + 1) out.output out.output_length fw₁
          (left_message answer out.output out.output_length ok a.message))
        (λ e fw₂ h. Upto-check X e (return wait_edhoc_ack) fw₂ _ h.1 (inr (out, fw₁, auth, h.0.0))))
  | fails e _ _ ↦ rw e (inl refl)
  | refuses e _ ↦ rw (refusal-not_ok answer e) (inl refl)
]

-- On a message that fits its buffer, an initiator that does not abort fails, or the library has
-- parsed the bytes as message 2 of the session, accepted the embedded credential of the responder
-- for its identifier, verified it, and made message 3 of it, and the session is the one that it
-- then finished; messages of the Lakers library hold at most 192 bytes.
pub on_m2-Authentic :
    {p : Platform} (laws : MessagesFit p) (cfg : Config) (msg : Msg) (fw : Firmware p)
    → MsgFits msg
    → Ensures (on_m2 cfg msg fw) (λ state fw'. Authentic msg fw state fw')
unfolding on_m2
on_m2-Authentic {p} laws cfg msg fw fits = Upto-Ensures Unit (on_m2 cfg msg fw) (Authentic msg fw) (
    rw (logged msg fits) (
      Returns-bind_Upto Unit answer (send_generated cfg m3 (msg.seq + 1) wait_edhoc_ack) _
        (λ state fw'. Authentic msg fw state fw')
        (Returns-both answer _ _
          (process_message_2-Answers laws (some msg.payload) msg.payload_len message_buffer fw
            (readable msg fits) message_buffer-HasRoom)
          (process_message_2-Authentic laws (some msg.payload) msg.payload_len message_buffer fw
            (readable msg fits) message_buffer-HasRoom))
        (λ a fw' h. send_generated-Authentic (may_abort p) cfg msg a.0 a.1 fw fw' h)))
  where
    answer : Outcome p (Status × Out)
    answer = lakers_edhoc_process_message_2 (some msg.payload) msg.payload_len message_buffer fw
