-- ===== src/Pairing/Handler/Steps/Initiator.antt =====
-- main/main.c: where the initiator's handlers lead.
use espnow_edhoc.Prelude.{
  ◌≡◌, refl, Bool, true, false, inl, inr, some, length, arith, ◌+◌, if◌then◌else◌,
}
use espnow_edhoc.Config.{Config, initiator_key_test_delay_ms}
use espnow_edhoc.Platform.{EspErr, esp_ok, Platform}
use espnow_edhoc.Firmware.{return, Firmware}
use espnow_edhoc.Firmware.Contracts.{Upto, Upto-check, Returns-bind_Upto}
use espnow_edhoc.Wire.{m3, key_test, Msg}
use espnow_edhoc.Session.{role_initiator}
use espnow_edhoc.Session.Protocol.{i_wait_m2, i_done, view, Answers, MessagesFit}
use espnow_edhoc.Session.Messages.{lakers_edhoc_process_message_2}
use espnow_edhoc.Session.Messages.Initiator.{process_message_2-Answers}
use espnow_edhoc.Pairing.{
  key_test_payload, control_payload, wait_edhoc_ack, wait_key_test_ack, complete,
  send_control_message, derive_and_install_lmk,
}
use espnow_edhoc.Pairing.Key.{SamePhase, derive_and_install_lmk-KeyInPlace}
use espnow_edhoc.Pairing.Effects.{
  MsgFits, Sends, Sent, send_control_message-Sent, verify_handshake_ack_lem,
  verify_control_payload_lem,
}
use espnow_edhoc.Pairing.Handler.{
  message_buffer, send_generated, fail_pairing, after_ack_check, after_ack_key, on_m2, on_ack,
  on_key_test_ack,
}
use espnow_edhoc.Pairing.Handler.Steps.{
  logged, Reaches, keeps, send_generated-Reaches, message_buffer-HasRoom, readable,
}

pub on_m2-Reaches :
    {p : Platform} {X : Type 0} (sends : Sends p X) (laws : MessagesFit p) (cfg : Config)
    (msg : Msg) (fw : Firmware p)
    → MsgFits msg
    → Upto X (on_m2 cfg msg fw) (λ state fw'. Reaches wait_edhoc_ack i_done fw state fw')
unfolding on_m2
on_m2-Reaches {X = X} sends laws cfg msg fw fits = rw (logged msg fits) (
    Returns-bind_Upto X
      (lakers_edhoc_process_message_2 (some msg.payload) msg.payload_len message_buffer fw)
      (send_generated cfg m3 (msg.seq + 1) wait_edhoc_ack)
      (λ a fw'. Answers i_wait_m2 i_done role_initiator fw a.0 a.1 fw')
      (λ state fw'. Reaches wait_edhoc_ack i_done fw state fw')
      (process_message_2-Answers laws (some msg.payload) msg.payload_len message_buffer fw
        (readable msg fits) message_buffer-HasRoom)
      (λ a fw'.
        send_generated-Reaches sends cfg wait_edhoc_ack i_wait_m2 i_done role_initiator fw m3
          (msg.seq + 1) a.0 a.1 fw'))

after_ack_key-Reaches :
    {p : Platform} {X : Type 0} (sends : Sends p X) (cfg : Config) (msg : Msg) (e : EspErr)
    (fw fw₁ : Firmware p)
    → SamePhase fw fw₁
    → Upto X
        (after_ack_key cfg msg e fw₁)
        (λ state fw'. Reaches wait_key_test_ack (view fw.session) fw state fw')
unfolding after_ack_key control_payload
after_ack_key-Reaches {p} {X} sends cfg msg esp_ok fw fw₁ h =
    Returns-bind_Upto X (send_control_message cfg key_test (msg.seq + 1) delayed) _
      (λ e fw'. Sent X fw₁ e fw')
      (λ state fw'. Reaches wait_key_test_ack (view fw.session) fw state fw')
      (send_control_message-Sent sends cfg key_test key_test_payload (msg.seq + 1) delayed refl
        (omega arith))
      (λ e fw' only.
        Upto-check X e (return wait_key_test_ack) fw' _ only.1
          (keeps wait_key_test_ack _ fw fw₁ fw' h.same only.0 h.phase h.context))
  where
    delayed : Firmware p
    delayed = record fw₁ {
      world = (p.idf.v_task_delay (p.idf.pd_ms_to_ticks initiator_key_test_delay_ms) fw₁.world).1;
    }
after_ack_key-Reaches sends cfg msg _ fw fw₁ h = (h.same, inl refl)

after_ack_check-Reaches :
    {p : Platform} {X : Type 0} (sends : Sends p X) (laws : MessagesFit p) (cfg : Config)
    (msg : Msg) (b : Bool) (fw : Firmware p)
    → length cfg.peer_mac ≡ 6
    → Upto X
        (after_ack_check cfg msg b fw)
        (λ state fw'. Reaches wait_key_test_ack (view fw.session) fw state fw')
unfolding after_ack_check
after_ack_check-Reaches {X = X} sends laws cfg msg false fw mac = ((refl, refl), inl refl)
after_ack_check-Reaches {X = X} sends laws cfg msg true fw mac =
    Returns-bind_Upto X (derive_and_install_lmk cfg fw) (after_ack_key cfg msg) _ _
      (derive_and_install_lmk-KeyInPlace laws cfg fw mac)
      (λ e fw₁ d. after_ack_key-Reaches sends cfg msg e fw fw₁ d.0)

pub on_ack-Reaches :
    {p : Platform} {X : Type 0} (sends : Sends p X) (laws : MessagesFit p) (cfg : Config)
    (msg : Msg) (fw : Firmware p)
    → MsgFits msg
    → length cfg.peer_mac ≡ 6
    → Upto X
        (on_ack cfg msg fw)
        (λ state fw'. Reaches wait_key_test_ack (view fw.session) fw state fw')
unfolding on_ack
on_ack-Reaches sends laws cfg msg fw fits mac =
    let r = verify_handshake_ack_lem msg fits in
    rw r.1 (after_ack_check-Reaches sends laws cfg msg r.0 fw mac)

pub on_key_test_ack-Reaches :
    {p : Platform} {X : Type 0} (sends : Sends p X) (msg : Msg) (fw : Firmware p)
    → MsgFits msg
    → Upto X (on_key_test_ack msg fw) (λ state fw'. Reaches complete (view fw.session) fw state fw')
unfolding on_key_test_ack
on_key_test_ack-Reaches {X = X} sends msg fw fits =
    let r = verify_control_payload_lem msg fits in
    rw r.1
      (elim r.0
        as (λ b.
          Upto X ((if b then return complete else fail_pairing) fw)
            (λ state fw'. Reaches complete (view fw.session) fw state fw')) [
              | true ↦ ((refl, refl), inr (refl, refl, refl))
              | false ↦ ((refl, refl), inl refl)
            ])
