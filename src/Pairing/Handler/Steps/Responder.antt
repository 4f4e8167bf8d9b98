-- ===== src/Pairing/Handler/Steps/Responder.antt =====
-- main/main.c: where the responder's handlers lead.
use espnow_edhoc.Prelude.{refl, Bool, true, false, inl, some, arith, ◌+◌}
use espnow_edhoc.Config.{Config}
use espnow_edhoc.Platform.{Platform}
use espnow_edhoc.Firmware.{◌>>◌, return, esp_error_check, Firmware}
use espnow_edhoc.Firmware.Contracts.{Upto, Upto-check, Returns-bind_Upto}
use espnow_edhoc.Wire.{m2, key_test_ack, Msg}
use espnow_edhoc.Session.{role_responder}
use espnow_edhoc.Session.Protocol.{r_start, r_wait_m3, view, Answers, MessagesFit}
use espnow_edhoc.Session.Messages.{lakers_edhoc_process_message_1}
use espnow_edhoc.Session.Messages.Responder.{process_message_1-Answers}
use espnow_edhoc.Pairing.{
  key_test_ack_payload, control_payload, wait_m3, complete, send_control_message,
}
use espnow_edhoc.Pairing.Effects.{
  MsgFits, Sends, Sent, send_control_message-Sent, verify_control_payload_lem,
}
use espnow_edhoc.Pairing.Handler.{
  message_buffer, send_generated, after_key_test, on_m1, on_key_test,
}
use espnow_edhoc.Pairing.Handler.Steps.{
  logged, Reaches, keeps, send_generated-Reaches, message_buffer-HasRoom, readable,
}

pub on_m1-Reaches :
    {p : Platform} {X : Type 0} (sends : Sends p X) (laws : MessagesFit p) (cfg : Config)
    (msg : Msg) (fw : Firmware p)
    → MsgFits msg
    → Upto X (on_m1 cfg msg fw) (λ state fw'. Reaches wait_m3 r_wait_m3 fw state fw')
unfolding on_m1
on_m1-Reaches {X = X} sends laws cfg msg fw fits = rw (logged msg fits) (
    Returns-bind_Upto X
      (lakers_edhoc_process_message_1 (some msg.payload) msg.payload_len message_buffer fw)
      (send_generated cfg m2 (msg.seq + 1) wait_m3)
      (λ a fw'. Answers r_start r_wait_m3 role_responder fw a.0 a.1 fw')
      (λ state fw'. Reaches wait_m3 r_wait_m3 fw state fw')
      (process_message_1-Answers laws (some msg.payload) msg.payload_len message_buffer fw
        (readable msg fits) message_buffer-HasRoom)
      (λ a fw'.
        send_generated-Reaches sends cfg wait_m3 r_start r_wait_m3 role_responder fw m2
          (msg.seq + 1) a.0 a.1 fw'))

after_key_test-Reaches :
    {p : Platform} {X : Type 0} (sends : Sends p X) (cfg : Config) (msg : Msg) (b : Bool)
    (fw : Firmware p)
    → Upto X
        (after_key_test cfg msg b fw)
        (λ state fw'. Reaches complete (view fw.session) fw state fw')
unfolding after_key_test control_payload
after_key_test-Reaches sends cfg msg false fw = ((refl, refl), inl refl)
after_key_test-Reaches {X = X} sends cfg msg true fw =
    Returns-bind_Upto X (send_control_message cfg key_test_ack (msg.seq + 1) fw)
      (λ e fw'. (do esp_error_check e; return complete) fw') (λ e fw'. Sent X fw e fw')
      (λ state fw'. Reaches complete (view fw.session) fw state fw')
      (send_control_message-Sent sends cfg key_test_ack key_test_ack_payload (msg.seq + 1) fw refl
        (omega arith))
      (λ e fw' h.
        Upto-check X e (return complete) fw' _ h.1
          (keeps complete _ fw fw fw' (refl, refl) h.0 refl refl))

pub on_key_test-Reaches :
    {p : Platform} {X : Type 0} (sends : Sends p X) (cfg : Config) (msg : Msg) (fw : Firmware p)
    → MsgFits msg
    → Upto X (on_key_test cfg msg fw) (λ state fw'. Reaches complete (view fw.session) fw state fw')
unfolding on_key_test
on_key_test-Reaches sends cfg msg fw fits =
    let r = verify_control_payload_lem msg fits in
    rw r.1 (after_key_test-Reaches sends cfg msg r.0 fw)
