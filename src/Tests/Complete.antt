-- ===== src/Tests/Complete.antt =====
-- The handshake of two boards on the toy platform.
use espnow_edhoc.Prelude.{refl, arith}
use espnow_edhoc.Firmware.{InitiatorPhase, ResponderPhase, Firmware}
use espnow_edhoc.Firmware.Contracts.{Returns}
use espnow_edhoc.Session.Messages.{lakers_edhoc_make_message_1}
use espnow_edhoc.Session.Messages.Handshake.{HandshakeCompletes}
use espnow_edhoc.Session.Messages.Handshake.Buffers.{of_initiator, of_responder, fresh_buffer}
use espnow_edhoc.Session.Messages.Handshake.Complete.{Second, handshake_completes}
use espnow_edhoc.Tests.{toy, toy_payload, toy_board}

toy-HandshakeCompletes : HandshakeCompletes toy 3 3
toy-HandshakeCompletes = record {
  After1 = λ s bytes. Unit;
  After2 = λ s t bytes. Unit;
  After3 = λ d t bytes. Unit;
  makes_1 = λ w. (tt, omega arith);
  takes_1 = λ s bytes h w w₁. (tt, omega arith);
  takes_2 = λ s t bytes h w w₁ w₂ w₃ w₄. (tt, omega arith);
  takes_3 = λ d t bytes h w w₁ w₂ w₃ label context n w₄ w₅. refl;
}

abbrev toy_starts : Firmware toy
toy_starts = toy_board (of_initiator (InitiatorPhase.start 3) toy_payload)

abbrev toy_answers : Firmware toy
toy_answers = toy_board (of_responder (ResponderPhase.start 3) toy_payload)

handshake_completes_example :
    Returns
      (lakers_edhoc_make_message_1 fresh_buffer toy_starts)
      (λ a fw. Second toy_payload toy_payload toy_answers a fw)
handshake_completes_example =
    handshake_completes toy-HandshakeCompletes toy_payload toy_payload toy_starts toy_answers refl
      refl
