-- ===== src/Session/Messages/Handshake/Complete.antt =====
-- The four calls of a handshake in components/lakers_ffi/rust/src/lib.rs, one after the other on the
-- two boards.
use espnow_edhoc.Prelude.{ℕ, ◌≡◌, refl, none, some, List}
use espnow_edhoc.Platform.{Platform}
use espnow_edhoc.Firmware.{InitiatorPhase, ResponderPhase, Firmware}
use espnow_edhoc.Firmware.Contracts.{Returns, Returns-mono}
use espnow_edhoc.Session.{Status, status_ok, Out}
use espnow_edhoc.Session.Protocol.{ExportAlike}
use espnow_edhoc.Session.Messages.{
  lakers_edhoc_make_message_1, lakers_edhoc_process_message_1, lakers_edhoc_process_message_2,
  lakers_edhoc_process_message_3,
}
use espnow_edhoc.Session.Messages.Handshake.{HandshakeCompletes}
use espnow_edhoc.Session.Messages.Handshake.Buffers.{
  of_initiator, of_responder, fresh_buffer, InitiatorSends, ResponderSends,
}
use espnow_edhoc.Session.Messages.Handshake.Steps.{
  Sent1, Sent2, Sent3, make_1, take_1, take_2, take_3,
}

abbrev pub length_left : Out → ℕ
length_left out = elim out.output_length [ none ↦ 0 | some n ↦ n ]

module _ {p : Platform} (context context' : List ℕ) where
  -- both calls have succeeded, and the sessions are finished and export alike
  abbrev pub BothDone : Firmware p → Status → Firmware p → Type 0
  BothDone fw answer fw' =
      (answer ≡ status_ok)
      × ((d : p.lakers.Done) × (d' : p.lakers.Done) × (fw.session
            ≡ of_initiator (InitiatorPhase.done d) context)
          × (fw'.session ≡ of_responder (ResponderPhase.done d') context')
          × ExportAlike p d d')

  -- the responder takes message 3
  abbrev pub Fourth : Firmware p → Status × Out → Firmware p → Type 0
  Fourth fw (answer, out) fw' =
      (answer ≡ status_ok)
      × Returns (lakers_edhoc_process_message_3 out.output (length_left out) fw')
          (λ last fw''. BothDone fw last fw'')

  -- the initiator takes message 2
  abbrev pub Third : Firmware p → Status × Out → Firmware p → Type 0
  Third fw (answer, out) fw' =
      (answer ≡ status_ok)
      × Returns (lakers_edhoc_process_message_2 out.output (length_left out) fresh_buffer fw)
          (λ a fw''. Fourth fw'' a fw')

  -- the responder takes message 1
  abbrev pub Second : Firmware p → Status × Out → Firmware p → Type 0
  Second fw' (answer, out) fw =
      (answer ≡ status_ok)
      × Returns (lakers_edhoc_process_message_1 out.output (length_left out) fresh_buffer fw')
          (λ a fw''. Third fw a fw'')

module _ {p : Platform} {i : p.lakers.Initiator} {r : p.lakers.Responder}
    (edhoc : HandshakeCompletes p i r) (context context' : List ℕ) where
  fourth :
      (t : p.lakers.WaitM3) (fw fw' : Firmware p) (a : Status × Out)
      → fw'.session ≡ of_responder (ResponderPhase.wait_m3 t) context'
      → InitiatorSends context (Sent3 edhoc t) a fw
      → Fourth context context' fw a fw'
  fourth t fw fw' a e' (phase, bytes, is_a, e, (d, is_d, after), size) = rw is_a (
    refl,
    Returns-mono _ _ (BothDone context context' fw)
        (take_3 edhoc d t bytes context' fw' after size e')
        (λ last fw'' h. (h.0, (d, h.1.0, (rw (← is_d) e), h.1.1, h.1.2))),
  )

  third :
      (s : p.lakers.WaitM2) (fw fw' : Firmware p) (a : Status × Out)
      → fw.session ≡ of_initiator (InitiatorPhase.wait_m2 s) context
      → ResponderSends context' (Sent2 edhoc s) a fw'
      → Third context context' fw a fw'
  third s fw fw' a e (phase, bytes, is_a, e', (t, is_t, after), size) = rw is_a (
    refl,
    Returns-mono _ _ _ (take_2 edhoc s t bytes context fw after size e)
        (λ a' fw'' h. fourth t fw'' fw' a' (rw (← is_t) e') h),
  )

  second :
      (fw fw' : Firmware p) (a : Status × Out)
      → fw'.session ≡ of_responder (ResponderPhase.start r) context'
      → InitiatorSends context (Sent1 edhoc) a fw
      → Second context context' fw' a fw
  second fw fw' a e' (phase, bytes, is_a, e, (s, is_s, after), size) = rw is_a (
    refl,
    Returns-mono _ _ _ (take_1 edhoc s bytes context' fw' after size e')
        (λ a' fw'' h. third s fw fw'' a' (rw (← is_s) e) h),
  )

  -- For an initiator and a responder between which the Lakers library completes a handshake, two
  -- boards with fresh sessions of these, each call given the message that the call before has left
  -- in a buffer of the handlers: all four calls return success, and both sessions end finished,
  -- with the exporter contexts they had, and export the same bytes.
  pub handshake_completes :
      (fw fw' : Firmware p)
      → fw.session ≡ of_initiator (InitiatorPhase.start i) context
      → fw'.session ≡ of_responder (ResponderPhase.start r) context'
      → Returns
          (lakers_edhoc_make_message_1 fresh_buffer fw)
          (λ a fw₁. Second context context' fw' a fw₁)
  handshake_completes fw fw' e e' =
      Returns-mono _ _ _ (make_1 edhoc context fw e) (λ a fw₁ h. second fw₁ fw' a e' h)
