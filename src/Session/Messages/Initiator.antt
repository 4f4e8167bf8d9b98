-- ===== src/Session/Messages/Initiator.antt =====
-- The initiator's calls of components/lakers_ffi/rust/src/lib.rs keep to the protocol.
use espnow_edhoc.Prelude.{inr, inl, ℕ, ◌≤◌, ◌≡◌, refl, Option, none, some, List, arith, length}
use espnow_edhoc.Memory.{pointee}
use espnow_edhoc.Platform.{Platform}
use espnow_edhoc.Firmware.{InitiatorPhase, Session, initiator, Firmware, call}
use espnow_edhoc.Firmware.Contracts.{Returns, Returns-bind, SameStatics}
use espnow_edhoc.Session.{
  status_wrong_state, status_invalid_argument, Out, protocol_failed, role_initiator,
}
use espnow_edhoc.Session.Protocol.{
  Fits, IfSome, view, initiator_view, context_of, Phase, i_start, i_wait_m2, i_done, Answers,
  MessagesFit, HasRoom, Readable, succeeds, fails,
}
use espnow_edhoc.Session.Messages.Calls.{
  copy_output_lem, LengthFits-written, refused, IfSome-any, Yields, Yields-call, Yields->>?,
  Yields-link, with_output_lem, with_message_lem,
}
use espnow_edhoc.Session.Messages.{
  make_m1, finish_initiator, make_m1_at, make_m1_in, lakers_edhoc_make_message_1, complete_m2,
  process_m2_at, process_m2_in, process_m2_rest, lakers_edhoc_process_message_2,
}

-- the library's answer: a phase that looks like `to`, and a message that fits
abbrev IsAnswer : {p : Platform} → Phase → InitiatorPhase p × List ℕ → Type 0
IsAnswer to (phase, bytes) = (initiator_view phase ≡ to) × (length bytes ≤ 192)

module _ {p : Platform} (from to : Phase) (fw : Firmware p) (context : List ℕ) (out : Out)
    (from_eq : view fw.session ≡ from) (kept : context ≡ context_of fw.session)
    (room : 192 ≤ length (pointee out.output)) where
  -- `match result` of the initiator's calls
  finish_initiator_lem :
      (fw₁ : Firmware p) (r : Option (InitiatorPhase p × List ℕ))
      → SameStatics fw fw₁
      → IfSome (IsAnswer to) r
      → Returns
          (finish_initiator out context r fw₁)
          (λ a fw'. Answers from to role_initiator fw a.0 a.1 fw')
  unfolding finish_initiator protocol_failed
  finish_initiator_lem fw₁ none same h = record {
    follows = fails refl from_eq refl;
    message = inl refl;
    same = same;
  }
  finish_initiator_lem fw₁ (some (phase, bytes)) same h =
      rw (copy_output_lem bytes out (omega arith)) (record {
        follows = succeeds refl from_eq h.0 kept;
        message = inr (LengthFits-written bytes out h.1);
        same = same;
      })

make_m1_lem :
    {p : Platform} (laws : MessagesFit p) (i : p.lakers.Initiator)
    → Yields p (IsAnswer i_wait_m2) (make_m1 i)
unfolding make_m1
make_m1_lem {p} laws i =
    Yields->>? Fits (IsAnswer i_wait_m2) (call (p.lakers.prepare_message_1 i)) _
      (Yields-call Fits (p.lakers.prepare_message_1 i) (laws.m1_fits i))
      (λ t h fw. ((refl, refl), (refl, h)))

make_m1_at_lem :
    {p : Platform} (laws : MessagesFit p) (out : Out) (fw : Firmware p) (phase : InitiatorPhase p)
    (context : List ℕ)
    → 192 ≤ length (pointee out.output)
    → view fw.session ≡ initiator_view phase
    → context ≡ context_of fw.session
    → Returns
        (make_m1_at out context phase fw)
        (λ a fw'. Answers i_start i_wait_m2 role_initiator fw a.0 a.1 fw')
unfolding make_m1_at
make_m1_at_lem laws out fw (InitiatorPhase.start i) context room v k =
    Returns-bind (make_m1 i fw) (finish_initiator out context)
      (λ r fw₁. SameStatics fw fw₁ × IfSome (IsAnswer i_wait_m2) r)
      (λ a fw'. Answers i_start i_wait_m2 role_initiator fw a.0 a.1 fw') (make_m1_lem laws i fw)
      (λ r fw₁ h. finish_initiator_lem i_start i_wait_m2 fw context out v k room fw₁ r h.0 h.1)
make_m1_at_lem laws out fw _ context room v k =
    refused i_start i_wait_m2 role_initiator fw status_wrong_state out refl

make_m1_in_lem :
    {p : Platform} (laws : MessagesFit p) (s : Session p) (out : Out) (fw : Firmware p)
    → fw.session ≡ s
    → 192 ≤ length (pointee out.output)
    → Returns
        (make_m1_in s out fw)
        (λ a fw'. Answers i_start i_wait_m2 role_initiator fw a.0 a.1 fw')
unfolding make_m1_in
make_m1_in_lem laws (initiator s) out fw e room =
    make_m1_at_lem laws out fw s.phase s.exporter_context room (rw e refl) (rw e refl)
make_m1_in_lem laws _ out fw e room =
    refused i_start i_wait_m2 role_initiator fw status_wrong_state out refl

-- The call returns and writes inside its buffer: it takes a fresh initiator session to the wait
-- for message 2 and leaves a length of at most 192, or fails the session with a protocol
-- error, or refuses and leaves the session alone.
pub make_message_1-Answers :
    {p : Platform} (laws : MessagesFit p) (out : Out) (fw : Firmware p)
    → HasRoom out
    → Returns
        (lakers_edhoc_make_message_1 out fw)
        (λ a fw'. Answers i_start i_wait_m2 role_initiator fw a.0 a.1 fw')
unfolding lakers_edhoc_make_message_1
make_message_1-Answers laws out fw room =
    with_output_lem i_start i_wait_m2 role_initiator (make_m1_in fw.session) out fw room
      (λ out' room'. make_m1_in_lem laws fw.session out' fw refl room')

complete_m2_lem :
    {p : Platform} (laws : MessagesFit p) (w : p.lakers.WaitM2) (m : p.lakers.Message2)
    → Yields p (IsAnswer i_done) (complete_m2 w m)
unfolding complete_m2
complete_m2_lem {p} laws w m = Yields-link Q (p.lakers.parse_message_2 w m) _ λ parsed.
    Yields->>? (λ _. Unit {0}) Q _ _ (λ fw. ((refl, refl), IfSome-any _))
      λ expected _. Yields-link Q (p.lakers.credential_check_or_fetch expected parsed.1) _ λ valid.
        Yields-link Q (p.lakers.verify_message_2 parsed.0 valid) _ λ processed.
          Yields->>? Fits Q (call (p.lakers.prepare_message_3 processed)) _
            (Yields-call Fits (p.lakers.prepare_message_3 processed) (laws.m3_fits processed))
            λ t h.
              Yields-link Q (p.lakers.wait_m4_completed t.0) _ λ done fw. ((refl, refl), (refl, h))
  where
    Q : InitiatorPhase p × List ℕ → Type 0
    Q = IsAnswer i_done

process_m2_at_lem :
    {p : Platform} (laws : MessagesFit p) (out : Out) (fw : Firmware p) (phase : InitiatorPhase p)
    (context : List ℕ) (m : p.lakers.Message2)
    → 192 ≤ length (pointee out.output)
    → view fw.session ≡ initiator_view phase
    → context ≡ context_of fw.session
    → Returns
        (process_m2_at out context phase m fw)
        (λ a fw'. Answers i_wait_m2 i_done role_initiator fw a.0 a.1 fw')
unfolding process_m2_at
process_m2_at_lem laws out fw (InitiatorPhase.wait_m2 w) context m room v k =
    Returns-bind (complete_m2 w m fw) (finish_initiator out context)
      (λ r fw₁. SameStatics fw fw₁ × IfSome (IsAnswer i_done) r)
      (λ a fw'. Answers i_wait_m2 i_done role_initiator fw a.0 a.1 fw')
      (complete_m2_lem laws w m fw)
      (λ r fw₁ h. finish_initiator_lem i_wait_m2 i_done fw context out v k room fw₁ r h.0 h.1)
process_m2_at_lem laws out fw _ context m room v k =
    refused i_wait_m2 i_done role_initiator fw status_wrong_state out refl

process_m2_in_lem :
    {p : Platform} (laws : MessagesFit p) (s : Session p) (out : Out) (fw : Firmware p)
    (m : p.lakers.Message2)
    → fw.session ≡ s
    → 192 ≤ length (pointee out.output)
    → Returns
        (process_m2_in s out m fw)
        (λ a fw'. Answers i_wait_m2 i_done role_initiator fw a.0 a.1 fw')
unfolding process_m2_in
process_m2_in_lem laws (initiator s) out fw m e room =
    process_m2_at_lem laws out fw s.phase s.exporter_context m room (rw e refl) (rw e refl)
process_m2_in_lem laws _ out fw m e room =
    refused i_wait_m2 i_done role_initiator fw status_wrong_state out refl

-- The call returns and writes inside its buffer: it takes an initiator session that waits for
-- message 2 to the finished handshake and leaves a length of at most 192, or fails the session with a protocol
-- error, or refuses and leaves the session alone.
pub process_message_2-Answers :
    {p : Platform} (laws : MessagesFit p) (input : Option (List ℕ)) (n : ℕ) (out : Out)
    (fw : Firmware p)
    → Readable input n
    → HasRoom out
    → Returns
        (lakers_edhoc_process_message_2 input n out fw)
        (λ a fw'. Answers i_wait_m2 i_done role_initiator fw a.0 a.1 fw')
unfolding lakers_edhoc_process_message_2 process_m2_rest
process_message_2-Answers {p} laws input n out fw readable room =
    with_output_lem i_wait_m2 i_done role_initiator (process_m2_rest input n fw.session) out fw room
      (λ out' room'.
        with_message_lem (λ status. (status, out')) p.lakers.message_2_from_slice
          (process_m2_in fw.session out') input n fw
          (λ a fw'. Answers i_wait_m2 i_done role_initiator fw a.0 a.1 fw') readable
          (refused i_wait_m2 i_done role_initiator fw status_invalid_argument out' refl)
          (λ m _. process_m2_in_lem laws fw.session out' fw m refl room'))
