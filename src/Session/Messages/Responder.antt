-- ===== src/Session/Messages/Responder.antt =====
-- The responder's calls of components/lakers_ffi/rust/src/lib.rs keep to the protocol.
use espnow_edhoc.Prelude.{inr, inl, ℕ, ◌≤◌, ◌≡◌, refl, Option, none, some, List, arith, length}
use espnow_edhoc.Memory.{pointee}
use espnow_edhoc.Platform.{Platform}
use espnow_edhoc.Firmware.{ResponderPhase, Session, responder, Firmware, call}
use espnow_edhoc.Firmware.Contracts.{Returns, Returns-bind, SameStatics}
use espnow_edhoc.Session.{
  Status, status_wrong_state, status_invalid_argument, Out, protocol_failed, role_responder,
}
use espnow_edhoc.Session.Protocol.{
  Fits, IfSome, view, responder_view, context_of, Phase, r_start, r_wait_m3, r_done, Answers,
  MessagesFit, HasRoom, Readable, Follows, succeeds, fails, refuses,
}
use espnow_edhoc.Session.Messages.Calls.{
  copy_output_lem, LengthFits-written, refused, IfSome-any, Yields, Yields-call, Yields->>?,
  Yields-link, with_output_lem, with_message_lem,
}
use espnow_edhoc.Session.Messages.{
  finish_responder, answer_m1, process_m1_at, process_m1_in, process_m1_rest,
  lakers_edhoc_process_message_1, finish_m3, complete_m3, process_m3_at, process_m3_in,
  lakers_edhoc_process_message_3,
}

-- the library's answer: a phase that looks like `to`, and a message that fits
abbrev IsAnswer : {p : Platform} → Phase → ResponderPhase p × List ℕ → Type 0
IsAnswer to (phase, bytes) = (responder_view phase ≡ to) × (length bytes ≤ 192)

module _ {p : Platform} (from to : Phase) (fw : Firmware p) (context : List ℕ) (out : Out)
    (from_eq : view fw.session ≡ from) (kept : context ≡ context_of fw.session)
    (room : 192 ≤ length (pointee out.output)) where
  -- `match result` of the responder's calls
  finish_responder_lem :
      (fw₁ : Firmware p) (r : Option (ResponderPhase p × List ℕ))
      → SameStatics fw fw₁
      → IfSome (IsAnswer to) r
      → Returns
          (finish_responder out context r fw₁)
          (λ a fw'. Answers from to role_responder fw a.0 a.1 fw')
  unfolding finish_responder protocol_failed
  finish_responder_lem fw₁ none same h = record {
    follows = fails refl from_eq refl;
    message = inl refl;
    same = same;
  }
  finish_responder_lem fw₁ (some (phase, bytes)) same h =
      rw (copy_output_lem bytes out (omega arith)) (record {
        follows = succeeds refl from_eq h.0 kept;
        message = inr (LengthFits-written bytes out h.1);
        same = same;
      })

answer_m1_lem :
    {p : Platform} (laws : MessagesFit p) (r : p.lakers.Responder) (m : p.lakers.Message1)
    → Yields p (IsAnswer r_wait_m3) (answer_m1 r m)
unfolding answer_m1
answer_m1_lem {p} laws r m =
    Yields-link (IsAnswer r_wait_m3) (p.lakers.process_message_1 r m) _ λ processed.
      Yields->>? Fits (IsAnswer r_wait_m3) (call (p.lakers.prepare_message_2 processed)) _
        (Yields-call Fits (p.lakers.prepare_message_2 processed) (laws.m2_fits processed))
        (λ t h fw. ((refl, refl), (refl, h)))

process_m1_at_lem :
    {p : Platform} (laws : MessagesFit p) (out : Out) (fw : Firmware p) (phase : ResponderPhase p)
    (context : List ℕ) (m : p.lakers.Message1)
    → 192 ≤ length (pointee out.output)
    → view fw.session ≡ responder_view phase
    → context ≡ context_of fw.session
    → Returns
        (process_m1_at out context phase m fw)
        (λ a fw'. Answers r_start r_wait_m3 role_responder fw a.0 a.1 fw')
unfolding process_m1_at
process_m1_at_lem laws out fw (ResponderPhase.start w) context m room v k =
    Returns-bind (answer_m1 w m fw) (finish_responder out context)
      (λ r fw₁. SameStatics fw fw₁ × IfSome (IsAnswer r_wait_m3) r)
      (λ a fw'. Answers r_start r_wait_m3 role_responder fw a.0 a.1 fw') (answer_m1_lem laws w m fw)
      (λ r fw₁ h. finish_responder_lem r_start r_wait_m3 fw context out v k room fw₁ r h.0 h.1)
process_m1_at_lem laws out fw _ context m room v k =
    refused r_start r_wait_m3 role_responder fw status_wrong_state out refl

process_m1_in_lem :
    {p : Platform} (laws : MessagesFit p) (s : Session p) (out : Out) (fw : Firmware p)
    (m : p.lakers.Message1)
    → fw.session ≡ s
    → 192 ≤ length (pointee out.output)
    → Returns
        (process_m1_in s out m fw)
        (λ a fw'. Answers r_start r_wait_m3 role_responder fw a.0 a.1 fw')
unfolding process_m1_in
process_m1_in_lem laws (responder s) out fw m e room =
    process_m1_at_lem laws out fw s.phase s.exporter_context m room (rw e refl) (rw e refl)
process_m1_in_lem laws _ out fw m e room =
    refused r_start r_wait_m3 role_responder fw status_wrong_state out refl

-- The call returns and writes inside its buffer: it takes a fresh responder session to the wait
-- for message 3 and leaves a length of at most 192, or fails the session with a protocol error, or
-- refuses and leaves the session alone.
pub process_message_1-Answers :
    {p : Platform} (laws : MessagesFit p) (input : Option (List ℕ)) (n : ℕ) (out : Out)
    (fw : Firmware p)
    → Readable input n
    → HasRoom out
    → Returns
        (lakers_edhoc_process_message_1 input n out fw)
        (λ a fw'. Answers r_start r_wait_m3 role_responder fw a.0 a.1 fw')
unfolding lakers_edhoc_process_message_1 process_m1_rest
process_message_1-Answers {p} laws input n out fw readable room =
    with_output_lem r_start r_wait_m3 role_responder (process_m1_rest input n fw.session) out fw
      room
      (λ out' room'.
        with_message_lem (λ status. (status, out')) p.lakers.message_1_from_slice
          (process_m1_in fw.session out') input n fw
          (λ a fw'. Answers r_start r_wait_m3 role_responder fw a.0 a.1 fw') readable
          (refused r_start r_wait_m3 role_responder fw status_invalid_argument out' refl)
          (λ m _. process_m1_in_lem laws fw.session out' fw m refl room'))

-- what the call that takes message 3 promises
abbrev pub Completes : {p : Platform} → Firmware p → Status → Firmware p → Type 0
Completes fw status fw' =
    Follows r_wait_m3 r_done role_responder fw.session status fw'.session × SameStatics fw fw'

complete_m3_lem :
    {p : Platform} (w : p.lakers.WaitM3) (m : p.lakers.Message3)
    → Yields p (λ _. Unit {0}) (complete_m3 w m)
unfolding complete_m3
complete_m3_lem {p} w m = Yields-link Q (p.lakers.parse_message_3 w m) _ λ parsed.
    Yields->>? Q Q _ _ (λ fw. ((refl, refl), IfSome-any _))
      λ expected _. Yields-link Q (p.lakers.credential_check_or_fetch expected parsed.1) _ λ valid.
        Yields-link Q (p.lakers.verify_message_3 parsed.0 valid) _
          λ processed fw. ((refl, refl), IfSome-any _)
  where
    Q : {A : Type 0} → A → Type 0
    Q a = Unit {0}

finish_m3_lem :
    {p : Platform} (fw fw₁ : Firmware p) (context : List ℕ) (r : Option p.lakers.Done)
    → view fw.session ≡ r_wait_m3
    → context ≡ context_of fw.session
    → SameStatics fw fw₁
    → Returns (finish_m3 context r fw₁) (λ status fw'. Completes fw status fw')
unfolding finish_m3 protocol_failed
finish_m3_lem fw fw₁ context none v k same = (fails refl v refl, same)
finish_m3_lem fw fw₁ context (some done) v k same = (succeeds refl v refl k, same)

process_m3_at_lem :
    {p : Platform} (fw : Firmware p) (phase : ResponderPhase p) (context : List ℕ)
    (m : p.lakers.Message3)
    → view fw.session ≡ responder_view phase
    → context ≡ context_of fw.session
    → Returns (process_m3_at context phase m fw) (λ status fw'. Completes fw status fw')
unfolding process_m3_at
process_m3_at_lem {p} fw (ResponderPhase.wait_m3 w) context m v k =
    Returns-bind (complete_m3 w m fw) (finish_m3 context)
      (λ r fw₁. SameStatics fw fw₁ × IfSome (λ _. Unit {0}) r)
      (λ status fw'. Completes fw status fw') (complete_m3_lem w m fw)
      (λ r fw₁ h. finish_m3_lem fw fw₁ context r v k h.0)
process_m3_at_lem fw _ context m v k = (refuses refl refl, (refl, refl))

process_m3_in_lem :
    {p : Platform} (s : Session p) (fw : Firmware p) (m : p.lakers.Message3)
    → fw.session ≡ s
    → Returns (process_m3_in s m fw) (λ status fw'. Completes fw status fw')
unfolding process_m3_in
process_m3_in_lem (responder s) fw m e =
    process_m3_at_lem fw s.phase s.exporter_context m (rw e refl) (rw e refl)
process_m3_in_lem _ fw m e = (refuses refl refl, (refl, refl))

-- The call returns: it takes a responder session that waits for message 3 to the finished
-- handshake, or fails the session with a protocol error, or refuses and leaves the session alone.
pub process_message_3-Completes :
    {p : Platform} (input : Option (List ℕ)) (n : ℕ) (fw : Firmware p)
    → Readable input n
    → Returns (lakers_edhoc_process_message_3 input n fw) (λ status fw'. Completes fw status fw')
unfolding lakers_edhoc_process_message_3
process_message_3-Completes {p} input n fw readable =
    with_message_lem (λ status. status) p.lakers.message_3_from_slice (process_m3_in fw.session)
      input n fw (λ status fw'. Completes fw status fw') readable (refuses refl refl, (refl, refl))
      (λ m _. process_m3_in_lem fw.session fw m refl)
