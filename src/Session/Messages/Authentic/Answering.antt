-- ===== src/Session/Messages/Authentic/Answering.antt =====
-- components/lakers_ffi/rust/src/lib.rs: the call that takes message 1 and makes message 2: what
-- the library answered, and the bytes that are left for the peer.
use espnow_edhoc.Prelude.{
  ℕ, ◌≤◌, ◌≡◌, refl, ap, false, ◌⊎◌, inl, inr, Option, none, some, List, length, take, arith, subst,
}
use espnow_edhoc.Memory.{pointee}
use espnow_edhoc.Platform.{Platform}
use espnow_edhoc.Firmware.{ResponderPhase, Session, responder, Firmware}
use espnow_edhoc.Firmware.Contracts.{Returns, Returns-bind, Returns-both}
use espnow_edhoc.Session.{Status, is_status_ok, Out, protocol_failed, role_responder}
use espnow_edhoc.Session.Protocol.{
  IfSome, Fits, MessagesFit, refusal-not_ok, context_of, Readable, HasRoom, Answers, r_start,
  r_wait_m3,
}
use espnow_edhoc.Session.Messages.{
  ◌>>?◌, answer_m1, process_m1_at, process_m1_in, process_m1_rest, lakers_edhoc_process_message_1,
  finish_responder,
}
use espnow_edhoc.Session.Messages.Calls.{copy_output_lem, with_output_cases, with_message_lem}
use espnow_edhoc.Session.Messages.Responder.{process_message_1-Answers}
use espnow_edhoc.Session.Messages.Authentic.{Gives, Gives-link, Left}

-- a session of a responder
abbrev pub at_responder : {p : Platform} → ResponderPhase p → List ℕ → Session p
at_responder phase context = responder (record { phase = phase; exporter_context = context })

-- A fresh responder session has taken these bytes as message 1, the library has processed it and
-- made message 2 of it, the session waits with what the library gave, with its exporter context,
-- and the buffer holds message 2.
pub record Answered1 {p : Platform} (bytes : List ℕ) (out : Out) (fw : Firmware p) (out' : Out)
    (fw' : Firmware p) : Type 0 where
  pub fresh : p.lakers.Responder
  pub message_1 : p.lakers.Message1
  pub processed : p.lakers.ProcessedM1
  pub w₁ : p.World
  pub wait : p.lakers.WaitM3
  pub message_2 : List ℕ
  pub started : fw.session ≡ at_responder (ResponderPhase.start fresh) (context_of fw.session)
  pub reads : p.lakers.message_1_from_slice bytes ≡ some message_1
  pub processes : p.lakers.process_message_1 fresh message_1 fw.world ≡ (some processed, w₁)
  pub prepares : p.lakers.prepare_message_2 processed w₁ ≡ (some (wait, message_2), fw'.world)
  pub waits : fw'.session ≡ at_responder (ResponderPhase.wait_m3 wait) (context_of fw.session)
  pub left : Left message_2 out out'

-- success, only if answered
abbrev pub OnlyAnswered1 :
    {p : Platform} → List ℕ → Out → Firmware p → Status × Out → Firmware p → Type 0
OnlyAnswered1 bytes out fw (answer, out') fw' =
    (is_status_ok answer ≡ false) ⊎ Answered1 bytes out fw out' fw'

-- what the chain yields: the phase that waits, and message 2
abbrev Yield2 :
    (p : Platform)
    → p.lakers.Responder
    → p.lakers.Message1
    → p.World
    → ResponderPhase p × List ℕ
    → p.World
    → Type 0
Yield2 p r m w (phase, message_2) w' =
    (wait : p.lakers.WaitM3) × (processed : p.lakers.ProcessedM1) × (w₁ : p.World) × (phase
      ≡ ResponderPhase.wait_m3 wait)
    × (p.lakers.process_message_1 r m w ≡ (some processed, w₁))
    × (p.lakers.prepare_message_2 processed w₁ ≡ (some (wait, message_2), w'))

answer_m1-Yield2 :
    {p : Platform} (r : p.lakers.Responder) (m : p.lakers.Message1) (fw : Firmware p)
    → Gives (answer_m1 r m fw) (Yield2 p r m fw.world)
unfolding answer_m1 ◌>>?◌
answer_m1-Yield2 {p} r m fw =
    Gives-link (p.lakers.process_message_1 r m) _ fw (Yield2 p r m fw.world)
      λ processed w₁ processes.
        Gives-link {p = p} (p.lakers.prepare_message_2 processed) _ (record fw { world = w₁ })
          (Yield2 p r m fw.world) λ t w' prepares. (t.0, processed, w₁, refl, processes, prepares)

module _ {p : Platform} (laws : MessagesFit p) (bytes : List ℕ) (out out' : Out) (fw : Firmware p)
    (message : p.lakers.Message1) (reads : p.lakers.message_1_from_slice bytes ≡ some message)
    (same : out'.output ≡ out.output) (room : 192 ≤ length (pointee out'.output)) where
  finish_responder-OnlyAnswered1 :
      (fresh : p.lakers.Responder) (context : List ℕ) (fw₁ : Firmware p)
      (r : Option (ResponderPhase p × List ℕ))
      → fw.session ≡ at_responder (ResponderPhase.start fresh) context
      → IfSome (λ t. Yield2 p fresh message fw.world t fw₁.world) r
      → Returns (finish_responder out' context r fw₁) (λ a fw'. OnlyAnswered1 bytes out fw a fw')
  unfolding finish_responder protocol_failed
  finish_responder-OnlyAnswered1 fresh context fw₁ none e v = inl refl
  finish_responder-OnlyAnswered1 fresh context fw₁ (some (phase, message_2)) e
        (wait, processed, w₁, is_wait, processes, prepares) =
      let k : context_of fw.session ≡ context = ap context_of e in
      let fits : length message_2 ≤ 192 =
        subst (IfSome Fits) (ap (λ r. r.0) prepares) (laws.m2_fits processed w₁) in
      rw (copy_output_lem message_2 out' (omega arith)) (
        inr (record {
          fresh = fresh;
          message_1 = message;
          processed = processed;
          w₁ = w₁;
          wait = wait;
          message_2 = message_2;
          started = rw k e;
          reads = reads;
          processes = processes;
          prepares = prepares;
          waits = rw (k, is_wait) refl;
          left = record { bytes = rw same refl; size = refl };
        }))

  process_m1_at-OnlyAnswered1 :
      (context : List ℕ) (phase : ResponderPhase p)
      → fw.session ≡ at_responder phase context
      → Returns
          (process_m1_at out' context phase message fw)
          (λ a fw'. OnlyAnswered1 bytes out fw a fw')
  unfolding process_m1_at
  process_m1_at-OnlyAnswered1 context (ResponderPhase.start fresh) e =
      Returns-bind (answer_m1 fresh message fw) (finish_responder out' context) _ _
        (answer_m1-Yield2 fresh message fw)
        (λ r fw₁ v. finish_responder-OnlyAnswered1 fresh context fw₁ r e v)
  process_m1_at-OnlyAnswered1 context _ e = inl refl

  process_m1_in-OnlyAnswered1 :
      (s : Session p)
      → fw.session ≡ s
      → Returns (process_m1_in s out' message fw) (λ a fw'. OnlyAnswered1 bytes out fw a fw')
  unfolding process_m1_in
  process_m1_in-OnlyAnswered1 (responder s) e =
      process_m1_at-OnlyAnswered1 s.exporter_context s.phase e
  process_m1_in-OnlyAnswered1 _ e = inl refl

-- On a readable input and a buffer as large as its capacity says, the call returns and writes
-- inside the buffer. It takes a fresh responder session to the wait for message 3, fails the
-- session with a protocol error, or refuses and leaves the session alone. On success the library
-- has taken the bytes as message 1 and processed it, the session waits with what the library gave,
-- and the buffer begins with the bytes of the message 2 that the library made, is as before behind
-- them, and the length is theirs. Messages of the Lakers library hold at most 192 bytes.
pub lakers_edhoc_process_message_1_lem :
    {p : Platform} (laws : MessagesFit p) (input : Option (List ℕ)) (n : ℕ) (out : Out)
    (fw : Firmware p)
    → Readable input n
    → HasRoom out
    → Returns (lakers_edhoc_process_message_1 input n out fw) (λ a fw'.
      Answers r_start r_wait_m3 role_responder fw a.0 a.1 fw'
      × OnlyAnswered1 (take n (pointee input)) out fw a fw')
unfolding lakers_edhoc_process_message_1 process_m1_rest
lakers_edhoc_process_message_1_lem {p} laws input n out fw readable room =
    let bytes = take n (pointee input) in
    Returns-both (lakers_edhoc_process_message_1 input n out fw) _
      (λ a fw'. OnlyAnswered1 bytes out fw a fw')
      (process_message_1-Answers laws input n out fw readable room)
      (with_output_cases (process_m1_rest input n fw.session) out fw
        (λ a fw'. OnlyAnswered1 bytes out fw a fw') room
        (λ answer out' h. inl (refusal-not_ok answer h))
        (λ out' same room'.
          with_message_lem (λ status. (status, out')) p.lakers.message_1_from_slice
            (process_m1_in fw.session out') input n fw (λ a fw'. OnlyAnswered1 bytes out fw a fw')
            readable (inl refl)
            (λ m reads.
              process_m1_in-OnlyAnswered1 laws bytes out out' fw m reads same room' fw.session
                refl)))
