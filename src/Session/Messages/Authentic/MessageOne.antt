-- ===== src/Session/Messages/Authentic/MessageOne.antt =====
-- components/lakers_ffi/rust/src/lib.rs: the call that makes message 1: what the library
-- answered, and the bytes that are left for the peer.
use espnow_edhoc.Prelude.{
  ℕ, ◌≤◌, ◌≡◌, refl, ap, false, ◌⊎◌, inl, inr, Option, none, some, List, length, arith, subst,
}
use espnow_edhoc.Memory.{pointee}
use espnow_edhoc.Platform.{Platform}
use espnow_edhoc.Firmware.{InitiatorPhase, Session, initiator, Firmware}
use espnow_edhoc.Firmware.Contracts.{Returns, Returns-bind, Returns-both}
use espnow_edhoc.Session.{Status, is_status_ok, Out, protocol_failed, role_initiator}
use espnow_edhoc.Session.Protocol.{
  IfSome, Fits, MessagesFit, refusal-not_ok, context_of, HasRoom, Answers, i_start, i_wait_m2,
}
use espnow_edhoc.Session.Messages.{
  ◌>>?◌, make_m1, make_m1_at, make_m1_in, lakers_edhoc_make_message_1, finish_initiator,
}
use espnow_edhoc.Session.Messages.Calls.{copy_output_lem, with_output_cases}
use espnow_edhoc.Session.Messages.Initiator.{make_message_1-Answers}
use espnow_edhoc.Session.Messages.Authentic.{Gives, Gives-link, Left}
use espnow_edhoc.Session.Messages.Authentic.Initiator.{at_initiator}

-- A fresh initiator session has had the library make message 1, waits with what the library gave,
-- with its exporter context, and the buffer holds the message.
pub record Made1 {p : Platform} (out : Out) (fw : Firmware p) (out' : Out) (fw' : Firmware p)
    : Type 0 where
  pub fresh : p.lakers.Initiator
  pub wait : p.lakers.WaitM2
  pub message_1 : List ℕ
  pub started : fw.session ≡ at_initiator (InitiatorPhase.start fresh) (context_of fw.session)
  pub prepares : p.lakers.prepare_message_1 fresh fw.world ≡ (some (wait, message_1), fw'.world)
  pub waits : fw'.session ≡ at_initiator (InitiatorPhase.wait_m2 wait) (context_of fw.session)
  pub left : Left message_1 out out'

-- success, only if made
abbrev pub OnlyMade1 : {p : Platform} → Out → Firmware p → Status × Out → Firmware p → Type 0
OnlyMade1 out fw (answer, out') fw' = (is_status_ok answer ≡ false) ⊎ Made1 out fw out' fw'

-- what the chain yields: the phase that waits, and message 1
abbrev Yield1 :
    (p : Platform) → p.lakers.Initiator → p.World → InitiatorPhase p × List ℕ → p.World → Type 0
Yield1 p i w (phase, message_1) w' =
    (wait : p.lakers.WaitM2) × (phase ≡ InitiatorPhase.wait_m2 wait)
    × (p.lakers.prepare_message_1 i w ≡ (some (wait, message_1), w'))

make_m1-Yield1 :
    {p : Platform} (i : p.lakers.Initiator) (fw : Firmware p)
    → Gives (make_m1 i fw) (Yield1 p i fw.world)
unfolding make_m1 ◌>>?◌
make_m1-Yield1 {p} i fw =
    Gives-link (p.lakers.prepare_message_1 i) _ fw (Yield1 p i fw.world)
      λ t w' prepares. (t.0, refl, prepares)

module _ {p : Platform} (laws : MessagesFit p) (out out' : Out) (fw : Firmware p)
    (same : out'.output ≡ out.output) (room : 192 ≤ length (pointee out'.output)) where
  finish_initiator-OnlyMade1 :
      (i : p.lakers.Initiator) (context : List ℕ) (fw₁ : Firmware p)
      (r : Option (InitiatorPhase p × List ℕ))
      → fw.session ≡ at_initiator (InitiatorPhase.start i) context
      → IfSome (λ t. Yield1 p i fw.world t fw₁.world) r
      → Returns (finish_initiator out' context r fw₁) (λ a fw'. OnlyMade1 out fw a fw')
  unfolding finish_initiator protocol_failed
  finish_initiator-OnlyMade1 i context fw₁ none e v = inl refl
  finish_initiator-OnlyMade1 i context fw₁ (some (phase, message_1)) e (wait, is_wait, v) =
      let k : context_of fw.session ≡ context = ap context_of e in
      let fits : length message_1 ≤ 192 =
        subst (IfSome Fits) (ap (λ r. r.0) v) (laws.m1_fits i fw.world) in
      rw (copy_output_lem message_1 out' (omega arith)) (
        inr (record {
          fresh = i;
          wait = wait;
          message_1 = message_1;
          started = rw k e;
          prepares = v;
          waits = rw (k, is_wait) refl;
          left = record { bytes = rw same refl; size = refl };
        }))

  make_m1_at-OnlyMade1 :
      (context : List ℕ) (phase : InitiatorPhase p)
      → fw.session ≡ at_initiator phase context
      → Returns (make_m1_at out' context phase fw) (λ a fw'. OnlyMade1 out fw a fw')
  unfolding make_m1_at
  make_m1_at-OnlyMade1 context (InitiatorPhase.start i) e =
      Returns-bind (make_m1 i fw) (finish_initiator out' context) _ _ (make_m1-Yield1 i fw)
        (λ r fw₁ v. finish_initiator-OnlyMade1 i context fw₁ r e v)
  make_m1_at-OnlyMade1 context _ e = inl refl

  make_m1_in-OnlyMade1 :
      (s : Session p)
      → fw.session ≡ s
      → Returns (make_m1_in s out' fw) (λ a fw'. OnlyMade1 out fw a fw')
  unfolding make_m1_in
  make_m1_in-OnlyMade1 (initiator s) e = make_m1_at-OnlyMade1 s.exporter_context s.phase e
  make_m1_in-OnlyMade1 _ e = inl refl

-- On a buffer as large as its capacity says, the call returns and writes inside the buffer. It
-- takes a fresh initiator session to the wait for message 2, fails the session with a protocol
-- error, or refuses and leaves the session alone. On success the session waits with what the
-- library gave with message 1, and the buffer begins with the bytes of that message, is as before
-- behind them, and the length is theirs. Messages of the Lakers library hold at most 192 bytes.
pub lakers_edhoc_make_message_1_lem :
    {p : Platform} (laws : MessagesFit p) (out : Out) (fw : Firmware p)
    → HasRoom out
    → Returns
        (lakers_edhoc_make_message_1 out fw)
        (λ a fw'. Answers i_start i_wait_m2 role_initiator fw a.0 a.1 fw' × OnlyMade1 out fw a fw')
unfolding lakers_edhoc_make_message_1
lakers_edhoc_make_message_1_lem laws out fw room =
    Returns-both (lakers_edhoc_make_message_1 out fw) _ (λ a fw'. OnlyMade1 out fw a fw')
      (make_message_1-Answers laws out fw room)
      (with_output_cases (make_m1_in fw.session) out fw (λ a fw'. OnlyMade1 out fw a fw') room
        (λ answer out' h. inl (refusal-not_ok answer h))
        (λ out' same room'. make_m1_in-OnlyMade1 laws out out' fw same room' fw.session refl))
