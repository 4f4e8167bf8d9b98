-- ===== src/Session/Messages/Authentic/Initiator.antt =====
-- components/lakers_ffi/rust/src/lib.rs: the checks behind a finished initiator, and its message 3.
use espnow_edhoc.Prelude.{
  ℕ, ◌≤◌, ◌≡◌, refl, ap, false, ◌⊎◌, inl, inr, Option, none, some, List, ◌++◌, drop, length, take,
  arith, subst,
}
use espnow_edhoc.Memory.{pointee}
use espnow_edhoc.Platform.{Platform}
use espnow_edhoc.Firmware.{InitiatorPhase, Session, initiator, Firmware}
use espnow_edhoc.Firmware.Contracts.{Returns, Returns-bind, Returns-both}
use espnow_edhoc.Session.{Status, is_status_ok, Out, protocol_failed, role_initiator}
use espnow_edhoc.Session.Credentials.{cred_r}
use espnow_edhoc.Session.Protocol.{
  IfSome, Fits, MessagesFit, refusal-not_ok, context_of, Readable, HasRoom, Answers, i_wait_m2,
  i_done,
}
use espnow_edhoc.Session.Messages.{
  ◌>>?◌, complete_m2, finish_initiator, process_m2_at, process_m2_in, process_m2_rest,
  lakers_edhoc_process_message_2,
}
use espnow_edhoc.Session.Messages.Calls.{copy_output_lem, with_output_cases, with_message_lem}
use espnow_edhoc.Session.Messages.Initiator.{process_message_2-Answers}
use espnow_edhoc.Session.Messages.Authentic.{Gives, Gives-link, Gives-pure}

-- The checks of message 2 in the order of the calls, each with the world after it: the library
-- parses the message, takes the credential of the responder that the firmware embeds, accepts it
-- for the identifier in the message, and verifies the message with what it then gives; of that it
-- makes message 3.
pub record Verified2 (p : Platform) (wait : p.lakers.WaitM2) (message : p.lakers.Message2)
    (w : p.World) (done : p.lakers.Done) (message_3 : List ℕ) (w' : p.World) : Type 0 where
  pub parsed : p.lakers.ProcessingM2 × p.lakers.IdCred
  pub expected : p.lakers.Credential
  pub valid : p.lakers.Credential
  pub processed : p.lakers.ProcessedM2
  pub wait_m4 : p.lakers.WaitM4
  pub w₁ : p.World
  pub w₂ : p.World
  pub w₃ : p.World
  pub w₄ : p.World
  pub parses : p.lakers.parse_message_2 wait message w ≡ (some parsed, w₁)
  pub embedded : p.lakers.parse_ccs cred_r ≡ some expected
  pub identifies : p.lakers.credential_check_or_fetch expected parsed.1 w₁ ≡ (some valid, w₂)
  pub verifies : p.lakers.verify_message_2 parsed.0 valid w₂ ≡ (some processed, w₃)
  pub prepares : p.lakers.prepare_message_3 processed w₃ ≡ (some (wait_m4, message_3), w₄)
  pub completes : p.lakers.wait_m4_completed wait_m4 w₄ ≡ (some done, w')

-- what the chain yields: the finished phase and message 3
abbrev Yield :
    (p : Platform)
    → p.lakers.WaitM2
    → p.lakers.Message2
    → p.World
    → InitiatorPhase p × List ℕ
    → p.World
    → Type 0
Yield p wait message w (phase, message_3) w' =
    (done : p.lakers.Done) × (phase ≡ InitiatorPhase.done done)
    × Verified2 p wait message w done message_3 w'

complete_m2-Verified2 :
    {p : Platform} (wait : p.lakers.WaitM2) (message : p.lakers.Message2) (fw : Firmware p)
    → Gives (complete_m2 wait message fw) (Yield p wait message fw.world)
unfolding complete_m2 ◌>>?◌
complete_m2-Verified2 {p} wait message fw =
    Gives-link (p.lakers.parse_message_2 wait message) _ fw P λ parsed w₁ parses.
      Gives-pure (p.lakers.parse_ccs cred_r) _ _ P λ expected embedded.
        Gives-link (p.lakers.credential_check_or_fetch expected parsed.1) _ _ P
          λ valid w₂ identifies.
            Gives-link (p.lakers.verify_message_2 parsed.0 valid) _ _ P λ processed w₃ verifies.
              Gives-link (p.lakers.prepare_message_3 processed) _ _ P λ t w₄ prepares.
                Gives-link {p = p} (p.lakers.wait_m4_completed t.0) _ (record fw { world = w₄ }) P
                  λ done w' completes. (
                    done,
                    refl,
                    record {
                      parsed = parsed;
                      expected = expected;
                      valid = valid;
                      processed = processed;
                      wait_m4 = t.0;
                      w₁ = w₁;
                      w₂ = w₂;
                      w₃ = w₃;
                      w₄ = w₄;
                      parses = parses;
                      embedded = embedded;
                      identifies = identifies;
                      verifies = verifies;
                      prepares = prepares;
                      completes = completes;
                    },
                  )
  where
    P : InitiatorPhase p × List ℕ → p.World → Type 0
    P = Yield p wait message fw.world

-- a session of an initiator
abbrev pub at_initiator : {p : Platform} → InitiatorPhase p → List ℕ → Session p
at_initiator phase context = initiator (record { phase = phase; exporter_context = context })

-- A session that waited for message 2 has taken these bytes as message 2, the library has verified
-- it, the session is finished with what the library gave, with its exporter context, and the buffer
-- holds the message 3 that the library made.
pub record Authenticated2 {p : Platform} (bytes : List ℕ) (out : Out) (fw : Firmware p) (out' : Out)
    (fw' : Firmware p) : Type 0 where
  pub wait : p.lakers.WaitM2
  pub message : p.lakers.Message2
  pub done : p.lakers.Done
  pub message_3 : List ℕ
  pub waited : fw.session ≡ at_initiator (InitiatorPhase.wait_m2 wait) (context_of fw.session)
  pub reads : p.lakers.message_2_from_slice bytes ≡ some message
  pub verified : Verified2 p wait message fw.world done message_3 fw'.world
  pub finished : fw'.session ≡ at_initiator (InitiatorPhase.done done) (context_of fw.session)
  pub left : out'.output ≡ some (message_3 ++ drop (length message_3) (pointee out.output))
  pub left_length : out'.output_length ≡ some (length message_3)

-- success, only if authenticated
abbrev pub OnlyAuthentic2 :
    {p : Platform} → List ℕ → Out → Firmware p → Status × Out → Firmware p → Type 0
OnlyAuthentic2 bytes out fw (answer, out') fw' =
    (is_status_ok answer ≡ false) ⊎ Authenticated2 bytes out fw out' fw'

Verified2-Fits :
    {p : Platform} (laws : MessagesFit p) (wait : p.lakers.WaitM2) (message : p.lakers.Message2)
    (w : p.World) (done : p.lakers.Done) (message_3 : List ℕ) (w' : p.World)
    → Verified2 p wait message w done message_3 w'
    → length message_3 ≤ 192
Verified2-Fits laws wait message w done message_3 w' v =
    subst (IfSome Fits) (ap (λ r. r.0) v.prepares) (laws.m3_fits v.processed v.w₃)

module _ {p : Platform} (laws : MessagesFit p) (bytes : List ℕ) (out out' : Out) (fw : Firmware p)
    (message : p.lakers.Message2) (reads : p.lakers.message_2_from_slice bytes ≡ some message)
    (same : out'.output ≡ out.output) (room : 192 ≤ length (pointee out'.output)) where
  finish_initiator-OnlyAuthentic2 :
      (wait : p.lakers.WaitM2) (context : List ℕ) (fw₁ : Firmware p)
      (r : Option (InitiatorPhase p × List ℕ))
      → fw.session ≡ at_initiator (InitiatorPhase.wait_m2 wait) context
      → IfSome (λ t. Yield p wait message fw.world t fw₁.world) r
      → Returns (finish_initiator out' context r fw₁) (λ a fw'. OnlyAuthentic2 bytes out fw a fw')
  unfolding finish_initiator protocol_failed
  finish_initiator-OnlyAuthentic2 wait context fw₁ none e v = inl refl
  finish_initiator-OnlyAuthentic2 wait context fw₁ (some (phase, message_3)) e (done, is_done, v) =
      let k : context_of fw.session ≡ context = ap context_of e in
      let fits = Verified2-Fits laws wait message fw.world done message_3 fw₁.world v in
      rw (copy_output_lem message_3 out' (omega arith)) (
        inr (record {
          wait = wait;
          message = message;
          done = done;
          message_3 = message_3;
          waited = rw k e;
          reads = reads;
          verified = v;
          finished = rw (k, is_done) refl;
          left = rw same refl;
          left_length = refl;
        }))

  process_m2_at-OnlyAuthentic2 :
      (context : List ℕ) (phase : InitiatorPhase p)
      → fw.session ≡ at_initiator phase context
      → Returns
          (process_m2_at out' context phase message fw)
          (λ a fw'. OnlyAuthentic2 bytes out fw a fw')
  unfolding process_m2_at
  process_m2_at-OnlyAuthentic2 context (InitiatorPhase.wait_m2 wait) e =
      Returns-bind (complete_m2 wait message fw) (finish_initiator out' context) _ _
        (complete_m2-Verified2 wait message fw)
        (λ r fw₁ v. finish_initiator-OnlyAuthentic2 wait context fw₁ r e v)
  process_m2_at-OnlyAuthentic2 context _ e = inl refl

  process_m2_in-OnlyAuthentic2 :
      (s : Session p)
      → fw.session ≡ s
      → Returns (process_m2_in s out' message fw) (λ a fw'. OnlyAuthentic2 bytes out fw a fw')
  unfolding process_m2_in
  process_m2_in-OnlyAuthentic2 (initiator s) e =
      process_m2_at-OnlyAuthentic2 s.exporter_context s.phase e
  process_m2_in-OnlyAuthentic2 _ e = inl refl

-- The call returns
pub process_message_2-Authentic :
    {p : Platform} (laws : MessagesFit p) (input : Option (List ℕ)) (n : ℕ) (out : Out)
    (fw : Firmware p)
    → Readable input n
    → HasRoom out
    → Returns
        (lakers_edhoc_process_message_2 input n out fw)
        (λ a fw'. OnlyAuthentic2 (take n (pointee input)) out fw a fw')
unfolding lakers_edhoc_process_message_2 process_m2_rest
process_message_2-Authentic {p} laws input n out fw readable room =
    let bytes = take n (pointee input) in
    with_output_cases (process_m2_rest input n fw.session) out fw
      (λ a fw'. OnlyAuthentic2 bytes out fw a fw') room
      (λ answer out' h. inl (refusal-not_ok answer h))
      (λ out' same room'.
        with_message_lem (λ status. (status, out')) p.lakers.message_2_from_slice
          (process_m2_in fw.session out') input n fw (λ a fw'. OnlyAuthentic2 bytes out fw a fw')
          readable (inl refl)
          (λ m reads.
            process_m2_in-OnlyAuthentic2 laws bytes out out' fw m reads same room' fw.session refl))

-- On a readable input and a buffer as large as its capacity says, the call returns and writes
-- inside the buffer. It takes an initiator session that waits for message 2 to the finished
-- handshake, fails the session with a protocol error, or refuses and leaves the session alone. On
-- success the library has verified the bytes as message 2 of the embedded credential, the session
-- is finished with what the library gave, and the buffer begins with the bytes of the message 3
-- that the library made, is as before behind them, and the length is theirs. Messages of the
-- Lakers library hold at most 192 bytes.
pub lakers_edhoc_process_message_2_lem :
    {p : Platform} (laws : MessagesFit p) (input : Option (List ℕ)) (n : ℕ) (out : Out)
    (fw : Firmware p)
    → Readable input n
    → HasRoom out
    → Returns (lakers_edhoc_process_message_2 input n out fw) (λ a fw'.
      Answers i_wait_m2 i_done role_initiator fw a.0 a.1 fw'
      × OnlyAuthentic2 (take n (pointee input)) out fw a fw')
lakers_edhoc_process_message_2_lem laws input n out fw readable room =
    Returns-both (lakers_edhoc_process_message_2 input n out fw) _
      (λ a fw'. OnlyAuthentic2 (take n (pointee input)) out fw a fw')
      (process_message_2-Answers laws input n out fw readable room)
      (process_message_2-Authentic laws input n out fw readable room)
