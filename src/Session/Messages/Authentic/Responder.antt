-- ===== src/Session/Messages/Authentic/Responder.antt =====
-- components/lakers_ffi/rust/src/lib.rs: the checks behind a finished responder.
use espnow_edhoc.Prelude.{ℕ, ◌≡◌, refl, ap, false, ◌⊎◌, inl, inr, Option, none, some, List, take}
use espnow_edhoc.Memory.{pointee}
use espnow_edhoc.Platform.{Platform}
use espnow_edhoc.Firmware.{ResponderPhase, Session, responder, Firmware}
use espnow_edhoc.Firmware.Contracts.{Returns, Returns-bind}
use espnow_edhoc.Session.{Status, is_status_ok, protocol_failed}
use espnow_edhoc.Session.Credentials.{cred_i}
use espnow_edhoc.Session.Protocol.{IfSome, context_of, Readable}
use espnow_edhoc.Session.Messages.{
  ◌>>?◌, complete_m3, finish_m3, process_m3_at, process_m3_in, lakers_edhoc_process_message_3,
}
use espnow_edhoc.Session.Messages.Calls.{with_message_lem}
use espnow_edhoc.Session.Messages.Authentic.{Gives, Gives-link, Gives-pure, Gives-last}

-- The checks of message 3 in the order of the calls, each with the world after it: the library
-- parses the message, takes the credential of the initiator that the firmware embeds, accepts it
-- for the identifier in the message, and verifies the message with what it then gives.
pub record Verified3 (p : Platform) (wait : p.lakers.WaitM3) (message : p.lakers.Message3)
    (w : p.World) (done : p.lakers.Done) (w' : p.World) : Type 0 where
  pub parsed : p.lakers.ProcessingM3 × p.lakers.IdCred
  pub expected : p.lakers.Credential
  pub valid : p.lakers.Credential
  pub processed : p.lakers.ProcessedM3
  pub w₁ : p.World
  pub w₂ : p.World
  pub w₃ : p.World
  pub parses : p.lakers.parse_message_3 wait message w ≡ (some parsed, w₁)
  pub embedded : p.lakers.parse_ccs cred_i ≡ some expected
  pub identifies : p.lakers.credential_check_or_fetch expected parsed.1 w₁ ≡ (some valid, w₂)
  pub verifies : p.lakers.verify_message_3 parsed.0 valid w₂ ≡ (some processed, w₃)
  pub completes : p.lakers.processed_m3_completed processed w₃ ≡ (some done, w')

complete_m3-Verified3 :
    {p : Platform} (wait : p.lakers.WaitM3) (message : p.lakers.Message3) (fw : Firmware p)
    → Gives (complete_m3 wait message fw) (λ done w'. Verified3 p wait message fw.world done w')
unfolding complete_m3 ◌>>?◌
complete_m3-Verified3 {p} wait message fw =
    Gives-link (p.lakers.parse_message_3 wait message) _ fw P λ parsed w₁ parses.
      Gives-pure (p.lakers.parse_ccs cred_i) _ _ P λ expected embedded.
        Gives-link (p.lakers.credential_check_or_fetch expected parsed.1) _ _ P
          λ valid w₂ identifies.
            Gives-link (p.lakers.verify_message_3 parsed.0 valid) _ _ P λ processed w₃ verifies.
              Gives-last {p = p} (p.lakers.processed_m3_completed processed)
                (record fw { world = w₃ }) P
                λ done w' completes. record {
                  parsed = parsed;
                  expected = expected;
                  valid = valid;
                  processed = processed;
                  w₁ = w₁;
                  w₂ = w₂;
                  w₃ = w₃;
                  parses = parses;
                  embedded = embedded;
                  identifies = identifies;
                  verifies = verifies;
                  completes = completes;
                }
  where
    P : p.lakers.Done → p.World → Type 0
    P = λ done w'. Verified3 p wait message fw.world done w'

-- a session of a responder
abbrev at_responder : {p : Platform} → ResponderPhase p → List ℕ → Session p
at_responder phase context = responder (record { phase = phase; exporter_context = context })

-- A session that waited for message 3 has taken these bytes as message 3, the library has verified
-- it, and the session is finished with what the library gave, with its exporter context.
pub record Authenticated3 {p : Platform} (bytes : List ℕ) (fw fw' : Firmware p) : Type 0 where
  pub wait : p.lakers.WaitM3
  pub message : p.lakers.Message3
  pub done : p.lakers.Done
  pub waited :
      fw.session
      ≡ responder
          (record { phase = ResponderPhase.wait_m3 wait; exporter_context = context_of fw.session })
  pub reads : p.lakers.message_3_from_slice bytes ≡ some message
  pub verified : Verified3 p wait message fw.world done fw'.world
  pub finished :
      fw'.session
      ≡ responder
          (record { phase = ResponderPhase.done done; exporter_context = context_of fw.session })

-- success, only if authenticated
abbrev pub OnlyAuthentic3 : {p : Platform} → List ℕ → Firmware p → Status → Firmware p → Type 0
OnlyAuthentic3 bytes fw status fw' = (is_status_ok status ≡ false) ⊎ Authenticated3 bytes fw fw'

module _ {p : Platform} (bytes : List ℕ) (fw : Firmware p) (message : p.lakers.Message3)
    (reads : p.lakers.message_3_from_slice bytes ≡ some message) where
  finish_m3-OnlyAuthentic3 :
      (wait : p.lakers.WaitM3) (context : List ℕ) (fw₁ : Firmware p) (r : Option p.lakers.Done)
      → fw.session ≡ at_responder (ResponderPhase.wait_m3 wait) context
      → IfSome (λ done. Verified3 p wait message fw.world done fw₁.world) r
      → Returns (finish_m3 context r fw₁) (λ status fw'. OnlyAuthentic3 bytes fw status fw')
  unfolding finish_m3 protocol_failed
  finish_m3-OnlyAuthentic3 wait context fw₁ none e v = inl refl
  finish_m3-OnlyAuthentic3 wait context fw₁ (some done) e v =
      let k : context_of fw.session ≡ context = ap context_of e in
      inr (record {
        wait = wait;
        message = message;
        done = done;
        waited = rw k e;
        reads = reads;
        verified = v;
        finished = rw k refl;
      })

  process_m3_at-OnlyAuthentic3 :
      (context : List ℕ) (phase : ResponderPhase p)
      → fw.session ≡ at_responder phase context
      → Returns
          (process_m3_at context phase message fw)
          (λ status fw'. OnlyAuthentic3 bytes fw status fw')
  unfolding process_m3_at
  process_m3_at-OnlyAuthentic3 context (ResponderPhase.wait_m3 wait) e =
      Returns-bind (complete_m3 wait message fw) (finish_m3 context) _ _
        (complete_m3-Verified3 wait message fw)
        (λ r fw₁ v. finish_m3-OnlyAuthentic3 wait context fw₁ r e v)
  process_m3_at-OnlyAuthentic3 context _ e = inl refl

  process_m3_in-OnlyAuthentic3 :
      (s : Session p)
      → fw.session ≡ s
      → Returns (process_m3_in s message fw) (λ status fw'. OnlyAuthentic3 bytes fw status fw')
  unfolding process_m3_in
  process_m3_in-OnlyAuthentic3 (responder s) e =
      process_m3_at-OnlyAuthentic3 s.exporter_context s.phase e
  process_m3_in-OnlyAuthentic3 _ e = inl refl

-- The call returns
pub process_message_3-Authentic :
    {p : Platform} (input : Option (List ℕ)) (n : ℕ) (fw : Firmware p)
    → Readable input n
    → Returns
        (lakers_edhoc_process_message_3 input n fw)
        (λ status fw'. OnlyAuthentic3 (take n (pointee input)) fw status fw')
unfolding lakers_edhoc_process_message_3
process_message_3-Authentic {p} input n fw readable =
    with_message_lem (λ status. status) p.lakers.message_3_from_slice (process_m3_in fw.session)
      input n fw (λ status fw'. OnlyAuthentic3 (take n (pointee input)) fw status fw') readable
      (inl refl)
      (λ m reads. process_m3_in-OnlyAuthentic3 (take n (pointee input)) fw m reads fw.session refl)
