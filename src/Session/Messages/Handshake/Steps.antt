-- ===== src/Session/Messages/Handshake/Steps.antt =====
-- components/lakers_ffi/rust/src/lib.rs: one call of a handshake, on the message of the other end.
use espnow_edhoc.Prelude.{ℕ, ◌≡◌, refl, Option, none, some, List, length}
use espnow_edhoc.Platform.{Platform}
use espnow_edhoc.Firmware.{InitiatorPhase, ResponderPhase, Session, Firmware}
use espnow_edhoc.Firmware.Contracts.{Returns, Returns-bind}
use espnow_edhoc.Session.{Status, status_ok, prepare_output}
use espnow_edhoc.Session.Credentials.{cred_i, cred_r}
use espnow_edhoc.Session.Messages.{
  ◌>>?◌, with_output, make_m1, make_m1_at, make_m1_in, finish_initiator, finish_responder,
  answer_m1, process_m1_at, process_m1_in, process_m1_rest, complete_m2, process_m2_at,
  process_m2_in, process_m2_rest, complete_m3, finish_m3, process_m3_at, process_m3_in,
  lakers_edhoc_make_message_1, lakers_edhoc_process_message_1, lakers_edhoc_process_message_2,
  lakers_edhoc_process_message_3,
}
use espnow_edhoc.Session.Protocol.{ExportAlike}
use espnow_edhoc.Session.Messages.Handshake.{
  Yes, IsMessage, HandshakeCompletes, Takes1, Takes2, Takes3, Succeeds, Succeeds-link,
  Succeeds-pure,
}
use espnow_edhoc.Session.Messages.Handshake.Buffers.{
  of_initiator, of_responder, fresh_buffer, holding, InitiatorSends, ResponderSends, with_input,
  finished_initiator, finished_responder,
}

module _ {p : Platform} {i : p.lakers.Initiator} {r : p.lakers.Responder}
    (edhoc : HandshakeCompletes p i r) where
  -- what the boards may hold after each of the first three calls
  abbrev pub Sent1 : InitiatorPhase p → List ℕ → Type 0
  Sent1 phase bytes =
      (s : p.lakers.WaitM2) × (phase ≡ InitiatorPhase.wait_m2 s) × edhoc.After1 s bytes

  abbrev pub Sent2 : p.lakers.WaitM2 → ResponderPhase p → List ℕ → Type 0
  Sent2 s phase bytes =
      (t : p.lakers.WaitM3) × (phase ≡ ResponderPhase.wait_m3 t) × edhoc.After2 s t bytes

  abbrev pub Sent3 : p.lakers.WaitM3 → InitiatorPhase p → List ℕ → Type 0
  Sent3 t phase bytes =
      (d : p.lakers.Done) × (phase ≡ InitiatorPhase.done d) × edhoc.After3 d t bytes

  made_1 : (fw : Firmware p) → Succeeds (make_m1 i fw) (λ t. Sent1 t.0 t.1 × IsMessage t.1)
  unfolding make_m1
  made_1 fw =
      Succeeds-link (p.lakers.prepare_message_1 i) _ fw _ (λ t. Sent1 t.0 t.1 × IsMessage t.1)
        (edhoc.makes_1 fw.world) (λ t h fw'. ((t.0, refl, h.0), h.1))

  make_1_in :
      (s : Session p) (context : List ℕ) (fw : Firmware p)
      → s ≡ of_initiator (InitiatorPhase.start i) context
      → Returns (make_m1_in s fresh_buffer fw) (λ a fw'. InitiatorSends context Sent1 a fw')
  unfolding make_m1_in make_m1_at
  make_1_in s context fw e = rw e (
      Returns-bind (make_m1 i fw) (finish_initiator fresh_buffer context) _ _ (made_1 fw)
        (λ o fw₁ h. finished_initiator context Sent1 o fw₁ h))

  pub make_1 :
      (context : List ℕ) (fw : Firmware p)
      → fw.session ≡ of_initiator (InitiatorPhase.start i) context
      → Returns
          (lakers_edhoc_make_message_1 fresh_buffer fw)
          (λ a fw'. InitiatorSends context Sent1 a fw')
  unfolding lakers_edhoc_make_message_1 with_output prepare_output
  make_1 context fw e = make_1_in fw.session context fw e

  answered_1 :
      (s : p.lakers.WaitM2) (m : p.lakers.Message1) (fw : Firmware p)
      → Takes1 p r (edhoc.After2 s) m
      → Succeeds (answer_m1 r m fw) (λ t. Sent2 s t.0 t.1 × IsMessage t.1)
  unfolding answer_m1
  answered_1 s m fw h =
      Succeeds-link (p.lakers.process_message_1 r m) _ fw _ Q (h fw.world) λ processed h₁ fw₁.
        Succeeds-link (p.lakers.prepare_message_2 processed) _ fw₁ _ Q (h₁ fw₁.world)
          λ t h₂ fw₂. ((t.0, refl, h₂.0), h₂.1)
    where
      Q : ResponderPhase p × List ℕ → Type 0
      Q t = Sent2 s t.0 t.1 × IsMessage t.1

  take_1_in :
      (s : p.lakers.WaitM2) (session : Session p) (context : List ℕ) (m : p.lakers.Message1)
      (fw : Firmware p)
      → session ≡ of_responder (ResponderPhase.start r) context
      → Takes1 p r (edhoc.After2 s) m
      → Returns
          (process_m1_in session fresh_buffer m fw)
          (λ a fw'. ResponderSends context (Sent2 s) a fw')
  unfolding process_m1_in process_m1_at
  take_1_in s session context m fw e h = rw e (
      Returns-bind (answer_m1 r m fw) (finish_responder fresh_buffer context) _ _
        (answered_1 s m fw h) (λ o fw₁ k. finished_responder context (Sent2 s) o fw₁ k))

  pub take_1 :
      (s : p.lakers.WaitM2) (bytes context : List ℕ) (fw : Firmware p)
      → edhoc.After1 s bytes
      → IsMessage bytes
      → fw.session ≡ of_responder (ResponderPhase.start r) context
      → Returns
          (lakers_edhoc_process_message_1 (some (holding bytes)) (length bytes) fresh_buffer fw)
          (λ a fw'. ResponderSends context (Sent2 s) a fw')
  unfolding lakers_edhoc_process_message_1 process_m1_rest with_output prepare_output
  take_1 s bytes context fw after size e =
      with_input (λ status. (status, fresh_buffer)) p.lakers.message_1_from_slice
        (process_m1_in fw.session fresh_buffer) bytes fw (Takes1 p r (edhoc.After2 s))
        (λ a fw'. ResponderSends context (Sent2 s) a fw')
        (λ m h. take_1_in s fw.session context m fw e h) size (edhoc.takes_1 s bytes after)

  completed_2 :
      (s : p.lakers.WaitM2) (t : p.lakers.WaitM3) (m : p.lakers.Message2) (fw : Firmware p)
      → Takes2 p s (λ d. edhoc.After3 d t) m
      → Succeeds (complete_m2 s m fw) (λ u. Sent3 t u.0 u.1 × IsMessage u.1)
  unfolding complete_m2 ◌>>?◌
  completed_2 s t m fw h =
      Succeeds-link (p.lakers.parse_message_2 s m) _ fw _ Q (h fw.world) λ parsed h₁ fw₁.
        Succeeds-pure (p.lakers.parse_ccs cred_r) _ fw₁ _ Q h₁ λ expected h₂.
          Succeeds-link (p.lakers.credential_check_or_fetch expected parsed.1) _ fw₁ _ Q
            (h₂ fw₁.world)
            λ valid h₃ fw₃.
              Succeeds-link (p.lakers.verify_message_2 parsed.0 valid) _ fw₃ _ Q (h₃ fw₃.world)
                λ processed h₄ fw₄.
                  Succeeds-link (p.lakers.prepare_message_3 processed) _ fw₄ _ Q (h₄ fw₄.world)
                    λ u h₅ fw₅.
                      Succeeds-link (p.lakers.wait_m4_completed u.0) _ fw₅ _ Q (h₅ fw₅.world)
                        λ d h₆ fw₆. ((d, refl, h₆.0), h₆.1)
    where
      Q : InitiatorPhase p × List ℕ → Type 0
      Q u = Sent3 t u.0 u.1 × IsMessage u.1

  take_2_in :
      (s : p.lakers.WaitM2) (t : p.lakers.WaitM3) (session : Session p) (context : List ℕ)
      (m : p.lakers.Message2) (fw : Firmware p)
      → session ≡ of_initiator (InitiatorPhase.wait_m2 s) context
      → Takes2 p s (λ d. edhoc.After3 d t) m
      → Returns
          (process_m2_in session fresh_buffer m fw)
          (λ a fw'. InitiatorSends context (Sent3 t) a fw')
  unfolding process_m2_in process_m2_at
  take_2_in s t session context m fw e h = rw e (
      Returns-bind (complete_m2 s m fw) (finish_initiator fresh_buffer context) _ _
        (completed_2 s t m fw h) (λ o fw₁ k. finished_initiator context (Sent3 t) o fw₁ k))

  pub take_2 :
      (s : p.lakers.WaitM2) (t : p.lakers.WaitM3) (bytes context : List ℕ) (fw : Firmware p)
      → edhoc.After2 s t bytes
      → IsMessage bytes
      → fw.session ≡ of_initiator (InitiatorPhase.wait_m2 s) context
      → Returns
          (lakers_edhoc_process_message_2 (some (holding bytes)) (length bytes) fresh_buffer fw)
          (λ a fw'. InitiatorSends context (Sent3 t) a fw')
  unfolding lakers_edhoc_process_message_2 process_m2_rest with_output prepare_output
  take_2 s t bytes context fw after size e =
      with_input (λ status. (status, fresh_buffer)) p.lakers.message_2_from_slice
        (process_m2_in fw.session fresh_buffer) bytes fw (Takes2 p s (λ d. edhoc.After3 d t))
        (λ a fw'. InitiatorSends context (Sent3 t) a fw')
        (λ m h. take_2_in s t fw.session context m fw e h) size (edhoc.takes_2 s t bytes after)

  -- what the last call leaves: a finished session that exports what the other end exports
  abbrev pub Finishes : p.lakers.Done → List ℕ → Status → Firmware p → Type 0
  Finishes d context answer fw' =
      (answer ≡ status_ok)
      × ((d' : p.lakers.Done) × (fw'.session ≡ of_responder (ResponderPhase.done d') context)
          × ExportAlike p d d')

  completed_3 :
      (d : p.lakers.Done) (t : p.lakers.WaitM3) (m : p.lakers.Message3) (fw : Firmware p)
      → Takes3 p t (ExportAlike p d) m
      → Succeeds (complete_m3 t m fw) (λ d'. ExportAlike p d d')
  unfolding complete_m3 ◌>>?◌
  completed_3 d t m fw h =
      Succeeds-link (p.lakers.parse_message_3 t m) _ fw _ Q (h fw.world) λ parsed h₁ fw₁.
        Succeeds-pure (p.lakers.parse_ccs cred_i) _ fw₁ _ Q h₁ λ expected h₂.
          Succeeds-link (p.lakers.credential_check_or_fetch expected parsed.1) _ fw₁ _ Q
            (h₂ fw₁.world)
            λ valid h₃ fw₃.
              Succeeds-link (p.lakers.verify_message_3 parsed.0 valid) _ fw₃ _ Q (h₃ fw₃.world)
                λ processed h₄ fw₄. h₄ fw₄.world
    where
      Q : p.lakers.Done → Type 0
      Q d' = ExportAlike p d d'

  finished_3 :
      (d : p.lakers.Done) (context : List ℕ) (o : Option p.lakers.Done) (fw : Firmware p)
      → Yes o (λ d'. ExportAlike p d d')
      → Returns (finish_m3 context o fw) (λ answer fw'. Finishes d context answer fw')
  unfolding finish_m3
  finished_3 d context none fw h = absurd h
  finished_3 d context (some d') fw h = (refl, (d', refl, h))

  take_3_in :
      (d : p.lakers.Done) (t : p.lakers.WaitM3) (session : Session p) (context : List ℕ)
      (m : p.lakers.Message3) (fw : Firmware p)
      → session ≡ of_responder (ResponderPhase.wait_m3 t) context
      → Takes3 p t (ExportAlike p d) m
      → Returns (process_m3_in session m fw) (λ answer fw'. Finishes d context answer fw')
  unfolding process_m3_in process_m3_at
  take_3_in d t session context m fw e h = rw e (
      Returns-bind (complete_m3 t m fw) (finish_m3 context) _ _ (completed_3 d t m fw h)
        (λ o fw₁ k. finished_3 d context o fw₁ k))

  pub take_3 :
      (d : p.lakers.Done) (t : p.lakers.WaitM3) (bytes context : List ℕ) (fw : Firmware p)
      → edhoc.After3 d t bytes
      → IsMessage bytes
      → fw.session ≡ of_responder (ResponderPhase.wait_m3 t) context
      → Returns
          (lakers_edhoc_process_message_3 (some (holding bytes)) (length bytes) fw)
          (λ answer fw'. Finishes d context answer fw')
  unfolding lakers_edhoc_process_message_3
  take_3 d t bytes context fw after size e =
      with_input (λ status. status) p.lakers.message_3_from_slice (process_m3_in fw.session) bytes
        fw (Takes3 p t (ExportAlike p d)) (λ answer fw'. Finishes d context answer fw')
        (λ m h. take_3_in d t fw.session context m fw e h) size (edhoc.takes_3 d t bytes after)
