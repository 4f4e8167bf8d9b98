-- ===== src/Session/Messages/Export.antt =====
-- lakers_edhoc_export_espnow_lmk of components/lakers_ffi/rust/src/lib.rs: the export of the key.
use espnow_edhoc.Prelude.{ℕ, ◌≤◌, ◌≡◌, refl, Option, none, some, List, ◌++◌, length, drop}
use espnow_edhoc.Memory.{read_bytes, read_bytes_within}
use espnow_edhoc.Platform.{Platform}
use espnow_edhoc.Firmware.{
  InitiatorPhase, ResponderPhase, Session, empty, initiator, responder, Firmware, Outcome, returned,
  M, ◌>>=◌, ◌>>◌, return, call, checked,
}
use espnow_edhoc.Session.{
  Status, status_ok, status_wrong_state, status_invalid_argument, set_session, espnow_lmk_len,
  exporter_label_espnow_lmk,
}
use espnow_edhoc.Session.Protocol.{context_of}

-- `done.edhoc_exporter(...)` into the 16 bytes at `output_lmk`, on a session in phase `done`
export_from :
    {p : Platform}
    → (p.lakers.Done → Session p)
    → p.lakers.Done
    → List ℕ
    → List ℕ
    → M p (Status × Option (List ℕ))
unfolding set_session
export_from {p} put_back done context output = do
  r ← call (p.lakers.edhoc_exporter done exporter_label_espnow_lmk context espnow_lmk_len)
  set_session (put_back r.1)
  return (status_ok, some (r.0 ++ drop espnow_lmk_len output))

export_initiator :
    {p : Platform} → List ℕ → List ℕ → InitiatorPhase p → M p (Status × Option (List ℕ))
unfolding export_from
export_initiator output context (InitiatorPhase.done d) =
    export_from
      (λ d'. initiator (record { phase = InitiatorPhase.done d'; exporter_context = context })) d
      context output
export_initiator output context _ = return (status_wrong_state, some output)

export_responder :
    {p : Platform} → List ℕ → List ℕ → ResponderPhase p → M p (Status × Option (List ℕ))
unfolding export_from
export_responder output context (ResponderPhase.done d) =
    export_from
      (λ d'. responder (record { phase = ResponderPhase.done d'; exporter_context = context })) d
      context output
export_responder output context _ = return (status_wrong_state, some output)

export_in : {p : Platform} → List ℕ → Session p → M p (Status × Option (List ℕ))
unfolding export_initiator export_responder
export_in output (initiator s) = export_initiator output s.exporter_context s.phase
export_in output (responder s) = export_responder output s.exporter_context s.phase
export_in output empty = return (status_wrong_state, some output)

-- What the call returns, and what `output_lmk` then points to.
unfoldable pub lakers_edhoc_export_espnow_lmk :
    {p : Platform} → Option (List ℕ) → M p (Status × Option (List ℕ))
unfolding export_in
lakers_edhoc_export_espnow_lmk none fw = return (status_invalid_argument, none) fw
lakers_edhoc_export_espnow_lmk (some output) fw =
    (do _ ← checked (read_bytes output espnow_lmk_len); export_in output fw.session) fw

abbrev pub initiator_done : {p : Platform} → InitiatorPhase p → Option p.lakers.Done
initiator_done (InitiatorPhase.done d) = some d
initiator_done _ = none

abbrev pub responder_done : {p : Platform} → ResponderPhase p → Option p.lakers.Done
responder_done (ResponderPhase.done d) = some d
responder_done _ = none

-- the library's state of a finished handshake, if the session is in phase `done`
abbrev pub done_of : {p : Platform} → Session p → Option p.lakers.Done
done_of (initiator s) = initiator_done s.phase
done_of (responder s) = responder_done s.phase
done_of empty = none

-- a finished session with a new state of the library's
abbrev pub put_done : {p : Platform} → Session p → p.lakers.Done → Session p
put_done (initiator s) d = initiator (record s { phase = InitiatorPhase.done d })
put_done (responder s) d = responder (record s { phase = ResponderPhase.done d })
put_done empty d = empty

-- What the export does: nothing before the handshake is finished, and then one call of the
-- exporter, with the label, the session's own context and the length of an LMK.
abbrev pub exported :
    {p : Platform}
    → List ℕ
    → Session p
    → Firmware p
    → Option p.lakers.Done
    → Outcome p (Status × Option (List ℕ))
exported output s fw none = returned (status_wrong_state, some output) fw
exported {p} output s fw (some d) =
    let r = p.lakers.edhoc_exporter d 0xF0 (context_of s) 16 fw.world in
    returned (status_ok, some (r.0.0 ++ drop 16 output))
      (record fw { world = r.1; session = put_done s r.0.1 })

export_initiator_lem :
    {p : Platform} (output context : List ℕ) (phase : InitiatorPhase p) (fw : Firmware p)
    → export_initiator output context phase fw
      ≡ exported output
          (initiator (record { phase = phase; exporter_context = context }))
          fw
          (initiator_done phase)
unfolding export_initiator
export_initiator_lem output context (InitiatorPhase.done d) fw = refl
export_initiator_lem output context _ fw = refl

export_responder_lem :
    {p : Platform} (output context : List ℕ) (phase : ResponderPhase p) (fw : Firmware p)
    → export_responder output context phase fw
      ≡ exported output
          (responder (record { phase = phase; exporter_context = context }))
          fw
          (responder_done phase)
unfolding export_responder
export_responder_lem output context (ResponderPhase.done d) fw = refl
export_responder_lem output context _ fw = refl

export_in_lem :
    {p : Platform} (output : List ℕ) (s : Session p) (fw : Firmware p)
    → export_in output s fw ≡ exported output s fw (done_of s)
unfolding export_in
export_in_lem output (initiator s) fw = export_initiator_lem output s.exporter_context s.phase fw
export_in_lem output (responder s) fw = export_responder_lem output s.exporter_context s.phase fw
export_in_lem output empty fw = refl

-- On a buffer of at least 16 bytes the export calls the exporter once if the handshake of either
-- role is finished, with the label 0xF0, the context of the session and the length 16, and answers
-- a wrong state and changes nothing otherwise.
pub lakers_edhoc_export_espnow_lmk_lem :
    {p : Platform} (output : List ℕ) (fw : Firmware p)
    → 16 ≤ length output
    → lakers_edhoc_export_espnow_lmk (some output) fw
      ≡ exported output fw.session fw (done_of fw.session)
unfolding lakers_edhoc_export_espnow_lmk
lakers_edhoc_export_espnow_lmk_lem output fw h =
    rw (read_bytes_within output espnow_lmk_len h) (export_in_lem output fw.session fw)
