-- ===== src/Pairing/Handler/Steps/MessageThree.antt =====
-- main/main.c: message 3 at the responder: the checks of the library, and the key that follows.
use espnow_edhoc.Prelude.{
  ◌≡◌, refl, ◌∙◌, ap, false, ◌⊎◌, inl, inr, some, arith, length, take, ◌+◌, if◌then◌else◌,
}
use espnow_edhoc.Config.{Config, responder_encryption_switch_delay_ms}
use espnow_edhoc.Platform.{EspErr, esp_ok, is_ok, Platform}
use espnow_edhoc.Firmware.{Session, return, Firmware}
use espnow_edhoc.Firmware.Contracts.{
  Ensures, Upto, Upto-mono, Upto-check, Upto-Ensures, Returns-both, Returns-bind_Upto, SameStatics,
}
use espnow_edhoc.Wire.{ack, Msg}
use espnow_edhoc.Session.{Status}
use espnow_edhoc.Session.Protocol.{
  refusal-not_ok, r_done, view, context_of, succeeds, fails, refuses, MessagesFit,
}
use espnow_edhoc.Session.Messages.{lakers_edhoc_process_message_3}
use espnow_edhoc.Session.Messages.Responder.{Completes, process_message_3-Completes}
use espnow_edhoc.Session.Messages.Authentic.Responder.{
  Authenticated3, OnlyAuthentic3, process_message_3-Authentic,
}
use espnow_edhoc.Pairing.{
  edhoc_handshake_ack_payload, PairingState, wait_key_test, failed, send_handshake_ack,
  derive_and_install_lmk,
}
use espnow_edhoc.Pairing.Key.{SamePhase, KeyInPlace, derive_and_install_lmk-KeyInPlace}
use espnow_edhoc.Pairing.Effects.{MsgFits, Sends, may_abort, Sent, send_edhoc_payload-Sent}
use espnow_edhoc.Pairing.Handler.{fail_pairing, after_m3, on_m3}
use espnow_edhoc.Pairing.Handler.Steps.{Reaches, logged, readable}

-- if the state has moved on, the key of the session `s` is installed for the peer
abbrev pub KeyedFrom : {p : Platform} → Config → Session p → PairingState → Firmware p → Type 0
KeyedFrom {p} cfg s state fw' =
    (state ≡ failed)
    ⊎ ((fw₁ : Firmware p) × (fw₁.session ≡ s) × SamePhase fw₁ fw' × KeyInPlace cfg fw₁ fw'.world)

switch-Keyed :
    {p : Platform} (X : Type 0) (cfg : Config) (e : EspErr) (s : Session p)
    (fw fw₂ fw₃ : Firmware p)
    → fw₂.session ≡ s
    → SameStatics fw fw₂
    → view fw₂.session ≡ r_done
    → context_of fw₂.session ≡ context_of fw.session
    → SamePhase fw₂ fw₃
    → ((is_ok e ≡ false) ⊎ KeyInPlace cfg fw₂ fw₃.world)
    → Upto X
        ((if is_ok e then return wait_key_test else fail_pairing) fw₃)
        (λ state fw'. Reaches wait_key_test r_done fw state fw' × KeyedFrom cfg s state fw')
switch-Keyed X cfg esp_ok s fw fw₂ fw₃ is_s same v k h (inl bad) = absurd (ground (arith, bad))
switch-Keyed X cfg esp_ok s fw fw₂ fw₃ is_s same v k h (inr key) = (
  ((h.same.0 ∙ same.0, h.same.1 ∙ same.1), inr (refl, h.phase ∙ v, h.context ∙ k)),
  inr (fw₂, is_s, h, key),
)
switch-Keyed X cfg _ s fw fw₂ fw₃ is_s same v k h key =
    (((h.same.0 ∙ same.0, h.same.1 ∙ same.1), inl refl), inl refl)

-- what follows message 3: the acknowledgement first, then the key, and only then the next state
after_m3-Reaches :
    {p : Platform} {X : Type 0} (sends : Sends p X) (laws : MessagesFit p) (cfg : Config)
    (msg : Msg) (status : Status) (fw fw₁ : Firmware p)
    → length cfg.peer_mac ≡ 6
    → Completes fw status fw₁
    → Upto X (after_m3 cfg msg status fw₁) (λ state fw'.
      Reaches wait_key_test r_done fw state fw' × KeyedFrom cfg fw₁.session state fw')
unfolding after_m3 send_handshake_ack
after_m3-Reaches {p} {X} sends laws cfg msg status fw fw₁ mac (follows, same) = elim follows [
  | succeeds ok _ v k ↦ rw ok (
      Returns-bind_Upto X (send_handshake_ack cfg (msg.seq + 1) fw₁) _ (λ e fw₂. Sent X fw₁ e fw₂)
        (λ state fw'.
          Reaches wait_key_test r_done fw state fw' × KeyedFrom cfg fw₁.session state fw')
        (send_edhoc_payload-Sent sends cfg ack (msg.seq + 1) edhoc_handshake_ack_payload _ fw₁
          (omega arith) (omega arith))
        (λ e fw₂ h. Upto-check X e _ fw₂ _ h.1 (
          Returns-bind_Upto X (derive_and_install_lmk cfg (delayed fw₂)) _ _ _
            (derive_and_install_lmk-KeyInPlace laws cfg (delayed fw₂) mac)
            (λ e₂ fw₃ d.
              switch-Keyed X cfg e₂ fw₁.session fw (delayed fw₂) fw₃ h.0.0
                (h.0.1.0 ∙ same.0, h.0.1.1 ∙ same.1) (ap view h.0.0 ∙ v) (ap context_of h.0.0 ∙ k)
                d.0 d.1))))
  | fails e _ _ ↦ rw e ((same, inl refl), inl refl)
  | refuses e _ ↦ rw (refusal-not_ok status e) ((same, inl refl), inl refl)
]
  where
    delayed : Firmware p → Firmware p
    delayed fw₂ = record fw₂ {
      world =
          (p.idf.v_task_delay (p.idf.pd_ms_to_ticks responder_encryption_switch_delay_ms)
            fw₂.world).1;
    }

-- If the state has moved on, the library has verified the bytes as message 3, and the key of the
-- session that it has then finished is installed for the peer.
abbrev pub AuthenticKeyed :
    {p : Platform} → Config → Msg → Firmware p → PairingState → Firmware p → Type 0
AuthenticKeyed {p} cfg msg fw state fw' =
    (state ≡ failed)
    ⊎ ((fw₁ : Firmware p) × Authenticated3 (take msg.payload_len msg.payload) fw fw₁
        × ((fw₂ : Firmware p) × (fw₂.session ≡ fw₁.session)
            × SamePhase fw₂ fw'
            × KeyInPlace cfg fw₂ fw'.world))

after_m3-Authentic :
    {p : Platform} {X : Type 0} (sends : Sends p X) (laws : MessagesFit p) (cfg : Config)
    (msg : Msg) (status : Status) (fw fw₁ : Firmware p)
    → length cfg.peer_mac ≡ 6
    → Completes fw status fw₁ × OnlyAuthentic3 (take msg.payload_len msg.payload) fw status fw₁
    → Upto X (after_m3 cfg msg status fw₁) (λ state fw'.
      Reaches wait_key_test r_done fw state fw' × AuthenticKeyed cfg msg fw state fw')
unfolding after_m3
after_m3-Authentic sends laws cfg msg answer fw fw₁ mac (c, inl bad) =
    rw bad ((c.1, inl refl), inl refl)
after_m3-Authentic {X = X} sends laws cfg msg answer fw fw₁ mac (c, inr auth) =
    Upto-mono X (after_m3 cfg msg answer fw₁) _ _
      (after_m3-Reaches sends laws cfg msg answer fw fw₁ mac c)
      (λ state fw' h. (h.0, elim h.1 [ inl e ↦ inl e | inr k ↦ inr (fw₁, auth, k) ]))

-- message 3, with any driver
pub on_m3-Keyed :
    {p : Platform} {X : Type 0} (sends : Sends p X) (laws : MessagesFit p) (cfg : Config)
    (msg : Msg) (fw : Firmware p)
    → MsgFits msg
    → length cfg.peer_mac ≡ 6
    → Upto X (on_m3 cfg msg fw) (λ state fw'.
      Reaches wait_key_test r_done fw state fw' × AuthenticKeyed cfg msg fw state fw')
unfolding on_m3
on_m3-Keyed {X = X} sends laws cfg msg fw fits mac = rw (logged msg fits) (
    Returns-bind_Upto X (lakers_edhoc_process_message_3 (some msg.payload) msg.payload_len fw)
      (after_m3 cfg msg) _ _
      (Returns-both (lakers_edhoc_process_message_3 (some msg.payload) msg.payload_len fw) _ _
        (process_message_3-Completes (some msg.payload) msg.payload_len fw (readable msg fits))
        (process_message_3-Authentic (some msg.payload) msg.payload_len fw (readable msg fits)))
      (λ status fw' h. after_m3-Authentic sends laws cfg msg status fw fw' mac h))

-- On a message that fits its buffer, a responder that does not abort has failed, or waits for the
-- key test with the handshake finished and the exporter context kept. If it has not failed, the
-- library has parsed the bytes as message 3 of the session, accepted the embedded credential of
-- the initiator for its identifier, and verified it, and the key that the session that it then
-- finished exports is installed for the peer, as it is, or, in the test build, with the last bit
-- of its first byte turned over. The peer address has six bytes, messages of the Lakers library
-- hold at most 192 bytes and its exporter fills the slice.
pub on_m3-Authentic :
    {p : Platform} (laws : MessagesFit p) (cfg : Config) (msg : Msg) (fw : Firmware p)
    → MsgFits msg
    → length cfg.peer_mac ≡ 6
    → Ensures (on_m3 cfg msg fw) (λ state fw'.
      Reaches wait_key_test r_done fw state fw' × AuthenticKeyed cfg msg fw state fw')
on_m3-Authentic {p} laws cfg msg fw fits mac =
    Upto-Ensures Unit (on_m3 cfg msg fw) _ (on_m3-Keyed (may_abort p) laws cfg msg fw fits mac)
