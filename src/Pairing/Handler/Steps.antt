-- ===== src/Pairing/Handler/Steps.antt =====
-- main/main.c: where a handler of `handle_received_message` may lead, and what the handlers share.
pub mod Initiator
pub mod MessageThree
pub mod Acknowledgement
pub mod Responder
pub mod MessageTwo
use espnow_edhoc.Prelude.{
  take, ℕ, ◌≤◌, ◌≡◌, refl, ◌∙◌, ap, false, ◌⊎◌, inl, inr, Option, none, some, List, arith, length,
}
use espnow_edhoc.Memory.{pointee, length-zeros}
use espnow_edhoc.Config.{Config}
use espnow_edhoc.Platform.{Platform}
use espnow_edhoc.Firmware.{◌>>=◌, ◌>>◌, return, esp_error_check, Firmware}
use espnow_edhoc.Firmware.Contracts.{
  Upto, Upto-check, Returns, Returns-bind_Upto, SameStatics, OnlyWorld,
}
use espnow_edhoc.Wire.{MsgType, Msg}
use espnow_edhoc.Session.{Status, is_status_ok, Out, status_ok}
use espnow_edhoc.Ffi.{lakers_edhoc_max_message_len}
use espnow_edhoc.Session.Protocol.{
  Phase, view, context_of, refusal-not_ok, succeeds, fails, refuses, Answers, LengthFits,
}
use espnow_edhoc.Pairing.{log_edhoc_message, preview_len, PairingState, failed, send_edhoc_payload}
use espnow_edhoc.Pairing.Effects.{
  log_edhoc_message_lem, MsgFits, Sends, Sent, send_edhoc_payload-Sent,
}
use espnow_edhoc.Pairing.Handler.{message_buffer, length_of, send_generated}

-- the handler gives up, or leads to this state with the session in this phase and its context kept
abbrev pub Reaches :
    {p : Platform} → PairingState → Phase → Firmware p → PairingState → Firmware p → Type 0
Reaches next to fw state fw' =
    SameStatics fw fw'
    × ((state ≡ failed)
        ⊎ ((state ≡ next)
            × (view fw'.session ≡ to)
            × (context_of fw'.session ≡ context_of fw.session)))

-- a buffer holds the message that a successful call has left
pub left_message :
    (status : Status) (buffer : Option (List ℕ)) (n : Option ℕ)
    → status ≡ status_ok
    → (is_status_ok status ≡ false) ⊎ LengthFits buffer n
    → LengthFits buffer n
left_message answer buffer n ok (inl bad) = absurd (ground (arith, ok, bad))
left_message answer buffer n ok (inr h) = h

-- and it is sent
pub message-Sent :
    {p : Platform} {X : Type 0} (sends : Sends p X) (cfg : Config) (type : MsgType) (seq : ℕ)
    (buffer : Option (List ℕ)) (n : Option ℕ) (fw : Firmware p)
    → LengthFits buffer n
    → Returns (send_edhoc_payload cfg type seq buffer (length_of n) fw) (λ e fw'. Sent X fw e fw')
message-Sent sends cfg type seq (some buffer) (some n) fw h =
    send_edhoc_payload-Sent sends cfg type seq buffer n fw h.0 h.1
message-Sent sends cfg type seq none _ fw h = absurd h
message-Sent sends cfg type seq (some buffer) none fw h = absurd h

pub keeps :
    {p : Platform} (next : PairingState) (to : Phase) (fw fw₁ fw₂ : Firmware p)
    → SameStatics fw fw₁
    → OnlyWorld fw₁ fw₂
    → view fw₁.session ≡ to
    → context_of fw₁.session ≡ context_of fw.session
    → Reaches next to fw next fw₂
keeps next to fw fw₁ fw₂ same h v k =
    ((h.1.0 ∙ same.0, h.1.1 ∙ same.1), inr (refl, ap view h.0 ∙ v, ap context_of h.0 ∙ k))

module _ {p : Platform} {X : Type 0} (sends : Sends p X) (cfg : Config) (next : PairingState)
    (from to : Phase) (role : ℕ) (fw : Firmware p) where
  pub send_generated-Reaches :
      (type : MsgType) (seq : ℕ) (status : Status) (out : Out) (fw₁ : Firmware p)
      → Answers from to role fw status out fw₁
      → Upto X
          (send_generated cfg type seq next (status, out) fw₁)
          (λ state fw'. Reaches next to fw state fw')
  unfolding send_generated
  send_generated-Reaches type seq status out fw₁ a = elim a.follows [
    | succeeds ok _ v k ↦ rw ok (
        Returns-bind_Upto X
          (send_edhoc_payload cfg type seq out.output (length_of out.output_length) fw₁)
          (λ e fw'. (do esp_error_check e; return next) fw') (λ e fw₂. Sent X fw₁ e fw₂)
          (λ state fw'. Reaches next to fw state fw')
          (message-Sent sends cfg type seq out.output out.output_length fw₁
            (left_message status out.output out.output_length ok a.message))
          (λ e fw₂ h.
            Upto-check X e (return next) fw₂ _ h.1 (keeps next to fw fw₁ fw₂ a.same h.0 v k)))
    | fails e _ _ ↦ rw e (a.same, inl refl)
    | refuses e _ ↦ rw (refusal-not_ok status e) (a.same, inl refl)
  ]

-- the buffer of a handler has room for every message
pub message_buffer-HasRoom : 192 ≤ length (pointee message_buffer.output)
message_buffer-HasRoom = omega (arith, length-zeros lakers_edhoc_max_message_len)

pub readable : (msg : Msg) → MsgFits msg → msg.payload_len ≤ length msg.payload
readable msg fits = omega (arith, fits.size, fits.len_bound)

-- what a handler logs of the message that it takes
pub logged :
    (msg : Msg)
    → MsgFits msg
    → log_edhoc_message (some msg.payload) msg.payload_len
      ≡ some (take (preview_len msg.payload_len) msg.payload)
logged msg fits = log_edhoc_message_lem (some msg.payload) msg.payload_len (readable msg fits)
