-- ===== src/Pairing/Effects.antt =====
-- What the sends and the checks of main/main.c leave alone.
use espnow_edhoc.Prelude.{
  zero, suc, [], lt→ltb, ℕ, ◌≤◌, ◌⊎◌, ◌≡◌, ◌≢◌, refl, sym, ◌∙◌, Bool, true, false, Option, none,
  some, List, arith, length, take, take-all, inl, inr, ltb, ◌==◌, ◌↔◌, if◌then◌else◌, Bool-cases,
  le→leb, same_bytes, same_bytes_refl, same_bytes_eq, ==_iff,
}
use espnow_edhoc.Memory.{read_bytes, read_bytes_within, pointee, memcmp_eq}
use espnow_edhoc.Config.{Config}
use mathlib.Core.Bool.{and-false}
use espnow_edhoc.Platform.{EspErr, Platform}
use espnow_edhoc.Firmware.{Firmware}
use espnow_edhoc.Firmware.Contracts.{Succeeded, Returns, OnlyWorld}
use espnow_edhoc.Wire.{MsgType, key_test, key_test_ack, type_code, Msg, edhoc_transport_send}
use espnow_edhoc.Wire.Sending.{sent_frame, edhoc_transport_send_lem}
use espnow_edhoc.Pairing.{
  send_edhoc_payload, log_edhoc_message, preview_len, key_test_payload, key_test_ack_payload,
  payload_is, edhoc_handshake_ack_payload, verify_handshake_ack, verify_control_payload,
  control_payload, check_payload, send_control_message, send_control_payload,
}

-- For a length inside the payload, the log of a message reads the first 32 bytes of it, or all if
-- it is shorter, and nothing else.
pub log_edhoc_message_lem :
    (payload : Option (List ℕ)) (n : ℕ)
    → n ≤ length (pointee payload)
    → log_edhoc_message payload n ≡ some (take (preview_len n) (pointee payload))
unfolding log_edhoc_message
log_edhoc_message_lem payload n h = elim (Bool-cases (ltb n 32)) [
  | inl short ↦ rw short (dump (pointee payload) n h)
  | inr long ↦ rw long (read_bytes_within (pointee payload) 32 (ground arith))
]
  where
    dump :
        (xs : List ℕ) (k : ℕ)
        → k ≤ length xs
        → (if ltb 0 k then read_bytes xs k else some []) ≡ some (take k xs)
    dump xs zero le = refl
    dump xs (suc k) le = rw (lt→ltb 0 (suc k) (omega arith)) (read_bytes_within xs (suc k) le)

-- The driver takes every frame, or an abort is allowed.
pub record Sends (p : Platform) (X : Type 0) : Type 0 where
  pub accepts : (mac frame : List ℕ) (w : p.World) → Succeeded X (p.idf.esp_now_send mac frame w).0

-- Any driver will do where an abort is allowed.
pub may_abort : (p : Platform) → Sends p (Unit {0})
may_abort p = record { accepts = λ mac frame w. inr tt }

-- the state is changed by the send alone, which has succeeded
abbrev pub Sent : {p : Platform} → Type 0 → Firmware p → EspErr → Firmware p → Type 0
Sent X fw e fw' = OnlyWorld fw fw' × Succeeded X e

module _ {p : Platform} {X : Type 0} (sends : Sends p X) where
  -- A send of a message that fits, from a buffer that holds it.
  pub edhoc_transport_send-Sent :
      (mac : List ℕ) (type : MsgType) (session_id seq : ℕ) (payload : List ℕ) (n : ℕ)
      (fw : Firmware p)
      → n ≤ 192
      → n ≤ length payload
      → Returns
          (edhoc_transport_send (some mac) type session_id seq (some payload) n fw)
          (λ e fw'. Sent X fw e fw')
  edhoc_transport_send-Sent mac type session_id seq payload n fw le h =
      let small : ltb 192 n ≡ false = ground arith in
      rw (edhoc_transport_send_lem (some mac) type session_id seq (some payload) n fw (inr h)) (
        rw (and-false (ltb 0 n), small)
          (
            (refl, (refl, refl)),
            sends.accepts mac (sent_frame type session_id seq payload n) fw.world,
          ))

  -- the messages of the EDHOC handshake are logged and sent
  pub send_edhoc_payload-Sent :
      (cfg : Config) (type : MsgType) (seq : ℕ) (payload : List ℕ) (n : ℕ) (fw : Firmware p)
      → n ≤ 192
      → n ≤ length payload
      → Returns (send_edhoc_payload cfg type seq (some payload) n fw) (λ e fw'. Sent X fw e fw')
  unfolding send_edhoc_payload
  send_edhoc_payload-Sent cfg type seq payload n fw le h =
      rw (log_edhoc_message_lem (some payload) n h)
        (edhoc_transport_send-Sent cfg.peer_mac type cfg.edhoc_session_id seq payload n fw le h)

  -- the two control messages
  pub send_control_message-Sent :
      (cfg : Config) (type : MsgType) (payload : List ℕ) (seq : ℕ) (fw : Firmware p)
      → control_payload (type_code type) ≡ some payload
      → length payload ≤ 192
      → Returns (send_control_message cfg type seq fw) (λ e fw'. Sent X fw e fw')
  unfolding send_control_message send_control_payload
  send_control_message-Sent cfg type payload seq fw is_payload le = rw is_payload (
      edhoc_transport_send-Sent cfg.peer_mac type cfg.edhoc_session_id seq payload (length payload)
        fw le (omega arith))

-- a message as `edhoc_transport_parse_rx` fills it in
pub record MsgFits (msg : Msg) : Type 0 where
  pub size : length msg.payload ≡ 192
  pub len_bound : msg.payload_len ≤ 192

-- the message has this payload
abbrev pub HasPayload : Msg → List ℕ → Type 0
HasPayload msg expected =
    (msg.payload_len ≡ length expected) × (take (length expected) msg.payload ≡ expected)

-- The comparison reads inside the payload, and succeeds exactly on the expected payload.
pub payload_is_lem :
    (msg : Msg) (expected : List ℕ)
    → MsgFits msg
    → length expected ≤ 192
    → (b : Bool) × (payload_is msg expected ≡ some b) × ((b ≡ true) ↔ HasPayload msg expected)
unfolding payload_is memcmp_eq
payload_is_lem msg expected fits h = elim (Bool-cases (msg.payload_len == length expected)) [
  | inr other ↦ (false, rw other refl, ((λ e. cc), (λ t. sym other ∙ (==_iff _ _).1 t.0)))
  | inl same ↦ (
    same_bytes (take (length expected) msg.payload) expected,
    rw
        (
          same,
          le→leb (length expected) (length msg.payload) (omega (arith, fits.size)),
          le→leb (length expected) (length expected) (omega arith),
          take-all (length expected) expected (omega arith),
        )
        refl,
    ((λ e. ((==_iff _ _).0 same, same_bytes_eq _ _ e)), (λ t. rw t.1 (same_bytes_refl expected))),
  )
]

-- On a message that fits its buffer the check of the completion acknowledgement reads inside the
-- payload, and passes exactly if the payload is LAKERS_EDHOC_COMPLETE.
pub verify_handshake_ack_lem :
    (msg : Msg)
    → MsgFits msg
    → (b : Bool) × (verify_handshake_ack msg ≡ some b)
      × ((b ≡ true) ↔ HasPayload msg edhoc_handshake_ack_payload)
unfolding verify_handshake_ack
verify_handshake_ack_lem msg fits =
    payload_is_lem msg edhoc_handshake_ack_payload fits (omega arith)

abbrev pub IsControlMessage : Msg → Type 0
IsControlMessage msg =
    ((msg.type ≡ type_code key_test) × HasPayload msg key_test_payload)
    ⊎ ((msg.type ≡ type_code key_test_ack) × HasPayload msg key_test_ack_payload)

-- the three answers of the choice by the type
control_payload_lem :
    (type : ℕ)
    → ((type ≡ type_code key_test) × (control_payload type ≡ some key_test_payload))
      ⊎ (((type ≡ type_code key_test_ack) × (control_payload type ≡ some key_test_ack_payload))
          ⊎ ((type ≢ type_code key_test)
              × (type ≢ type_code key_test_ack)
              × (control_payload type ≡ none)))
unfolding control_payload
control_payload_lem type = ground arith

-- On a message that fits its buffer the check of a control message reads inside the payload, and
-- passes exactly if the type is one of the two control types and the payload is the string of that
-- type.
pub verify_control_payload_lem :
    (msg : Msg)
    → MsgFits msg
    → (b : Bool) × (verify_control_payload msg ≡ some b) × ((b ≡ true) ↔ IsControlMessage msg)
unfolding verify_control_payload check_payload
verify_control_payload_lem msg fits =
    let test = payload_is_lem msg key_test_payload fits (omega arith) in
    let answer = payload_is_lem msg key_test_ack_payload fits (omega arith) in
    elim (control_payload_lem msg.type) [
      | inl (is_test, e) ↦ rw e (
        test.0,
        test.1,
        (
          (λ b. inl (is_test, test.2.0 b)),
          elim [ inl t ↦ test.2.1 t.1 | inr t ↦ absurd (omega (arith, is_test, t.0)) ],
        ),
      )
      | inr (inl (is_answer, e)) ↦ rw e (
        answer.0,
        answer.1,
        (
          (λ b. inr (is_answer, answer.2.0 b)),
          elim [ inr t ↦ answer.2.1 t.1 | inl t ↦ absurd (omega (arith, is_answer, t.0)) ],
        ),
      )
      | inr (inr (not_test, not_answer, e)) ↦ rw e (
        false,
        refl,
        ((λ b. cc), elim [ inl t ↦ absurd (not_test t.0) | inr t ↦ absurd (not_answer t.0) ]),
      )
    ]
