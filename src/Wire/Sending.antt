-- ===== src/Wire/Sending.antt =====
-- edhoc_transport_send of main/edhoc_transport.c: what it hands to the driver, and its errors.
use mathlib.Core.Bool.{and-false}
use mathlib.Core.List.{append_assoc}
use espnow_edhoc.Prelude.{
  lt→ltb, ℕ, zero, suc, ◌+◌, ◌-◌, ◌≤◌, ◌≡◌, refl, ◌∙◌, true, false, ◌||◌, ◌&&◌, Option, none, some,
  List, ◌++◌, arith, length, take, length-append, length-take, take-all, ltb, ◌==◌, ◌⊎◌, inl, inr,
  if◌then◌else◌, Bool-cases,
}
use espnow_edhoc.Memory.{
  zeros, memcpy, memcpy_append, memcpy-zeros, read_bytes, read_bytes_append, is_null, pointee,
}
use espnow_edhoc.Platform.{esp_err_invalid_arg, esp_err_invalid_size, Platform}
use espnow_edhoc.Firmware.{Firmware, ◌>>=◌, return, call, checked}
use espnow_edhoc.EspNow.{espnow_transport_send}
use espnow_edhoc.Wire.{
  MsgType, Hdr, hdr_bytes, send_hdr, copy_payload, header_len, edhoc_transport_send,
}

-- The bytes of the frame for a message: its header, and the first `n` bytes of the payload.
abbrev pub sent_frame : MsgType → ℕ → ℕ → List ℕ → ℕ → List ℕ
sent_frame type session_id seq payload n =
    hdr_bytes (send_hdr type session_id seq n) ++ take n payload

pub length-hdr_bytes : (h : Hdr) → length (hdr_bytes h) ≡ header_len
unfolding hdr_bytes
length-hdr_bytes h = refl

length_frame :
    (h : Hdr) (payload : List ℕ) (n : ℕ)
    → n ≤ length payload
    → length (hdr_bytes h ++ take n payload) ≡ header_len + n
length_frame h payload n fits =
    omega (
      arith,
      length-append (hdr_bytes h) (take n payload),
      length-hdr_bytes h,
      length-take n payload,
    )

pub length-sent_frame :
    (type : MsgType) (session_id seq : ℕ) (payload : List ℕ) (n : ℕ)
    → n ≤ length payload
    → length (sent_frame type session_id seq payload n) ≡ header_len + n
length-sent_frame type session_id seq payload n =
    length_frame (send_hdr type session_id seq n) payload n

-- The two copies into the zeroed frame put the payload behind the header.
copy_hdr :
    (h : Hdr) → memcpy (zeros 250) 0 (hdr_bytes h) header_len ≡ some (hdr_bytes h ++ zeros 238)
copy_hdr h =
    memcpy-zeros (hdr_bytes h) 250 12 (omega arith) (rw length-hdr_bytes (omega arith))
    ∙ rw (take-all 12 (hdr_bytes h) (rw length-hdr_bytes (omega arith))) refl

copy_payload_lem :
    (h : Hdr) (payload : Option (List ℕ)) (n : ℕ)
    → n ≤ 192
    → n ≤ length (pointee payload)
    → copy_payload (hdr_bytes h ++ zeros 238) payload n
      ≡ some (hdr_bytes h ++ (take n (pointee payload) ++ zeros (238 - n)))
unfolding copy_payload
copy_payload_lem h payload zero le fits = refl
copy_payload_lem h payload (suc n) le fits = rw (lt→ltb 0 (suc n) (omega arith)) (
    memcpy_append (hdr_bytes h) (pointee payload) 12 238 (suc n) (length-hdr_bytes h) (omega arith)
      fits)

-- the bytes that the driver is handed are those of the frame
read_frame :
    (h : Hdr) (payload : List ℕ) (n : ℕ)
    → n ≤ length payload
    → read_bytes (hdr_bytes h ++ (take n payload ++ zeros (238 - n))) (header_len + n)
      ≡ some (hdr_bytes h ++ take n payload)
read_frame h payload n fits = rw (← append_assoc (hdr_bytes h) (take n payload) (zeros (238 - n))) (
    read_bytes_append (hdr_bytes h ++ take n payload) (zeros (238 - n)) (header_len + n)
      (length_frame h payload n fits))

frame_len_ok : (n : ℕ) → n ≤ 192 → ((header_len + n) == 0 || ltb 250 (header_len + n)) ≡ false
frame_len_ok n le = ground arith

frame_guard : (n : ℕ) → ltb 192 n ≡ false → ltb 250 (header_len + n) ≡ false
frame_guard n h = ground arith

-- What the code does once its guards have passed.
send_accepted :
    {p : Platform} (mac : List ℕ) (h : Hdr) (payload : Option (List ℕ)) (n : ℕ) (fw : Firmware p)
    → n ≤ 192
    → n ≤ length (pointee payload)
    → (do
      frame ← checked (memcpy (zeros 250) 0 (hdr_bytes h) header_len)
      full ← checked (copy_payload frame payload n)
      espnow_transport_send (some mac) (some full) (header_len + n))
        fw
      ≡ call (p.idf.esp_now_send mac (hdr_bytes h ++ take n (pointee payload))) fw
unfolding espnow_transport_send
send_accepted {p} mac h payload n fw le fits =
    rw (copy_hdr h, copy_payload_lem h payload n le fits, read_frame h (pointee payload) n fits)
      (rw (frame_len_ok n le) refl)

-- Every branch of a send whose buffer is NULL or holds the payload: a NULL address or a NULL
-- payload of positive length gives ESP_ERR_INVALID_ARG, a payload over 192 bytes
-- ESP_ERR_INVALID_SIZE, and any other is given to the driver as one frame, header first.
pub edhoc_transport_send_lem :
    {p : Platform} (peer_mac : Option (List ℕ)) (type : MsgType) (session_id seq : ℕ)
    (payload : Option (List ℕ)) (n : ℕ) (fw : Firmware p)
    → (is_null payload ≡ true) ⊎ (n ≤ length (pointee payload))
    → edhoc_transport_send peer_mac type session_id seq payload n fw ≡ (
        if is_null peer_mac || (ltb 0 n && is_null payload)
        then return esp_err_invalid_arg fw
        else if ltb 192 n
        then return esp_err_invalid_size fw
        else call
            (p.idf.esp_now_send
              (pointee peer_mac)
              (sent_frame type session_id seq (pointee payload) n))
            fw)
unfolding edhoc_transport_send
edhoc_transport_send_lem none type session_id seq payload n fw h = refl
edhoc_transport_send_lem (some mac) type session_id seq none zero fw h =
    send_accepted mac (send_hdr type session_id seq 0) none 0 fw (omega arith) (omega arith)
edhoc_transport_send_lem (some mac) type session_id seq none (suc n) fw h =
    rw (lt→ltb 0 (suc n) (omega arith)) refl
edhoc_transport_send_lem (some mac) type session_id seq (some payload) n fw (inl h) = cc
edhoc_transport_send_lem (some mac) type session_id seq (some payload) n fw (inr h) =
    rw (and-false (ltb 0 n)) (elim (Bool-cases (ltb 192 n)) [
      | inl large ↦ rw large refl
      | inr small ↦
          rw (small, frame_guard n small)
            (send_accepted mac (send_hdr type session_id seq n) (some payload) n fw (ground arith)
              h)
    ])
