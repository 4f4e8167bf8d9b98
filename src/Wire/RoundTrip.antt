-- ===== src/Wire/RoundTrip.antt =====
-- edhoc_transport_send and edhoc_transport_parse_rx of main/edhoc_transport.c, together.
use espnow_edhoc.Prelude.{
  ℕ, ◌+◌, ◌-◌, ◌%◌, ◌≤◌, ◌≡◌, refl, true, some, List, ◌++◌, arith, length, take, length-append,
  length-take, take_append_len, drop_append_len, take-all, All, All-append, All-take,
}
use espnow_edhoc.Memory.{zeros, length-zeros}
use espnow_edhoc.Packet.{IsByte, IsPacket}
use espnow_edhoc.EspNow.Receiving.{packet_of, packet_of-IsPacket}
use espnow_edhoc.Wire.{
  MsgType, type_code, Msg, hdr_bytes, send_hdr, header_len, u16, edhoc_transport_parse_rx,
}
use espnow_edhoc.Wire.Sending.{sent_frame, length-sent_frame}
use espnow_edhoc.Wire.Parsing.{IsMsgOf, hdr_of}
use espnow_edhoc.Wire.Receiving.{edhoc_transport_parse_rx_complete}

-- the message that the receiver of a frame sees
abbrev pub sent_msg : List ℕ → MsgType → ℕ → ℕ → List ℕ → ℕ → Msg
sent_msg src type session_id seq payload n = record {
  src_mac = src;
  type = type_code type;
  flags = 0;
  session_id = u16 session_id;
  seq = u16 seq;
  frag_idx = 0;
  frag_count = 1;
  payload_len = n;
  payload = take n payload ++ zeros (192 - n);
}

type_code-IsByte : (type : MsgType) → IsByte (type_code type)
type_code-IsByte type = ground arith

send_hdr-bytes :
    (type : MsgType) (session_id seq n : ℕ)
    → n ≤ 192
    → All IsByte (hdr_bytes (send_hdr type session_id seq n))
unfolding hdr_bytes send_hdr
send_hdr-bytes type session_id seq n le = omega (arith, type_code-IsByte type)

hdr_of-sent_msg :
    (src : List ℕ) (type : MsgType) (session_id seq : ℕ) (payload : List ℕ) (n : ℕ)
    → n ≤ 192
    → hdr_of (sent_msg src type session_id seq payload n) ≡ send_hdr type session_id seq n
unfolding send_hdr
hdr_of-sent_msg src type session_id seq payload n le =
    let same : n ≡ n % 65536 = omega arith in
    λ i. record (hdr_of (sent_msg src type session_id seq payload n)) { payload_len = same i }

module _ (src : List ℕ) (type : MsgType) (session_id seq : ℕ) (payload : List ℕ) (n : ℕ)
    (mac : length src ≡ 6) (le : n ≤ 192) (fits : n ≤ length payload) where
  frame_len : length (sent_frame type session_id seq payload n) ≡ header_len + n
  frame_len = length-sent_frame type session_id seq payload n fits

  pub sent_msg-IsMsgOf :
      IsMsgOf
        (packet_of src (sent_frame type session_id seq payload n) (header_len + n))
        (sent_msg src type session_id seq payload n)
  sent_msg-IsMsgOf = record {
    mac = refl;
    len_bound = le;
    in_packet = ground arith;
    frag_bound = omega arith;
    size = omega (
      arith,
      length-append (take n payload) (zeros (192 - n)),
      length-take n payload,
      length-zeros (192 - n),
    );
    padding =
        drop_append_len n (take n payload) (zeros (192 - n)) (omega (arith, length-take n payload));
    bytes =
        rw
          (
            hdr_of-sent_msg src type session_id seq payload n le,
            take_append_len n (take n payload) (zeros (192 - n))
                (omega (arith, length-take n payload)),
            take-all (header_len + n) (sent_frame type session_id seq payload n)
                (omega (arith, frame_len)),
            take_append_len (header_len + n) (sent_frame type session_id seq payload n)
                (zeros (250 - (header_len + n))) frame_len,
          )
          refl;
  }

  pub sent_frame-IsPacket :
      All IsByte payload
      → IsPacket (packet_of src (sent_frame type session_id seq payload n) (header_len + n))
  sent_frame-IsPacket small =
      packet_of-IsPacket src (sent_frame type session_id seq payload n) (header_len + n) mac
        (omega arith) (omega (arith, frame_len))
        (All-append IsByte (hdr_bytes (send_hdr type session_id seq n)) (take n payload)
          (send_hdr-bytes type session_id seq n le) (All-take IsByte n payload small))

  -- The frame that is sent for a payload of at most 192 bytes, delivered as a packet, is parsed to
  -- a message with the same type and payload, and with session and sequence number modulo 2^16.
  pub parse_rx-send :
      All IsByte payload
      → (out_msg : Msg)
      → edhoc_transport_parse_rx
          (some (packet_of src (sent_frame type session_id seq payload n) (header_len + n)))
          (some out_msg)
        ≡ some (true, some (sent_msg src type session_id seq payload n))
  parse_rx-send small out_msg =
      edhoc_transport_parse_rx_complete
        (packet_of src (sent_frame type session_id seq payload n) (header_len + n))
        (sent_frame-IsPacket small) (sent_msg src type session_id seq payload n) sent_msg-IsMsgOf
        out_msg
