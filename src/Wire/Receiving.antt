-- ===== src/Wire/Receiving.antt =====
-- edhoc_transport_parse_rx of main/edhoc_transport.c: what it reads from a packet.
use mathlib.Core.List.{append_assoc}
use espnow_edhoc.Prelude.{
  ℕ, ◌+◌, ◌-◌, ◌≤◌, ◌≡◌, refl, ap, sym, ◌∙◌, true, false, some, List, ◌++◌, arith, length, take,
  drop, length-append, length-take, length-drop, take_add, take-append-drop, take_append_len,
  drop_append_len, ◌⊎◌, inl, inr, Bool-cases,
}
use espnow_edhoc.Memory.{zeros, length-zeros}
use espnow_edhoc.Packet.{Packet, IsPacket, int_lt}
use espnow_edhoc.Wire.Sending.{length-hdr_bytes}
use espnow_edhoc.Wire.{
  Msg, Hdr, hdr_bytes, read_hdr, header_len, hdr_accepted, parse_packet, edhoc_transport_parse_rx,
}
use espnow_edhoc.Wire.Parsing.{
  hdr_of, msg_of, IsMsgOf, read_hdr-hdr_bytes, read_hdr_total, fill_msg_lem, hdr_accepted_lem,
  to_size_t-le, int_lt_of_to_size_t, to_size_t_of_int_lt,
}

module _ (rx : Packet) (wf : IsPacket rx) (hdr : Hdr)
    (written : hdr_bytes hdr ≡ take header_len rx.contents)
    (long : int_lt rx.data_len header_len ≡ false) (ok : hdr_accepted hdr rx.data_len ≡ true) where
  fits : header_len + hdr.payload_len ≤ length rx.contents
  fits = omega (
    arith,
    hdr_accepted_lem hdr rx.data_len ok,
    wf.data_size,
    to_size_t-le rx.data_len wf.len_fits long,
  )

  seg_len : length (take hdr.payload_len (drop header_len rx.contents)) ≡ hdr.payload_len
  seg_len = omega (
    arith,
    length-take hdr.payload_len (drop header_len rx.contents),
    length-drop header_len rx.contents,
    fits,
  )

  same_hdr : hdr_bytes (hdr_of (msg_of rx hdr)) ≡ hdr_bytes hdr
  unfolding hdr_bytes
  same_hdr = let guards = hdr_accepted_lem hdr rx.data_len ok in cc (guards.0, guards.1)

  msg_of-IsMsgOf : IsMsgOf rx (msg_of rx hdr)
  msg_of-IsMsgOf =
      let n : ℕ = hdr.payload_len in
      let seg : List ℕ = take n (drop header_len rx.contents) in
      record {
        mac = refl;
        len_bound = (hdr_accepted_lem hdr rx.data_len ok).3;
        in_packet = int_lt_of_to_size_t rx.data_len n long (hdr_accepted_lem hdr rx.data_len ok).4;
        frag_bound = (hdr_accepted_lem hdr rx.data_len ok).2;
        size = omega (
          arith,
          length-append seg (zeros (192 - n)),
          length-zeros (192 - n),
          seg_len,
          hdr_accepted_lem hdr rx.data_len ok,
        );
        padding = drop_append_len n seg (zeros (192 - n)) seg_len;
        bytes =
            rw (take_append_len n seg (zeros (192 - n)) seg_len, same_hdr, written)
              (sym (take_add header_len n rx.contents));
      }

  parse_taken :
      (out_msg : Msg)
      → read_hdr rx.contents ≡ some hdr
      → parse_packet rx out_msg ≡ some (true, some (msg_of rx hdr))
  unfolding parse_packet
  parse_taken out_msg read =
      let filled = fill_msg_lem rx hdr wf.mac_size (hdr_accepted_lem hdr rx.data_len ok).3 fits in
      ground (arith, filled)

parse_refused :
    (rx : Packet) (out_msg : Msg) (hdr : Hdr)
    → read_hdr rx.contents ≡ some hdr
    → hdr_accepted hdr rx.data_len ≡ false
    → parse_packet rx out_msg ≡ some (false, some out_msg)
unfolding parse_packet
parse_refused rx out_msg hdr read bad = ground arith

-- On a packet of the declared sizes the parser makes no access outside an array; it fails and
-- leaves the message alone, or succeeds with a message whose payload lies in the packet, is at
-- most 192 bytes, is padded with zeros, and whose header and payload are the bytes of the packet.
pub edhoc_transport_parse_rx_sound :
    (rx : Packet) (out_msg : Msg)
    → IsPacket rx
    → (edhoc_transport_parse_rx (some rx) (some out_msg) ≡ some (false, some out_msg))
      ⊎ ((msg : Msg) × (edhoc_transport_parse_rx (some rx) (some out_msg) ≡ some (true, some msg))
          × IsMsgOf rx msg)
unfolding edhoc_transport_parse_rx
edhoc_transport_parse_rx_sound rx out_msg wf =
    let (hdr, read, written) = read_hdr_total rx.contents (omega (arith, wf.data_size)) wf.bytes in
    elim (Bool-cases (int_lt rx.data_len header_len)) [
      | inl short ↦ inl (rw short refl)
      | inr long ↦ elim (Bool-cases (hdr_accepted hdr rx.data_len)) [
        | inl ok ↦ inr (
          msg_of rx hdr,
          parse_taken rx wf hdr written long ok out_msg read,
          msg_of-IsMsgOf rx wf hdr written long ok,
        )
        | inr bad ↦ inl (parse_refused rx out_msg hdr read bad)
      ]
    ]

module _ (rx : Packet) (wf : IsPacket rx) (msg : Msg) (m : IsMsgOf rx msg) where
  hdr_taken : hdr_accepted (hdr_of msg) rx.data_len ≡ true
  unfolding hdr_accepted
  hdr_taken =
      let len = to_size_t_of_int_lt rx.data_len msg.payload_len m.in_packet in
      ground (arith, m.len_bound, m.frag_bound, len.1)

  sent_len : length (take msg.payload_len msg.payload) ≡ msg.payload_len
  sent_len = omega (arith, length-take msg.payload_len msg.payload, m.size, m.len_bound)

  -- what follows the header in the packet
  rest : List ℕ
  rest = take msg.payload_len msg.payload ++ drop (header_len + msg.payload_len) rx.contents

  contents_eq : rx.contents ≡ hdr_bytes (hdr_of msg) ++ rest
  unfolding rest
  contents_eq =
      sym (take-append-drop (header_len + msg.payload_len) rx.contents)
      ∙ rw (← m.bytes) (append_assoc (hdr_bytes (hdr_of msg)) _ _)

  behind_hdr : drop header_len rx.contents ≡ rest
  behind_hdr =
      ap (λ (xs : List ℕ). drop header_len xs) contents_eq
      ∙ drop_append_len header_len (hdr_bytes (hdr_of msg)) rest (length-hdr_bytes (hdr_of msg))

  payload_back :
      take msg.payload_len (drop header_len rx.contents) ++ zeros (192 - msg.payload_len)
      ≡ msg.payload
  unfolding rest
  payload_back =
      rw (behind_hdr, take_append_len msg.payload_len _ _ sent_len, ← m.padding)
        (take-append-drop msg.payload_len msg.payload)

  msg_back : msg_of rx (hdr_of msg) ≡ msg
  msg_back = λ i. record msg { src_mac = sym m.mac i; payload = payload_back i }

  written_back : hdr_bytes (hdr_of msg) ≡ take header_len rx.contents
  written_back = sym (
      ap (λ (xs : List ℕ). take header_len xs) contents_eq
      ∙ take_append_len header_len (hdr_bytes (hdr_of msg)) rest (length-hdr_bytes (hdr_of msg)))

  read_back : read_hdr rx.contents ≡ some (hdr_of msg)
  read_back = ap read_hdr contents_eq ∙ read_hdr-hdr_bytes (hdr_of msg) rest

  -- Whenever a packet of the declared sizes holds a message, as the soundness theorem describes
  -- it, the parser succeeds with exactly that message.
  pub edhoc_transport_parse_rx_complete :
      (out_msg : Msg) → edhoc_transport_parse_rx (some rx) (some out_msg) ≡ some (true, some msg)
  unfolding edhoc_transport_parse_rx
  edhoc_transport_parse_rx_complete out_msg =
      parse_taken rx wf (hdr_of msg) written_back
        (to_size_t_of_int_lt rx.data_len msg.payload_len m.in_packet).0 hdr_taken out_msg read_back
      ∙ ap (λ (t : Msg). some (true, some t)) msg_back
