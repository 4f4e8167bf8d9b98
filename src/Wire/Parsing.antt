-- ===== src/Wire/Parsing.antt =====
-- main/edhoc_transport.c: when a packet holds a message, and the parts of edhoc_transport_parse_rx.
use espnow_edhoc.Prelude.{
  ℕ, zero, suc, ◌+◌, ◌-◌, ◌≤◌, ◌<◌, ◌≡◌, refl, true, false, some, List, ◌∷◌, ◌++◌, arith, length,
  take, drop, length-drop, ltb, lt→ltb, if◌then◌else◌, All,
}
use espnow_edhoc.Memory.{zeros, memcpy, memcpy-zeros, memcpy_whole}
use espnow_edhoc.Packet.{ℤ, pos, negsuc, Packet, IsByte, int_lt, HasLen}
use espnow_edhoc.Wire.{
  Msg, Hdr, hdr_bytes, read_hdr, header_len, fill_msg, hdr_accepted, to_size_t,
  edhoc_transport_magic, edhoc_transport_version,
}

-- the header that a message came with
abbrev pub hdr_of : Msg → Hdr
hdr_of msg = record {
  magic = edhoc_transport_magic;
  version = edhoc_transport_version;
  type = msg.type;
  flags = msg.flags;
  session_id = msg.session_id;
  seq = msg.seq;
  frag_idx = msg.frag_idx;
  frag_count = msg.frag_count;
  payload_len = msg.payload_len;
}

-- the message that a packet with this header holds
abbrev pub msg_of : Packet → Hdr → Msg
msg_of rx hdr = record {
  src_mac = rx.src_mac;
  type = hdr.type;
  flags = hdr.flags;
  session_id = hdr.session_id;
  seq = hdr.seq;
  frag_idx = hdr.frag_idx;
  frag_count = hdr.frag_count;
  payload_len = hdr.payload_len;
  payload = take hdr.payload_len (drop header_len rx.contents) ++ zeros (192 - hdr.payload_len);
}

-- What a receiver may rely on: the payload lies inside the packet and inside its own array, which
-- is zero behind it, and header and payload written out again are the bytes of the packet.
pub record IsMsgOf (rx : Packet) (msg : Msg) : Type 0 where
  pub mac : msg.src_mac ≡ rx.src_mac
  pub len_bound : msg.payload_len ≤ 192
  pub in_packet : int_lt rx.data_len (header_len + msg.payload_len) ≡ false
  pub frag_bound : msg.frag_idx < msg.frag_count
  pub size : length msg.payload ≡ 192
  pub padding : drop msg.payload_len msg.payload ≡ zeros (192 - msg.payload_len)
  pub bytes :
      hdr_bytes (hdr_of msg) ++ take msg.payload_len msg.payload
      ≡ take (header_len + msg.payload_len) rx.contents

-- A header that was written is read back, whatever follows it.
pub read_hdr-hdr_bytes : (h : Hdr) (rest : List ℕ) → read_hdr (hdr_bytes h ++ rest) ≡ some h
unfolding read_hdr hdr_bytes
read_hdr-hdr_bytes h rest = ground arith

-- From an array of at least 12 bytes a header is read, and it is the one written there.
pub read_hdr_total :
    (xs : List ℕ)
    → header_len ≤ length xs
    → All IsByte xs
    → (h : Hdr) × (read_hdr xs ≡ some h) × (hdr_bytes h ≡ take header_len xs)
unfolding read_hdr hdr_bytes
read_hdr_total (b₀ ∷ b₁ ∷ b₂ ∷ b₃ ∷ b₄ ∷ b₅ ∷ b₆ ∷ b₇ ∷ b₈ ∷ b₉ ∷ b₁₀ ∷ b₁₁ ∷ rest) h k =
    (_, refl, ground arith)
read_hdr_total _ h k = absurd (omega arith)

pub copy_in :
    (contents : List ℕ) (n : ℕ)
    → n ≤ 192
    → header_len + n ≤ length contents
    → (if ltb 0 n then memcpy (zeros 192) 0 (drop header_len contents) n else some (zeros 192))
      ≡ some (take n (drop header_len contents) ++ zeros (192 - n))
copy_in contents zero le fits = refl
copy_in contents (suc n) le fits = rw (lt→ltb 0 (suc n) (omega arith)) (
    memcpy-zeros (drop header_len contents) 192 (suc n) le
      (omega (arith, length-drop header_len contents)))

-- The copies into the message stay inside its arrays.
pub fill_msg_lem :
    (rx : Packet) (hdr : Hdr)
    → length rx.src_mac ≡ 6
    → hdr.payload_len ≤ 192
    → header_len + hdr.payload_len ≤ length rx.contents
    → fill_msg rx hdr ≡ some (msg_of rx hdr)
unfolding fill_msg
fill_msg_lem rx hdr mac le fits =
    rw (memcpy_whole rx.src_mac 6 mac, fill_msg)
      (rw (copy_in rx.contents hdr.payload_len le fits) refl)

-- What the guards on the header say of a frame that is taken.
pub hdr_accepted_lem :
    (hdr : Hdr) (data_len : ℤ)
    → hdr_accepted hdr data_len ≡ true
    → (hdr.magic ≡ edhoc_transport_magic)
      × (hdr.version ≡ edhoc_transport_version)
      × (hdr.frag_idx < hdr.frag_count)
      × (hdr.payload_len ≤ 192)
      × (header_len + hdr.payload_len ≤ to_size_t data_len)
unfolding hdr_accepted
hdr_accepted_lem hdr data_len h = ground arith

pub to_size_t-le : (d : ℤ) → HasLen d → int_lt d header_len ≡ false → to_size_t d ≤ 250
to_size_t-le (pos n) h long = h
to_size_t-le (negsuc n) h long = cc

pub int_lt_of_to_size_t :
    (d : ℤ) (n : ℕ)
    → int_lt d header_len ≡ false
    → header_len + n ≤ to_size_t d
    → int_lt d (header_len + n) ≡ false
int_lt_of_to_size_t (pos k) n long h = ground arith
int_lt_of_to_size_t (negsuc k) n long h = cc

pub to_size_t_of_int_lt :
    (d : ℤ) (n : ℕ)
    → int_lt d (header_len + n) ≡ false
    → (int_lt d header_len ≡ false) × (header_len + n ≤ to_size_t d)
to_size_t_of_int_lt (pos k) n h = ground arith
to_size_t_of_int_lt (negsuc k) n h = cc
