-- ===== src/Trace.antt =====
-- main/edhoc_trace_vectors.c: the messages of RFC 9529, section 3, that an earlier milestone sent.
pub mod Verify
use Prim.Native.String.{String}
use mathlib.Core.Option
use espnow_edhoc.Prelude.{
  ℕ, not, ◌&&◌, ltb, Bool, true, false, Option, none, some, List, [], ◌∷◌, ◌==◌, if◌then◌else◌,
  length,
}
use espnow_edhoc.Memory.{memcmp_eq, is_null, pointee, read_bytes}
use espnow_edhoc.Wire.{MsgType, m1, m2, m3, ack, type_code, edhoc_transport_type_str}

abbrev pub rfc9529_s3_message_1 : List ℕ
rfc9529_s3_message_1 =
    0x03 ∷ 0x82 ∷ 0x06 ∷ 0x02 ∷ 0x58 ∷ 0x20 ∷ 0x8a ∷ 0xf6 ∷ 0xf4 ∷ 0x30 ∷ 0xeb ∷ 0xe1 ∷ 0x8d ∷ 0x34
    ∷ 0x18 ∷ 0x40 ∷ 0x17 ∷ 0xa9 ∷ 0xa1 ∷ 0x1b ∷ 0xf5 ∷ 0x11 ∷ 0xc8 ∷ 0xdf ∷ 0xf8 ∷ 0xf8 ∷ 0x34
    ∷ 0x73 ∷ 0x0b ∷ 0x96 ∷ 0xc1 ∷ 0xb7 ∷ 0xc8 ∷ 0xdb ∷ 0xca ∷ 0x2f ∷ 0xc3 ∷ 0xb6 ∷ 0x37 ∷ []

abbrev pub rfc9529_s3_message_2 : List ℕ
rfc9529_s3_message_2 =
    0x58 ∷ 0x2b ∷ 0x41 ∷ 0x97 ∷ 0x01 ∷ 0xd7 ∷ 0xf0 ∷ 0x0a ∷ 0x26 ∷ 0xc2 ∷ 0xdc ∷ 0x58 ∷ 0x7a ∷ 0x36
    ∷ 0xdd ∷ 0x75 ∷ 0x25 ∷ 0x49 ∷ 0xf3 ∷ 0x37 ∷ 0x63 ∷ 0xc8 ∷ 0x93 ∷ 0x42 ∷ 0x2c ∷ 0x8e ∷ 0xa0
    ∷ 0xf9 ∷ 0x55 ∷ 0xa1 ∷ 0x3a ∷ 0x4f ∷ 0xf5 ∷ 0xd5 ∷ 0x98 ∷ 0x62 ∷ 0xa1 ∷ 0xee ∷ 0xf9 ∷ 0xe0
    ∷ 0xe7 ∷ 0xe1 ∷ 0x88 ∷ 0x6f ∷ 0xcd ∷ []

abbrev pub rfc9529_s3_message_3 : List ℕ
rfc9529_s3_message_3 =
    0x52 ∷ 0xe5 ∷ 0x62 ∷ 0x09 ∷ 0x7b ∷ 0xc4 ∷ 0x17 ∷ 0xdd ∷ 0x59 ∷ 0x19 ∷ 0x48 ∷ 0x5a ∷ 0xc7 ∷ 0x89
    ∷ 0x1f ∷ 0xfd ∷ 0x90 ∷ 0xa9 ∷ 0xfc ∷ []

abbrev pub milestone4_done_ack : List ℕ
milestone4_done_ack =
    0x4f ∷ 0x4b ∷ 0x5f ∷ 0x52 ∷ 0x46 ∷ 0x43 ∷ 0x39 ∷ 0x35 ∷ 0x32 ∷ 0x39 ∷ 0x5f ∷ 0x54 ∷ 0x52 ∷ 0x41
    ∷ 0x43 ∷ 0x45 ∷ []

-- what `*data` and `*len` are set to
unfoldable pub trace_of : MsgType → Option (List ℕ) × ℕ
trace_of m1 = (some rfc9529_s3_message_1, length rfc9529_s3_message_1)
trace_of m2 = (some rfc9529_s3_message_2, length rfc9529_s3_message_2)
trace_of m3 = (some rfc9529_s3_message_3, length rfc9529_s3_message_3)
trace_of ack = (some milestone4_done_ack, length milestone4_done_ack)
trace_of _ = (none, 0)

-- `data` and `len` are pointers that may be NULL, here to what they point to. The result has what
-- the call returns and the two pointees after it.
unfoldable pub edhoc_trace_get_message :
    MsgType → Option (Option (List ℕ)) → Option ℕ → Bool × Option (Option (List ℕ)) × Option ℕ
unfolding trace_of
edhoc_trace_get_message type (some _) (some _) =
    (not (is_null (trace_of type).0), some (trace_of type).0, some (trace_of type).1)
edhoc_trace_get_message type bytes len = (false, bytes, len)

-- the comparison after the call of `edhoc_trace_get_message`
verify_bytes : List ℕ → ℕ → Bool × Option (Option (List ℕ)) × Option ℕ → Option Bool
verify_bytes bytes len (true, some (some expected), some expected_len) =
    if len == expected_len then memcmp_eq bytes expected expected_len else some false
verify_bytes bytes len _ = some false

-- `none` is a read outside an array
unfoldable pub edhoc_trace_verify_message : MsgType → Option (List ℕ) → ℕ → Option Bool
unfolding edhoc_trace_get_message verify_bytes
edhoc_trace_verify_message type none len = some false
edhoc_trace_verify_message type (some bytes) len =
    verify_bytes bytes len (edhoc_trace_get_message type (some none) (some 0))

abbrev pub edhoc_trace_rfc9529_section : String
edhoc_trace_rfc9529_section = "RFC9529 Section 3 Static DH CCS/kid"

-- a line of the log: the prefix, the name of the type, the length and the source
pub record TraceLine : Type 0 where
  pub prefix : String
  pub type_name : String
  pub len : ℕ
  pub source : String

prefix_or_default : Option String → String
prefix_or_default none = "EDHOC trace"
prefix_or_default (some prefix) = prefix

line : Option String → MsgType → ℕ → TraceLine
unfolding prefix_or_default
line prefix type len = record {
  prefix = prefix_or_default prefix;
  type_name = edhoc_transport_type_str (type_code type);
  len = len;
  source = edhoc_trace_rfc9529_section;
}

-- What is written to the log, the line and the bytes of the dump; `none` is a read outside an array.
unfoldable pub edhoc_trace_log_message :
    Option String → MsgType → Option (List ℕ) → ℕ → Option (TraceLine × List ℕ)
unfolding line
edhoc_trace_log_message prefix type bytes len =
    Option.map (λ dump. (line prefix type len, dump))
      (if not (is_null bytes) && ltb 0 len then read_bytes (pointee bytes) len else some [])
