-- ===== src/Session/Credentials.antt =====
-- components/lakers_ffi/rust/src/lib.rs: the test credentials and private keys.
use espnow_edhoc.Prelude.{ℕ, List, [], ◌∷◌}

abbrev pub cred_i : List ℕ
cred_i =
    0xA2 ∷ 0x02 ∷ 0x77 ∷ 0x34 ∷ 0x32 ∷ 0x2D ∷ 0x35 ∷ 0x30 ∷ 0x2D ∷ 0x33 ∷ 0x31 ∷ 0x2D ∷ 0x46 ∷ 0x46
    ∷ 0x2D ∷ 0x45 ∷ 0x46 ∷ 0x2D ∷ 0x33 ∷ 0x37 ∷ 0x2D ∷ 0x33 ∷ 0x32 ∷ 0x2D ∷ 0x33 ∷ 0x39 ∷ 0x08
    ∷ 0xA1 ∷ 0x01 ∷ 0xA5 ∷ 0x01 ∷ 0x02 ∷ 0x02 ∷ 0x41 ∷ 0x2B ∷ 0x20 ∷ 0x01 ∷ 0x21 ∷ 0x58 ∷ 0x20
    ∷ 0xAC ∷ 0x75 ∷ 0xE9 ∷ 0xEC ∷ 0xE3 ∷ 0xE5 ∷ 0x0B ∷ 0xFC ∷ 0x8E ∷ 0xD6 ∷ 0x03 ∷ 0x99 ∷ 0x88
    ∷ 0x95 ∷ 0x22 ∷ 0x40 ∷ 0x5C ∷ 0x47 ∷ 0xBF ∷ 0x16 ∷ 0xDF ∷ 0x96 ∷ 0x66 ∷ 0x0A ∷ 0x41 ∷ 0x29
    ∷ 0x8C ∷ 0xB4 ∷ 0x30 ∷ 0x7F ∷ 0x7E ∷ 0xB6 ∷ 0x22 ∷ 0x58 ∷ 0x20 ∷ 0x6E ∷ 0x5D ∷ 0xE6 ∷ 0x11
    ∷ 0x38 ∷ 0x8A ∷ 0x4B ∷ 0x8A ∷ 0x82 ∷ 0x11 ∷ 0x33 ∷ 0x4A ∷ 0xC7 ∷ 0xD3 ∷ 0x7E ∷ 0xCB ∷ 0x52
    ∷ 0xA3 ∷ 0x87 ∷ 0xD2 ∷ 0x57 ∷ 0xE6 ∷ 0xDB ∷ 0x3C ∷ 0x2A ∷ 0x93 ∷ 0xDF ∷ 0x21 ∷ 0xFF ∷ 0x3A
    ∷ 0xFF ∷ 0xC8 ∷ []

abbrev pub initiator_private : List ℕ
initiator_private =
    0xFB ∷ 0x13 ∷ 0xAD ∷ 0xEB ∷ 0x65 ∷ 0x18 ∷ 0xCE ∷ 0xE5 ∷ 0xF8 ∷ 0x84 ∷ 0x17 ∷ 0x66 ∷ 0x08 ∷ 0x41
    ∷ 0x14 ∷ 0x2E ∷ 0x83 ∷ 0x0A ∷ 0x81 ∷ 0xFE ∷ 0x33 ∷ 0x43 ∷ 0x80 ∷ 0xA9 ∷ 0x53 ∷ 0x40 ∷ 0x6A
    ∷ 0x13 ∷ 0x05 ∷ 0xE8 ∷ 0x70 ∷ 0x6B ∷ []

abbrev pub cred_r : List ℕ
cred_r =
    0xA2 ∷ 0x02 ∷ 0x60 ∷ 0x08 ∷ 0xA1 ∷ 0x01 ∷ 0xA5 ∷ 0x01 ∷ 0x02 ∷ 0x02 ∷ 0x41 ∷ 0x0A ∷ 0x20 ∷ 0x01
    ∷ 0x21 ∷ 0x58 ∷ 0x20 ∷ 0xBB ∷ 0xC3 ∷ 0x49 ∷ 0x60 ∷ 0x52 ∷ 0x6E ∷ 0xA4 ∷ 0xD3 ∷ 0x2E ∷ 0x94
    ∷ 0x0C ∷ 0xAD ∷ 0x2A ∷ 0x23 ∷ 0x41 ∷ 0x48 ∷ 0xDD ∷ 0xC2 ∷ 0x17 ∷ 0x91 ∷ 0xA1 ∷ 0x2A ∷ 0xFB
    ∷ 0xCB ∷ 0xAC ∷ 0x93 ∷ 0x62 ∷ 0x20 ∷ 0x46 ∷ 0xDD ∷ 0x44 ∷ 0xF0 ∷ 0x22 ∷ 0x58 ∷ 0x20 ∷ 0x45
    ∷ 0x19 ∷ 0xE2 ∷ 0x57 ∷ 0x23 ∷ 0x6B ∷ 0x2A ∷ 0x0C ∷ 0xE2 ∷ 0x02 ∷ 0x3F ∷ 0x09 ∷ 0x31 ∷ 0xF1
    ∷ 0xF3 ∷ 0x86 ∷ 0xCA ∷ 0x7A ∷ 0xFD ∷ 0xA6 ∷ 0x4F ∷ 0xCD ∷ 0xE0 ∷ 0x10 ∷ 0x8C ∷ 0x22 ∷ 0x4C
    ∷ 0x51 ∷ 0xEA ∷ 0xBF ∷ 0x60 ∷ 0x72 ∷ []

abbrev pub responder_private : List ℕ
responder_private =
    0x72 ∷ 0xCC ∷ 0x47 ∷ 0x61 ∷ 0xDB ∷ 0xD4 ∷ 0xC7 ∷ 0x8F ∷ 0x75 ∷ 0x89 ∷ 0x31 ∷ 0xAA ∷ 0x58 ∷ 0x9D
    ∷ 0x34 ∷ 0x8D ∷ 0x1E ∷ 0xF8 ∷ 0x74 ∷ 0xA7 ∷ 0xE3 ∷ 0x03 ∷ 0xED ∷ 0xE2 ∷ 0xF1 ∷ 0x40 ∷ 0xDC
    ∷ 0xF3 ∷ 0xE6 ∷ 0xAA ∷ 0x4A ∷ 0xAC ∷ []
