-- ===== src/Ffi.antt =====
-- components/lakers_ffi/lakers_ffi_component.c and the two test exports of rust/src/lib.rs: the
-- status names, the self-test of the foreign interface, and the worker task around session set-up.
pub mod SelfTest
use Prim.Native.Nat.{bit_or, bit_xor}
use Prim.Native.String.{String}
use espnow_edhoc.Prelude.{
  ℕ, ◌-◌, ◌*◌, ◌/◌, ◌%◌, ◌^◌, Bool, ◌&&◌, ◌||◌, Option, none, some, List, ◌==◌, if◌then◌else◌,
}
use espnow_edhoc.Memory.{zeros, memcpy, is_null, pointee}
use espnow_edhoc.Packet.{ℤ, pos, negsuc}
use espnow_edhoc.Platform.{Platform}
use espnow_edhoc.Firmware.{M, ◌>>=◌, return, abort, call, checked}
use espnow_edhoc.Session.{
  Status, status_ok, status_invalid_argument, status_wrong_state, status_buffer_too_small,
  status_protocol_error, status_credential_error, lakers_edhoc_session_init,
}

-- the numbers of the status codes, the same in lakers_ffi.h and in lib.rs
unfoldable pub status_code : Status → ℤ
status_code status_ok = pos 0
status_code status_invalid_argument = negsuc 0
status_code status_wrong_state = negsuc 1
status_code status_buffer_too_small = negsuc 2
status_code status_protocol_error = negsuc 3
status_code status_credential_error = negsuc 4

negative_status_string : ℕ → String
negative_status_string n =
    if n == 0
    then "INVALID_ARGUMENT"
    else if n == 1
    then "WRONG_STATE"
    else if n == 2
    then "BUFFER_TOO_SMALL"
    else if n == 3
    then "PROTOCOL_ERROR"
    else if n == 4
    then "CREDENTIAL_ERROR"
    else "UNKNOWN"

unfoldable pub lakers_edhoc_status_string : ℤ → String
unfolding negative_status_string
lakers_edhoc_status_string (pos n) = if n == 0 then "OK" else "UNKNOWN"
lakers_edhoc_status_string (negsuc n) = negative_status_string n

abbrev pub lakers_ffi_abi_version_expected : ℕ
lakers_ffi_abi_version_expected = 0x0009_0001

abbrev pub ffi_test_input : ℕ
ffi_test_input = 0x1234_5678

-- the mask of the C side
abbrev pub ffi_transform_mask : ℕ
ffi_transform_mask = 0xED0C_0009

-- lib.rs: `TRANSFORM_MASK`, the mask of the Rust side
abbrev pub transform_mask : ℕ
transform_mask = 0xED0C_0009

-- lakers_ffi.h: `LAKERS_EDHOC_MAX_MESSAGE_LEN`
abbrev pub lakers_edhoc_max_message_len : ℕ
lakers_edhoc_max_message_len = 192

-- lakers_ffi.h: `lakers_edhoc_role_t`
abbrev pub lakers_edhoc_role_initiator : ℕ
lakers_edhoc_role_initiator = 1

abbrev pub lakers_edhoc_role_responder : ℕ
lakers_edhoc_role_responder = 2

-- lib.rs: `ABI_VERSION`
unfoldable pub lakers_ffi_abi_version : ℕ
lakers_ffi_abi_version = 0x0009_0001

-- `(value << shift) | (value >> (32U - shift))`, for a shift of 1 to 31
unfoldable pub rotate_left_32 : ℕ → ℕ → ℕ
rotate_left_32 value shift = bit_or (value * 2 ^ shift % 2 ^ 32) (value / 2 ^ (32 - shift))

-- lib.rs: `input.rotate_left(7) ^ TRANSFORM_MASK`. `u32::rotate_left`, of Rust's core library, is a
-- parameter.
unfoldable pub lakers_ffi_transform : (ℕ → ℕ → ℕ) → ℕ → ℕ
lakers_ffi_transform rotate_left input = bit_xor (rotate_left input 7) transform_mask

-- What the call returns, and what `*rust_output` then holds.
unfoldable pub lakers_ffi_self_test : (ℕ → ℕ → ℕ) → Option ℕ → Bool × Option ℕ
unfolding lakers_ffi_transform rotate_left_32 lakers_ffi_abi_version
lakers_ffi_self_test rotate_left rust_output =
    let output = lakers_ffi_transform rotate_left ffi_test_input in
    let expected = bit_xor (rotate_left_32 ffi_test_input 7) ffi_transform_mask in
    (
      lakers_ffi_abi_version == lakers_ffi_abi_version_expected && output == expected,
      if is_null rust_output then none else some output,
    )

-- The constructor that runs before `app_main`; `rust_output` is a local of it.
unfoldable pub lakers_ffi_boot_probe : {p : Platform} → (ℕ → ℕ → ℕ) → M p (Unit {0})
lakers_ffi_boot_probe rotate_left =
    if (lakers_ffi_self_test rotate_left (some 0)).0 then return tt else abort

-- `lakers_edhoc_session_init` as the linker redirects it. The worker runs the call on copies of the
-- addresses and notifies the caller, which waits for it.
unfoldable pub wrap_lakers_edhoc_session_init :
    {p : Platform} → ℕ → Option (List ℕ) → Option (List ℕ) → ℕ → M p Status
wrap_lakers_edhoc_session_init {p} role own_mac peer_mac channel =
    if is_null own_mac || is_null peer_mac then return status_invalid_argument else do
      own ← checked (memcpy (zeros 6) 0 (pointee own_mac) 6)
      peer ← checked (memcpy (zeros 6) 0 (pointee peer_mac) 6)
      created ← call p.idf.x_task_create
      if created
          then lakers_edhoc_session_init role (some own) (some peer) channel
          else return status_protocol_error
