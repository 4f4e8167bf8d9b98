-- ===== src/Tests/Parts.antt =====
-- The theorems on the foreign interface and the trace vectors, at concrete inputs.
use Prim.Native.Nat.{bit_xor}
use espnow_edhoc.Prelude.{◌≡◌, ◌↔◌, refl, Bool, true, some, arith}
use espnow_edhoc.Firmware.{returned, empty}
use espnow_edhoc.Ffi.{
  rotate_left_32, lakers_ffi_transform, lakers_ffi_self_test, lakers_ffi_boot_probe, ffi_test_input,
  ffi_transform_mask,
}
use espnow_edhoc.Ffi.SelfTest.{rotated, RotatesLeft, transform_lem, self_test_passes}
use espnow_edhoc.Trace.{rfc9529_s3_message_3, edhoc_trace_verify_message}
use espnow_edhoc.Trace.Verify.{Matches, trace_verify_lem}
use espnow_edhoc.Wire.{m3}
use espnow_edhoc.Tests.{toy_board}

toy-RotatesLeft : RotatesLeft rotated
toy-RotatesLeft = record { rotates = λ x n h h'. refl }

transform_lem_example :
    lakers_ffi_transform rotated ffi_test_input
    ≡ bit_xor (rotate_left_32 ffi_test_input 7) ffi_transform_mask
transform_lem_example = transform_lem rotated toy-RotatesLeft ffi_test_input (omega arith)

self_test_passes_example :
    ((lakers_ffi_self_test rotated (some 0)).0 ≡ true)
    × (lakers_ffi_boot_probe rotated (toy_board empty) ≡ returned tt (toy_board empty))
self_test_passes_example = self_test_passes rotated toy-RotatesLeft (some 0) (toy_board empty)

trace_verify_lem_example :
    (b : Bool) × (edhoc_trace_verify_message m3 (some rfc9529_s3_message_3) 19 ≡ some b)
    × ((b ≡ true) ↔ Matches m3 rfc9529_s3_message_3 19)
trace_verify_lem_example = trace_verify_lem m3 rfc9529_s3_message_3 19 (omega arith)
