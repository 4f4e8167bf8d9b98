-- ===== src/Ffi/SelfTest.antt =====
-- The self-test of components/lakers_ffi/lakers_ffi_component.c: the rotation that it spells out, and
-- the one that the Rust side calls.
use Prim.Native.Nat.{bit_xor}
use espnow_edhoc.Prelude.{
  ℕ, ◌+◌, ◌-◌, ◌*◌, ◌/◌, ◌%◌, ◌^◌, ◌<◌, ◌≡◌, refl, sym, ◌∙◌, ap, arith, true, Option, some, ==_refl,
}
use espnow_edhoc.Prelude.Bits.{times_two, bit_or_low}
use espnow_edhoc.Platform.{Platform}
use espnow_edhoc.Firmware.{Firmware, returned}
use espnow_edhoc.Ffi.{
  rotate_left_32, lakers_ffi_transform, lakers_ffi_self_test, lakers_ffi_boot_probe,
  ffi_transform_mask, ffi_test_input,
}

-- What Rust documents of `u32::rotate_left`: the bits that leave at the top come back at the bottom.
abbrev pub rotated : ℕ → ℕ → ℕ
rotated x n = x * 2 ^ n % 2 ^ 32 + x / 2 ^ (32 - n)

pub rotate_left_32_lem : (x : ℕ) → x < 2 ^ 32 → rotate_left_32 x 7 ≡ rotated x 7
unfolding rotate_left_32
rotate_left_32_lem x h =
    let top : x * 2 ^ 7 % 2 ^ 32 ≡ times_two 7 (x % 2 ^ 25) = omega arith in
    rw top (bit_or_low 7 (x % 2 ^ 25) (x / 2 ^ 25) (omega arith))

-- `u32::rotate_left` of Rust's core library
pub record RotatesLeft (rotate_left : ℕ → ℕ → ℕ) : Type 0 where
  pub rotates : (x n : ℕ) → x < 2 ^ 32 → n < 32 → rotate_left x n ≡ rotated x n

-- If the rotation of the core library of Rust does what it documents, the transform of the Rust
-- side is, on every word of 32 bits, the one that the C side spells out with two shifts and a mask
-- of its own.
pub transform_lem :
    (rotate_left : ℕ → ℕ → ℕ) (rust : RotatesLeft rotate_left) (x : ℕ)
    → x < 2 ^ 32
    → lakers_ffi_transform rotate_left x ≡ bit_xor (rotate_left_32 x 7) ffi_transform_mask
unfolding lakers_ffi_transform
transform_lem rotate_left rust x h =
    ap (λ r. bit_xor r ffi_transform_mask)
      (rust.rotates x 7 h (omega arith) ∙ sym (rotate_left_32_lem x h))

test_passes :
    (rotate_left : ℕ → ℕ → ℕ) (rust : RotatesLeft rotate_left) (rust_output : Option ℕ)
    → (lakers_ffi_self_test rotate_left rust_output).0 ≡ true
unfolding lakers_ffi_self_test
test_passes rotate_left rust rust_output =
    rw (transform_lem rotate_left rust ffi_test_input (omega arith))
      (==_refl (bit_xor (rotate_left_32 ffi_test_input 7) ffi_transform_mask))

-- If the rotation of the core library of Rust does what it documents, the self test passes for any
-- output pointer, and the constructor that runs it before app_main returns.
pub self_test_passes :
    {p : Platform} (rotate_left : ℕ → ℕ → ℕ) (rust : RotatesLeft rotate_left)
    (rust_output : Option ℕ) (fw : Firmware p)
    → ((lakers_ffi_self_test rotate_left rust_output).0 ≡ true)
      × (lakers_ffi_boot_probe rotate_left fw ≡ returned tt fw)
unfolding lakers_ffi_boot_probe
self_test_passes rotate_left rust rust_output fw =
    (test_passes rotate_left rust rust_output, rw (test_passes rotate_left rust (some 0)) refl)
