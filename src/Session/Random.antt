-- ===== src/Session/Random.antt =====
-- components/lakers_ffi/rust/src/lib.rs: `EspRng`, the random number generator that the firmware
-- hands to the Lakers library. A destination slice is a list, and what it holds afterwards is
-- returned. `from_ne_bytes` of Rust's core library is a parameter.
use espnow_edhoc.Prelude.{ℕ, ◌≡◌, refl, ap, Bool, true, List, [], ◌∷◌, arith, length}
use espnow_edhoc.Memory.{zeros}
use espnow_edhoc.Platform.{EspRandom}

module _ {World : Type 0} (esp : EspRandom World) where
  -- `esp_fill_random(destination.as_mut_ptr(), destination.len())`
  unfoldable pub fill_bytes : List ℕ → World → List ℕ × World
  fill_bytes [] w = ([], w)
  fill_bytes (b ∷ destination) w = esp.esp_fill_random (length (b ∷ destination)) w

  -- `Ok(())` is `true`; there is no other result
  unfoldable pub try_fill_bytes : List ℕ → World → (Bool × List ℕ) × World
  unfolding fill_bytes
  try_fill_bytes destination w =
      ((true, (fill_bytes destination w).0), (fill_bytes destination w).1)

  unfoldable pub next_u32 : (List ℕ → ℕ) → World → ℕ × World
  unfolding fill_bytes
  next_u32 from_ne_bytes w = (from_ne_bytes (fill_bytes (zeros 4) w).0, (fill_bytes (zeros 4) w).1)

  unfoldable pub next_u64 : (List ℕ → ℕ) → World → ℕ × World
  unfolding fill_bytes
  next_u64 from_ne_bytes w = (from_ne_bytes (fill_bytes (zeros 8) w).0, (fill_bytes (zeros 8) w).1)

-- `esp_fill_random` writes the bytes that it is asked for.
pub record FillsExactly {World : Type 0} (esp : EspRandom World) : Type 0 where
  pub fills : (n : ℕ) (w : World) → length (esp.esp_fill_random n w).0 ≡ n

-- The whole slice is written, and nothing that it held before is left.
pub fill_bytes-fresh :
    {World : Type 0} (esp : EspRandom World) (exact : FillsExactly esp)
    (destination destination' : List ℕ) (w : World)
    → length destination ≡ length destination'
    → (fill_bytes esp destination w ≡ fill_bytes esp destination' w)
      × (length (fill_bytes esp destination w).0 ≡ length destination)
unfolding fill_bytes
fill_bytes-fresh esp exact [] [] w same = (refl, refl)
fill_bytes-fresh esp exact [] (b ∷ destination') w same = absurd (omega (arith, same))
fill_bytes-fresh esp exact (b ∷ destination) [] w same = absurd (omega (arith, same))
fill_bytes-fresh esp exact (b ∷ destination) (b' ∷ destination') w same =
    (ap (λ n. esp.esp_fill_random n w) same, exact.fills (length (b ∷ destination)) w)
