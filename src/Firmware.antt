-- ===== src/Firmware.antt =====
-- The state of one board, and the monad in which the firmware's functions run.
pub mod Contracts
use espnow_edhoc.Prelude.{ℕ, Option, none, some, List, if◌then◌else◌}
use espnow_edhoc.Platform.{EspErr, is_ok, Platform}

-- components/lakers_ffi/rust/src/lib.rs: `enum InitiatorPhase`
pub data InitiatorPhase (p : Platform) : Type 0 where
  start : p.lakers.Initiator → InitiatorPhase p
  wait_m2 : p.lakers.WaitM2 → InitiatorPhase p
  done : p.lakers.Done → InitiatorPhase p
  failed : InitiatorPhase p

-- `struct InitiatorSession`
pub record InitiatorSession (p : Platform) : Type 0 where
  pub phase : InitiatorPhase p
  pub exporter_context : List ℕ

-- `enum ResponderPhase`
pub data ResponderPhase (p : Platform) : Type 0 where
  start : p.lakers.Responder → ResponderPhase p
  wait_m3 : p.lakers.WaitM3 → ResponderPhase p
  done : p.lakers.Done → ResponderPhase p
  failed : ResponderPhase p

-- `struct ResponderSession`
pub record ResponderSession (p : Platform) : Type 0 where
  pub phase : ResponderPhase p
  pub exporter_context : List ℕ

-- `enum Session`
pub data Session (p : Platform) : Type 0 where
  empty : Session p
  initiator : InitiatorSession p → Session p
  responder : ResponderSession p → Session p

-- The statics of the C files and of the Rust library, and the platform's own state.
pub record Firmware (p : Platform) : Type 0 where
  pub world : p.World
  pub s_channel : ℕ
  pub s_rx_queue : Option p.Queue
  pub session : Session p

-- A call returns; or the board aborts (`ESP_ERROR_CHECK`, `abort`); or it accesses memory outside
-- an array, after which C promises nothing.
pub data Outcome (p : Platform) (A : Type 0) : Type 0 where
  returned : A → Firmware p → Outcome p A
  aborted : Outcome p A
  fault : Outcome p A

abbrev pub M : Platform → Type 0 → Type 0
M p A = Firmware p → Outcome p A

infixl 5 ◌>>=◌ ◌>>◌
abbrev pub bind_outcome : {p : Platform} {A B : Type 0} → Outcome p A → (A → M p B) → Outcome p B
bind_outcome (returned a fw) f = f a fw
bind_outcome aborted f = aborted
bind_outcome fault f = fault

abbrev pub ◌>>=◌ : {p : Platform} {A B : Type 0} → M p A → (A → M p B) → M p B
◌>>=◌ m f fw = bind_outcome (m fw) f

abbrev pub ◌>>◌ : {p : Platform} {A B : Type 0} → M p A → M p B → M p B
◌>>◌ m k fw = bind_outcome (m fw) (λ _. k)

abbrev pub return : {p : Platform} {A : Type 0} → A → M p A
return a fw = returned a fw

abbrev pub abort : {p : Platform} {A : Type 0} → M p A
abort fw = aborted

-- A call of the platform.
abbrev pub call : {p : Platform} {A : Type 0} → (p.World → A × p.World) → M p A
call f fw = returned (f fw.world).0 (record fw { world = (f fw.world).1 })

-- A memory operation.
abbrev pub checked : {p : Platform} {A : Type 0} → Option A → M p A
checked none fw = fault
checked (some a) fw = returned a fw

-- `ESP_ERROR_CHECK(err)`
abbrev pub esp_error_check : {p : Platform} → EspErr → M p (Unit {0})
esp_error_check err fw = if is_ok err then returned tt fw else aborted
