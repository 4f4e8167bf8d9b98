-- ===== src/Pairing/App/Timing.antt =====
-- main/main.c: when `app_task` of an initiator starts the handshake; the tick counter may wrap.
use espnow_edhoc.Prelude.{Bool, ◌⊎◌, ℕ, ◌<◌, ◌≤◌, ◌≡◌, true}
use espnow_edhoc.Config.{Config}
use espnow_edhoc.Platform.{Platform}
use espnow_edhoc.Firmware.{Firmware, ◌>>=◌}
use espnow_edhoc.Firmware.Contracts.{OnlyWorld}
use espnow_edhoc.Pairing.App.{App}

-- the delay has passed and a start was attempted, or it has not and nothing has happened
abbrev pub Due : {p : Platform} → App → Firmware p → ℕ → Bool × App → Firmware p → Type 0
Due {p} app fw passed r fw' =
    ((p.idf.pd_ms_to_ticks 2000 ≤ passed) × (r.1.initiator_started ≡ true))
    ⊎ ((passed < p.idf.pd_ms_to_ticks 2000) × (r ≡ (true, app)) × OnlyWorld fw fw')
