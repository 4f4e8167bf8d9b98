-- ===== src/Tests/Boot.antt =====
-- The theorems on the boot, at inputs of the toy platform.
use espnow_edhoc.Prelude.{◌≡◌, refl, true, false, some, none}
use espnow_edhoc.Firmware.{InitiatorPhase, initiator, empty, Firmware, returned, fault}
use espnow_edhoc.Firmware.Contracts.{Returns}
use espnow_edhoc.Session.{lakers_edhoc_session_init}
use espnow_edhoc.Session.Start.{role_of, context_for, Starts, session_init-Starts}
use espnow_edhoc.Session.Context.{context_bytes}
use espnow_edhoc.Pairing.{idle}
use espnow_edhoc.Boot.{Boot, task_started, app_main}
use espnow_edhoc.Boot.Start.{ReadsMac}
use espnow_edhoc.Boot.Safety.{boot-safe}
use espnow_edhoc.Pairing.App.{App, app_start, app_round}
use espnow_edhoc.Pairing.App.Reachable.{starts}
use espnow_edhoc.Tests.{toy, toy_mac, toy_config, toy-MessagesFit}
use espnow_edhoc.Tests.Link.{toy-QueueDelivers}

toy-ReadsMac : ReadsMac toy
toy-ReadsMac = record { size = λ w. refl }

abbrev toy_off : Firmware toy
toy_off = record { world = 0; s_channel = 0; s_rx_queue = none; session = empty }

session_init-Starts_example :
    Returns
      (lakers_edhoc_session_init (role_of true) (some toy_mac) (some toy_mac) 1 toy_off)
      (λ status fw'. Starts true (context_for true toy_mac toy_mac 1) toy_off status fw')
session_init-Starts_example = session_init-Starts true toy_mac toy_mac 1 toy_off refl refl

-- the initiator after its boot
abbrev toy_booted : Firmware toy
toy_booted = record {
  world = 13;
  s_channel = 1;
  s_rx_queue = some tt;
  session = initiator (record {
    phase = InitiatorPhase.start 3;
    exporter_context = context_bytes toy_mac toy_mac 1;
  });
}

toy_boots : app_main (toy_config true) toy_off ≡ returned task_started toy_booted
unfolding app_main espnow_edhoc.Boot.nvs_init espnow_edhoc.EspNow.espnow_transport_init
    espnow_edhoc.Boot.peer_mac_is_configured espnow_edhoc.EspNow.espnow_transport_add_peer
    espnow_edhoc.Memory.memcpy espnow_edhoc.Memory.zeros
    espnow_edhoc.Ffi.wrap_lakers_edhoc_session_init lakers_edhoc_session_init
    espnow_edhoc.Memory.read_bytes espnow_edhoc.Session.build_exporter_context
toy_boots = refl

abbrev toy_app : App
toy_app = record { state = idle; initiator_started = false; boot_tick = 13 }

toy_starts : app_start (toy_config true) toy_booted ≡ returned toy_app toy_booted
unfolding app_start
toy_starts = refl

boot-safe_example : ¬ (app_round (toy_config true) toy_app toy_booted ≡ fault)
boot-safe_example =
    boot-safe toy-MessagesFit toy-QueueDelivers toy-ReadsMac (toy_config true) toy_off toy_booted
      toy_booted toy_booted toy_app toy_app refl toy_boots toy_starts starts
