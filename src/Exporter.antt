-- ===== src/Exporter.antt =====
-- main/edhoc_exporter.c: the summary of the key in the log.
pub mod Summary
use espnow_edhoc.Prelude.{ℕ, Option, none, some, List, take, ◌==◌, if◌then◌else◌}
use espnow_edhoc.Memory.{read_bytes}
use espnow_edhoc.Platform.{Mbedtls}

-- `ESPNOW_LMK_LEN` of main/edhoc_exporter.h
abbrev pub exporter_lmk_len : ℕ
exporter_lmk_len = 16

summary_of : (m : Mbedtls) → Option m.MdInfo → Option (List ℕ) → Option (Option (List ℕ))
summary_of m none key = some none
summary_of m (some info) none = none
summary_of m (some info) (some key) =
    let r = m.mbedtls_md info key in some (if r.0 == 0 then some (take 4 r.1) else none)

-- The bytes of the digest that are logged, or `none` inside for the two warnings; `none` outside is
-- a read outside an array.
unfoldable pub edhoc_exporter_log_lmk_summary : Mbedtls → Option (List ℕ) → Option (Option (List ℕ))
unfolding summary_of
edhoc_exporter_log_lmk_summary m none = some none
edhoc_exporter_log_lmk_summary m (some lmk) =
    summary_of m m.md_info_sha256 (read_bytes lmk exporter_lmk_len)
