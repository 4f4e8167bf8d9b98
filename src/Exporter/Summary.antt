-- ===== src/Exporter/Summary.antt =====
-- edhoc_exporter_log_lmk_summary of main/edhoc_exporter.c: what of the key reaches the log.
use espnow_edhoc.Prelude.{ℕ, ◌≤◌, ◌≡◌, refl, Option, none, some, List, length, take}
use espnow_edhoc.Memory.{read_bytes_within}
use espnow_edhoc.Platform.{Mbedtls}
use espnow_edhoc.Exporter.{summary_of, edhoc_exporter_log_lmk_summary, exporter_lmk_len}

-- summary
pub log_lmk_summary_total :
    (m : Mbedtls) (lmk : List ℕ)
    → exporter_lmk_len ≤ length lmk
    → (r : Option (List ℕ)) × (edhoc_exporter_log_lmk_summary m (some lmk) ≡ some r)
unfolding edhoc_exporter_log_lmk_summary summary_of
log_lmk_summary_total m lmk h =
    rw (read_bytes_within lmk exporter_lmk_len h) (made m.md_info_sha256 (take 16 lmk))
  where
    made :
        (info : Option m.MdInfo) (key : List ℕ)
        → (r : Option (List ℕ)) × (summary_of m info (some key) ≡ some r)
    made none key = (none, refl)
    made (some info) key = (_, refl)
