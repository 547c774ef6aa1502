-- ===== src/Kiss/Pacing.antt =====
-- kiss/pacing.go: how long a frame waits before it is handed to the transport. Times and durations
-- are in nanoseconds, the zero time is 0, and a baud rate that is not positive is 0. The quotient of
-- bits and baud rate is computed in floating point: `on_air` stands for it.
pub mod Lead
use tncd.Prelude.{Bool, Option, if◌then◌else◌, ltb, none, not, some, ℕ, ◌*◌, ◌+◌, ◌-◌, ◌==◌}

pub record Pacer : Type 0 where
  pub baud : ℕ
  pub tx_delay : ℕ
  pub avail : ℕ

abbrev pub max_paced_frame_bytes : ℕ
max_paced_frame_bytes = 256 + 20

-- `newPacer`: TXDELAY, where it is set, counts 10 ms.
unfoldable pub new_pacer : ℕ → Option ℕ → Pacer
new_pacer ota_baud none = record { baud = ota_baud; tx_delay = 0; avail = 0 }
new_pacer ota_baud (some delay) = record { baud = ota_baud; tx_delay = delay * 10000000; avail = 0 }

unfoldable pub enabled : Pacer → Bool
enabled p = ltb 0 p.baud

module _ (on_air : (bits baud : ℕ) → ℕ) where
  unfoldable pub air_time : ℕ → Pacer → ℕ
  air_time bytes p = if p.baud == 0 then 0 else p.tx_delay + on_air (bytes * 8) p.baud

  unfoldable pub max_lead : Pacer → ℕ
  unfolding air_time
  max_lead p = air_time max_paced_frame_bytes p

  -- `delayFor`: the wait, and the pacer after it.
  unfoldable pub delay_for : ℕ → ℕ → Pacer → ℕ × Pacer
  unfolding enabled air_time max_lead
  delay_for bytes now p =
      if not (enabled p)
      then (0, p)
      else (let start = if ltb p.avail now then now else p.avail in
          let lead = start - now in
          (
            if ltb (max_lead p) lead then lead - max_lead p else 0,
            record p { avail = start + air_time bytes p },
          ))
