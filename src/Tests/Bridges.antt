-- ===== src/Tests/Bridges.antt =====
-- Runs of internal/bridge/bridge.go.
use tncd.Prelude.{
  All, Bool, Bytes, [], and_first, and_second, arith, false, ltb, ltb→lt, refl, true, ◌&&◌, ◌<◌,
  ◌∷◌, ◌≡◌,
}
use tncd.Bridge.{Bridge, on_kiss_frame, port_online, send_to_kiss}
use tncd.Bridge.Repeats.{repeated}
use tncd.Bridge.Echoes.{on_kiss_frame-repeated, send_all}
use tncd.Tests.Links.{table_example}

-- A UI frame from AA to BB through CC and DD.
abbrev digipeated : Bytes
digipeated =
    0x84 ∷ 0x84 ∷ 0x40 ∷ 0x40 ∷ 0x40 ∷ 0x40 ∷ 0x60 ∷ 0x82 ∷ 0x82 ∷ 0x40 ∷ 0x40 ∷ 0x40 ∷ 0x40 ∷ 0x60
    ∷ 0x86 ∷ 0x86 ∷ 0x40 ∷ 0x40 ∷ 0x40 ∷ 0x40 ∷ 0x60 ∷ 0x88 ∷ 0x88 ∷ 0x40 ∷ 0x40 ∷ 0x40 ∷ 0x40
    ∷ 0x61 ∷ 0x03 ∷ 0xF0 ∷ 0x21 ∷ []

abbrev bridge_example : Bridge
bridge_example = record {
  table = table_example;
  ports = true ∷ true ∷ false ∷ [];
  has_tx_sinks = false;
  sent_frames = (1 ∷ []) ∷ [];
  rx_frames = 0 ∷ 0 ∷ 0 ∷ [];
  tx_frames = 0 ∷ 0 ∷ 0 ∷ [];
  last_rx = 0 ∷ 0 ∷ 0 ∷ [];
  relinks = 0 ∷ 0 ∷ 0 ∷ [];
  outputs = [];
}

abbrev all_small : Bytes → Bool
all_small [] = true
all_small (byte ∷ bytes) = ltb byte 256 && all_small bytes

all_small_lem : (bytes : Bytes) → all_small bytes ≡ true → All (λ byte. byte < 256) bytes
all_small_lem [] h = tt
all_small_lem (byte ∷ bytes) h = (
  ltb→lt byte 256 (and_first (ltb byte 256) (all_small bytes) h),
  all_small_lem bytes (and_second (ltb byte 256) (all_small bytes) h),
)

digipeated-IsBytes : All (λ byte. byte < 256) digipeated
digipeated-IsBytes = all_small_lem digipeated refl

-- CC has repeated the frame, which comes back on another port after two sends.
on_kiss_frame-repeated_example :
    on_kiss_frame 1
      (repeated (true ∷ false ∷ []) digipeated)
      5
      (send_all ((0, 1 ∷ []) ∷ (2, 2 ∷ []) ∷ []) (send_to_kiss 0 digipeated bridge_example))
    ≡ send_all ((0, 1 ∷ []) ∷ (2, 2 ∷ []) ∷ []) (send_to_kiss 0 digipeated bridge_example)
unfolding port_online
on_kiss_frame-repeated_example =
    on_kiss_frame-repeated 0 1 5 digipeated (true ∷ false ∷ []) ((0, 1 ∷ []) ∷ (2, 2 ∷ []) ∷ [])
      bridge_example digipeated-IsBytes refl (omega arith) (omega arith)
