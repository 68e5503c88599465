-- ===== src/PacketBuilder/Tests.antt =====
-- A build of two payload bytes, and one that does not fit.
use ecu_platform.Base.{◌≡◌, ◌⊎◌, refl, some, [], ◌∷◌, ◌++◌, Bytes, arith, done}
use ecu_platform.Protocol.{frame}
use ecu_platform.PacketBuilder.{success, build_packet}
use ecu_platform.PacketBuilder.Stages.{payload_bytes}
use ecu_platform.PacketBuilder.Outcome.{Built, Refused, build_packet-Outcome}
use ecu_platform.PacketBuilder.Build.{build_packet-frame}

abbrev payload : Bytes
payload = 0x10 ∷ 0x20 ∷ 0x30 ∷ []

abbrev replaced : Bytes
replaced = 0 ∷ 0 ∷ 0 ∷ 0 ∷ 0 ∷ 0 ∷ 0 ∷ 0 ∷ 0 ∷ []

build_packet-frame_example :
    build_packet 7 (some payload) 2 (some (replaced ++ (1 ∷ 2 ∷ []))) 11 (some 0)
    ≡ done (success, some (frame 7 (payload_bytes (some payload) 2) ++ (1 ∷ 2 ∷ [])), some 9)
build_packet-frame_example =
    build_packet-frame 7 (some payload) 2 11 0 replaced (1 ∷ 2 ∷ []) (omega arith) (omega arith)
      (omega arith) refl

build_packet-Outcome_example :
    Built 7
      (some payload)
      3
      (some replaced)
      9
      (some 4)
      (build_packet 7 (some payload) 3 (some replaced) 9 (some 4))
    ⊎ Refused 7
        (some payload)
        3
        (some replaced)
        9
        (some 4)
        (build_packet 7 (some payload) 3 (some replaced) 9 (some 4))
build_packet-Outcome_example =
    build_packet-Outcome 7 (some payload) 3 (some replaced) 9 (some 4) (omega arith) (omega arith)
