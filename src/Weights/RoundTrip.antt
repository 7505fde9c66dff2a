-- ===== src/Weights/RoundTrip.antt =====
-- src/nn/nn-network.cpp, `writeWeight` and `finish` against `NnWorkerWeightReader::read`.
use prefill_opt.Prelude.{◌<◌, List, [], ◌∷◌, ◌++◌, length, u32, u64}
use prefill_opt.Wire.Config.Bounds.{IsName}
use prefill_opt.Wire.Config.Node.{SegmentConfig}
use prefill_opt.Weights.{Weight, Load, try_load}

-- The widths of the fields, and fewer than `2 ^ 32` bytes.
unfoldable pub IsWeight : Weight → Type 0
IsWeight w =
    IsName w.weight_name × (w.op_index < u32) × (w.offset < u64) × (length w.weight_bytes < u32)

-- The loads of the device, in order.
unfoldable pub loads_of : List SegmentConfig → List Weight → List Load
loads_of segments [] = []
loads_of segments (w ∷ ws) = try_load segments w ++ loads_of segments ws
