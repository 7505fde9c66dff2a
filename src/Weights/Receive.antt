-- ===== src/Weights/Receive.antt =====
-- src/nn/nn-network.cpp, `NnWorkerWeightReader`.
use prefill_opt.Prelude.{
  ℕ, zero, suc, ◌%◌, List, [], ◌++◌, length, ltb, ◌==◌, if◌then◌else◌, u32, c_string,
}
use prefill_opt.Wire.Codec.{
  Reader, buffer_overflow, out_of_fuel, pure, fail, ◌>>=◌, read32, read64, read_bytes,
}
use prefill_opt.Wire.Config.Node.{SegmentConfig}
use prefill_opt.Weights.{Weight, Load, try_load}

-- `allocate`, whose parameter keeps 32 bits of the size: the new size of the buffer
unfoldable pub allocate : ℕ → ℕ → ℕ
allocate temp_size n_bytes = if ltb temp_size (n_bytes % u32) then n_bytes % u32 else temp_size

-- One turn of the loop behind the size of the name: the weight, and the size of the buffer. The bytes
-- are read into the buffer, whatever its size; a read past its end is an error here.
unfoldable pub read_weight : ℕ → ℕ → Reader (Weight × ℕ)
read_weight temp_size name_size = do
  name ← read_bytes name_size
  op_index ← read32
  offset ← read64
  n_bytes ← read64
  let temp = allocate temp_size n_bytes
  bytes ← if ltb temp n_bytes then fail buffer_overflow else read_bytes n_bytes
  pure (
    record {
      weight_name = c_string name;
      op_index = op_index;
      offset = offset;
      weight_bytes = bytes;
    },
    temp,
  )

-- `read`: the loads of the device in order, up to the ack at the end. One unit of fuel for each turn.
unfoldable pub read_weights : ℕ → List SegmentConfig → ℕ → Reader (List Load)
read_weights zero segments temp_size = fail out_of_fuel
read_weights (suc fuel) segments temp_size =
    let rest = read_weights fuel segments in
    let turn : ℕ → Reader (List Load) = λ name_size. (do
      (weight, temp) ← read_weight temp_size name_size
      loads ← rest temp
      pure (try_load segments weight ++ loads)) in
    do name_size ← read32; if name_size == 0 then pure [] else turn name_size

-- The worker's whole run, which has a turn for every byte and one more.
unfoldable pub receive : List SegmentConfig → Reader (List Load)
receive segments bytes = read_weights (suc (length bytes)) segments 0 bytes
