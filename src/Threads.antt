-- ===== src/Threads.antt =====
-- How work is divided among threads: `SPLIT_THREADS` of src/nn/nn-quants.hpp, the blocks of
-- `dequantizeQ80toF32` in src/nn/nn-quants.cpp, and the sockets of `syncWithRoot` in
-- src/nn/nn-network.cpp.
pub mod Split
pub mod Transfers
mod Tests
use prefill_opt.Prelude.{ℕ, ◌+◌, ◌-◌, ◌/◌, ◌%◌, ltb, ◌==◌, if◌then◌else◌, add32, mul32}

-- `varStart` and `varEnd` of `SPLIT_THREADS(varStart, varEnd, rangeLen, nThreads, threadIndex)`
unfoldable pub split_start : ℕ → ℕ → ℕ → ℕ
split_start range_len n_threads thread_index =
    let range_slice = range_len / n_threads in
    let range_rest = range_len % n_threads in
    add32 (mul32 thread_index range_slice)
      (if ltb thread_index range_rest then thread_index else range_rest)

unfoldable pub split_end : ℕ → ℕ → ℕ → ℕ
split_end range_len n_threads thread_index =
    let range_slice = range_len / n_threads in
    let range_rest = range_len % n_threads in
    add32 (add32 (split_start range_len n_threads thread_index) range_slice)
      (if ltb thread_index range_rest then 1 else 0)

-- The first block of a thread in `dequantizeQ80toF32`, and its `currentThreadBlocks`.
unfoldable pub q80_start : ℕ → ℕ → ℕ → ℕ
q80_start n_blocks n_threads thread_index = mul32 (n_blocks / n_threads) thread_index

unfoldable pub q80_count : ℕ → ℕ → ℕ → ℕ
q80_count n_blocks n_threads thread_index =
    add32 (n_blocks / n_threads) (if thread_index == n_threads - 1 then n_blocks % n_threads else 0)

-- `nSocketsPerThread`, and the socket of a thread's `i`-th transfer
unfoldable pub sockets_per_thread : ℕ → ℕ → ℕ → ℕ
sockets_per_thread n_sockets n_threads thread_index =
    add32 (n_sockets / n_threads) (if ltb thread_index (n_sockets % n_threads) then 1 else 0)

unfoldable pub socket_of : ℕ → ℕ → ℕ → ℕ
socket_of n_threads thread_index i = add32 thread_index (mul32 i n_threads)
