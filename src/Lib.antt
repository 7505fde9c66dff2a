-- ===== src/Lib.antt =====
-- A verification library for the inference engine: transformer inference spread over nodes
-- in a pipeline-, sequence- and tensor-parallel arrangement. Paths are those of the
-- repository.
--
-- Parts, and the files that model them:
-- Topology: src/nn/nn-topology.hpp. A node's rank and its place as pipeline stage, sequence
--   group and tensor-parallel group. Topology/Ranks and Topology/Groups hold the proofs.
-- Sockets: the index arithmetic of the socket tables, from `getSocketIndexForNode`,
--   `syncNodeSlices_alltoall` and `NnNetwork::serve` of src/nn/nn-network.cpp, and
--   `getPipelineSocketIndex` of src/nn/nn-pipeline.cpp. A node's index is its rank in Topology.
-- Collective: `syncNodeSlices` of src/nn/nn-network.cpp with the ring and the star
--   all-reduce, and `ringAllGather`. The state is the buffer of every node of a group, as slices; a
--   step of the ring is a function from all buffers to all buffers. The sum of two slices
--   (`reduceSum`, floating point) is a parameter about which nothing is assumed.
--   Collective/Exchange is `syncNodeSlicesBatched`, with the sockets of Sockets and Threads.
-- Threads: how work is divided among threads: `SPLIT_THREADS` of src/nn/nn-quants.hpp,
--   `dequantizeQ80toF32` of src/nn/nn-quants.cpp, `syncWithRoot` of src/nn/nn-network.cpp.
-- Scheduler: `SpGroupScheduler` of src/app.hpp and src/app.cpp; a failed assertion is an
--   error, and a sequence of calls is a run.
-- Chunking: `resolvePrefillChunkBatchSize` and `resolveAutoNBatches` of src/app.cpp.
-- Core: src/nn/nn-core.hpp and src/nn/nn-core.cpp: sizes of tensors, the slices of the
--   nodes, and (Core/Weights) the copies of weights, over memory as a function from offsets.
-- Wire: the transfer of the configurations from the root to the workers, src/nn/nn-network.cpp
--   (`writeToWorkers`, `writeNet`, `writeNode`, `readNet`, `readNode`) and the structures of
--   src/nn/nn-core.hpp. Wire/Codec has numbers, strings and acks as bytes, with readers that
--   take what they need from the bytes that come in, or find the socket closed. Wire/Config
--   has the configurations, with an end of a socket as what it has sent and what comes in.
--   Wire/Chunks has the loops of `NnNetwork::write` and `NnNetwork::read` over chunks, with a chunk
--   for every byte as fuel. Wire/Io has the loops around `send` and `recv`, of one socket and of many,
--   which take the answers of the system calls, with the clock, as a list.
-- Weights: `getLayerOwnerPpRank`, `NnRootWeightLoader` and `NnWorkerWeightReader` of
--   src/nn/nn-network.cpp, and `NnExecutor::loadWeight` of src/nn/nn-executor.cpp. The root cuts
--   the slices with Core/Weights, its stream is written with Wire/Codec, and a worker finds
--   the operators in the segments of Wire/Config. The loop of a worker has a turn for every
--   byte that comes in, and one more, as fuel.
-- Layers: `buildSubBlockOffsets`, `buildLayerStartOffsets` and, from `buildLlmNet` of src/llm.cpp,
--   the ranges of the stages and the operators with a weight that a stage has for a layer. They
--   meet the owners of Weights, which the loader finds by the names of the operators.
-- Control: `LlmControlPacket`, the setters of `RootLlmInference`, `tryReadControlPacket` and
--   `evaluateStageSkipDecision` of src/app.hpp and src/app.cpp, with floats as a parameter. The
--   node's place is the one of Wire/Config.
-- Pipeline: src/nn/nn-pipeline.hpp and src/nn/nn-pipeline.cpp, the transfer of activations between
--   stages. Pipeline/Communicator has the sender's call and Pipeline/Reception the receiver's, over
--   the chunks of Wire/Chunks and the sockets of Sockets; a float is its 32-bit word, and float
--   arithmetic and the conversions are a parameter with the sizes that they promise.
--   Pipeline/Stream has a sequence of calls on one link, which the sender makes all before the
--   receiver reads. The timers are left out.
-- Executor: the threads of `NnExecutor` in src/nn/nn-executor.cpp. A run is any sequence of
--   atomic actions of the threads; a thread's place is the access that it makes next, and two
--   counters that the source does not keep say how many steps it has executed and been
--   counted for. The shutdown and the stall timeout are left out.
-- Tokenizer: src/tokenizer.cpp. Decode is the stream decoder of UTF-8, `detokUtf8` and
--   `decode`. Encode is the
--   encoder: the scan of the text and the merges; the binary search by the C library and the
--   order of the scores are parameters. Stops is
--   `EosDetector`, the search for stop words. Sampler is
--   `sample_argmax` and `sample_mult`, with floats as a parameter. Chat is
--   `ChatTemplateGenerator`.
-- Prelude: lists, options, results, machine words and index arithmetic for all parts.
--
-- `NnUint` has 32 bits and `NnSize` 64: their arithmetic wraps, with `add32`, `mul32`, `mul64`
-- and so on of Prelude/Words; theorems state the bounds under which nothing wraps. Loops are
-- structural recursion on the number of rounds that are left or on the bytes that are left;
-- the loop of merges has fuel, two more than the bytes of the text, which is proved to be enough.
--
-- Not modelled: floating-point kernels (src/nn/nn-cpu-ops.cpp, the conversions of
-- src/nn/nn-quants.cpp, src/nn/nn-repack.cpp), since there are no floats here; the Vulkan
-- device, since it is calls of an interface and shaders; sockets and files, since they are
-- system calls; the copies of llamafile and of the JSON library; the graph builder, but for
-- the names of the operators in Layers; the forward passes, the API server, and console output.
pub mod Prelude
pub mod Topology
pub mod Tokenizer
pub mod Wire
pub mod Control
pub mod Executor
pub mod Weights
pub mod Layers
pub mod Core
pub mod Chunking
pub mod Scheduler
pub mod Threads
pub mod Sockets
pub mod Pipeline
pub mod Collective
