-- ===== src/Wire/Codec.antt =====
-- src/nn/nn-network.cpp, `NnNetwork::write`, `NnNetwork::read`, the acks and the strings, over a byte
-- stream. Numbers travel as they lie in memory, which is little-endian on the machines of a cluster.
pub mod Laws
pub mod Prefix
use prefill_opt.Prelude.{
  ℕ, zero, suc, ◌+◌, ◌*◌, ◌/◌, ◌%◌, ◌^◌, Result, ok, err, List, [], ◌∷◌, ◌++◌, length, ◌==◌,
  if◌then◌else◌, c_string,
}

-- `closed`: the peer has closed the socket before all bytes came. `buffer_overflow` stands for a read
-- past the end of a buffer, and `out_of_fuel` is no outcome of the source.
pub data WireError : Type 0 where
  closed invalid_ack no_such_socket no_such_node buffer_overflow out_of_fuel : WireError

-- What is to be sent is written in front of what is sent after it.
abbrev pub Writer : Type 0
Writer = List ℕ → List ℕ

-- A reader takes what it needs from the bytes that come in.
abbrev pub Reader {ℓ} : Type ℓ → Type ℓ
Reader A = List ℕ → Result WireError (A × List ℕ)

abbrev pub pure {ℓ} : {A : Type ℓ} → A → Reader A
pure a bytes = ok (a, bytes)

abbrev pub fail {ℓ} : {A : Type ℓ} → WireError → Reader A
fail e bytes = err e

abbrev pub continue {ℓ κ} :
    {A : Type ℓ} {B : Type κ}
    → Result WireError (A × List ℕ)
    → (A → Reader B)
    → Result WireError (B × List ℕ)
continue (err e) next = err e
continue (ok (a, bytes)) next = next a bytes

infixl 1 ◌>>=◌ ◌>>◌
abbrev pub ◌>>=◌ {ℓ κ} : {A : Type ℓ} {B : Type κ} → Reader A → (A → Reader B) → Reader B
reader >>= next = λ bytes. continue (reader bytes) next

abbrev pub ◌>>◌ {κ} : {B : Type κ} → Reader (Unit {0}) → Reader B → Reader B
reader >> next = reader >>= λ _. next

-- The bytes of a number of `k` bytes in memory, and the number of such bytes.
unfoldable pub le_bytes : ℕ → ℕ → List ℕ
le_bytes zero n = []
le_bytes (suc k) n = n % 256 ∷ le_bytes k (n / 256)

unfoldable pub from_le_bytes : List ℕ → ℕ
from_le_bytes [] = 0
from_le_bytes (b ∷ bytes) = b + 256 * from_le_bytes bytes

unfoldable pub write32 : ℕ → Writer
write32 n out = le_bytes 4 n ++ out

unfoldable pub write64 : ℕ → Writer
write64 n out = le_bytes 8 n ++ out

unfoldable pub read_bytes : ℕ → Reader (List ℕ)
read_bytes zero bytes = ok ([], bytes)
read_bytes (suc n) [] = err closed
read_bytes (suc n) (b ∷ bytes) = continue (read_bytes n bytes) λ more. pure (b ∷ more)

unfoldable pub read32 : Reader ℕ
read32 = do pure (from_le_bytes (← read_bytes 4))

unfoldable pub read64 : Reader ℕ
read64 = do pure (from_le_bytes (← read_bytes 8))

-- `ACK`
abbrev pub ack : ℕ
ack = 23571114

unfoldable pub write_ack : Writer
write_ack out = write32 ack out

unfoldable pub read_ack : Reader (Unit {0})
read_ack = do packet ← read32; if packet == ack then pure tt else fail invalid_ack

-- The text stands for the bytes before the final zero.
unfoldable pub write_string : List ℕ → Writer
write_string text out = write32 (suc (length text)) (text ++ 0 ∷ out)

unfoldable pub read_string : Reader (List ℕ)
read_string = do n ← read32; pure (c_string (← read_bytes n))

-- The loops over an array: all elements written, and `n` of them read.
unfoldable pub write_all {ℓ} : {A : Type ℓ} → (A → Writer) → List A → Writer
write_all write [] out = out
write_all write (x ∷ xs) out = write x (write_all write xs out)

unfoldable pub read_many {ℓ} : {A : Type ℓ} → Reader A → ℕ → Reader (List A)
read_many read zero = pure []
read_many read (suc n) = do first ← read; rest ← read_many read n; pure (first ∷ rest)
