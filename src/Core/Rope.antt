-- ===== src/Core/Rope.antt =====
-- `sliceRope` of src/nn/nn-core.cpp: the part of the rotary embedding that a node computes. The
-- field `ropeTheta`, a float that is only copied, is left out.
use native.Mathlib.Nat.{mul-le-mul_left, mul-le-mul_right}
use prefill_opt.Prelude.{
  ℕ, ◌+◌, ◌-◌, ◌*◌, ◌/◌, ◌%◌, ◌≤◌, ◌<◌, ◌≡◌, ◌≢◌, refl, arith, Option, none, some, Result, ok, err,
  guard, ◌>>=◌, ◌>>◌, leb, ◌==◌, add32, sub32, mul32, mul32-eq, add32-eq, sub32-eq, u32, index-join,
  dec_lt,
}
use prefill_opt.Core.{Size3D, size2_d, f_32, Error, assertion, unsupported_rope_type}

-- `NnRopeType`; `rope_other` is any other number that the header of a model holds.
pub data RopeType : Type 0 where
  rope_llama rope_falcon rope_llama3_1 rope_other : RopeType

-- The fields of `NnRopeSlice` that are set for the llama types only.
pub record RopePlace : Type 0 where
  pub q_dim_start : ℕ
  pub q_dim_end : ℕ
  pub q_shift : ℕ
  pub kv_dim_start : ℕ
  pub slice_dim : ℕ

-- `NnRopeSlice`
pub record RopeSlice : Type 0 where
  pub q_dim0 : ℕ
  pub kv_dim : ℕ
  pub kv_dim0 : ℕ
  pub seq_len : ℕ
  pub head_dim : ℕ
  pub n_kv_heads : ℕ
  pub place : Option RopePlace
  pub cache_size : Size3D

unfoldable pub rope_place : ℕ → ℕ → ℕ → RopePlace
rope_place q_dim0 kv_dim0 node_index =
    let kv_dim_start : ℕ = mul32 kv_dim0 node_index in
    let q_dim_start : ℕ = mul32 q_dim0 node_index in
    let q_dim_end : ℕ = add32 q_dim_start q_dim0 in
    record {
      q_dim_start = q_dim_start;
      q_dim_end = q_dim_end;
      q_shift = sub32 q_dim_start kv_dim_start;
      kv_dim_start = kv_dim_start;
      slice_dim = sub32 q_dim_end kv_dim_start;
    }

unfoldable pub rope_cache : RopeType → ℕ → ℕ → RopePlace → Result Error (Option RopePlace × Size3D)
rope_cache rope_llama seq_len head_dim place = do
  guard (place.slice_dim % 2 == 0) assertion
  cache_size ← size2_d f_32 seq_len place.slice_dim
  ok (some place, cache_size)
rope_cache rope_llama3_1 seq_len head_dim place = do
  guard (place.slice_dim % 2 == 0) assertion
  cache_size ← size2_d f_32 seq_len place.slice_dim
  ok (some place, cache_size)
rope_cache rope_falcon seq_len head_dim place = do
  cache_size ← size2_d f_32 seq_len head_dim
  ok (none, cache_size)
rope_cache rope_other seq_len head_dim place = err unsupported_rope_type

unfoldable pub slice_rope : RopeType → ℕ → ℕ → ℕ → ℕ → ℕ → ℕ → ℕ → Result Error RopeSlice
slice_rope rope_type q_dim kv_dim n_kv_heads n_nodes seq_len head_dim node_index = do
  guard (leb kv_dim q_dim) assertion
  guard (q_dim % n_nodes == 0) assertion
  guard (kv_dim % n_nodes == 0) assertion
  let q_dim0 = q_dim / n_nodes
  let kv_dim0 = kv_dim / n_nodes
  guard (q_dim0 % 2 == 0) assertion
  guard (kv_dim0 % 2 == 0) assertion
  (place, cache_size) ← rope_cache rope_type seq_len head_dim (rope_place q_dim0 kv_dim0 node_index)
  ok (record {
    q_dim0 = q_dim0;
    kv_dim = kv_dim;
    kv_dim0 = kv_dim0;
    seq_len = seq_len;
    head_dim = head_dim;
    n_kv_heads = n_kv_heads;
    place = place;
    cache_size = cache_size;
  })

-- The place of a node in `q_dim` dimensions, where its keys take `kv_dim0` for each node: the
-- queries of node `k` are the `k`-th part, and the slice goes from its keys' start to its queries' end.
abbrev pub IsPlace : ℕ → ℕ → ℕ → ℕ → RopePlace → Type 0
IsPlace q_dim q_dim0 kv_dim0 k p =
    (p.q_dim_start ≡ q_dim0 * k)
    × (p.q_dim_end ≡ q_dim0 * k + q_dim0)
    × (p.q_dim_end ≤ q_dim)
    × (p.kv_dim_start ≡ kv_dim0 * k)
    × (p.kv_dim_start + p.q_shift ≡ p.q_dim_start)
    × (p.kv_dim_start + p.slice_dim ≡ p.q_dim_end)

place_lem :
    (q_dim q_dim0 kv_dim0 n k : ℕ)
    → q_dim < u32
    → q_dim0 * n ≡ q_dim
    → kv_dim0 ≤ q_dim0
    → k < n
    → IsPlace q_dim q_dim0 kv_dim0 k (rope_place q_dim0 kv_dim0 k)
unfolding rope_place
place_lem q_dim q0 kv0 n k small e l h =
    let a : q0 * (k + 1) ≤ q0 * n = mul-le-mul_left q0 (omega arith) in
    let b : q0 * (k + 1) ≡ q0 * k + q0 = grind arith in
    let c : kv0 * k ≤ q0 * k = mul-le-mul_right k l in
    let m1 : mul32 q0 k ≡ q0 * k = mul32-eq q0 k (omega (arith, a, b, e, small)) in
    let m2 : mul32 kv0 k ≡ kv0 * k = mul32-eq kv0 k (omega (arith, a, b, c, e, small)) in
    let m3 : add32 (q0 * k) q0 ≡ q0 * k + q0 =
      add32-eq (q0 * k) q0 (omega (arith, a, b, e, small)) in
    let m4 : sub32 (q0 * k) (kv0 * k) ≡ q0 * k - kv0 * k =
      sub32-eq (q0 * k) (kv0 * k) c (omega (arith, a, b, e, small)) in
    let m5 : sub32 (q0 * k + q0) (kv0 * k) ≡ q0 * k + q0 - kv0 * k =
      sub32-eq (q0 * k + q0) (kv0 * k) (omega (arith, c)) (omega (arith, a, b, e, small)) in
    rw (m1, m2, m3, m4, m5)
      (refl, refl, omega (arith, a, b, e), refl, omega (arith, c), omega (arith, c))

cache-place :
    (rope_type : RopeType) (seq_len head_dim : ℕ) (place : RopePlace)
    {r : Option RopePlace × Size3D}
    → rope_type ≢ rope_falcon
    → rope_cache rope_type seq_len head_dim place ≡ ok r
    → (r.0 ≡ some place) × (place.slice_dim % 2 ≡ 0)
unfolding rope_cache
cache-place rope_llama seq_len head_dim place ne h = ground (arith, h)
cache-place rope_llama3_1 seq_len head_dim place ne h = ground (arith, h)
cache-place rope_falcon seq_len head_dim place ne h = absurd (ne refl)
cache-place rope_other seq_len head_dim place ne h = ground (arith, h)

slice_rope_inv :
    (rope_type : RopeType) (q_dim kv_dim n_kv_heads n seq_len head_dim k : ℕ) {s : RopeSlice}
    → slice_rope rope_type q_dim kv_dim n_kv_heads n seq_len head_dim k ≡ ok s
    → (kv_dim ≤ q_dim)
      × (q_dim % n ≡ 0)
      × (kv_dim % n ≡ 0)
      × (s.q_dim0 ≡ q_dim / n)
      × (s.kv_dim0 ≡ kv_dim / n)
      × (rope_cache rope_type seq_len head_dim (rope_place (q_dim / n) (kv_dim / n) k)
          ≡ ok (s.place, s.cache_size))
unfolding slice_rope
slice_rope_inv rope_type q_dim kv_dim n_kv_heads n seq_len head_dim k h = ground (arith, h)

quotient-le : (x y n : ℕ) → 0 < n → x * n ≤ y * n → x ≤ y
quotient-le x y n pos h = elim (dec_lt y x) [
  | yes l ↦
      let m : (y + 1) * n ≤ x * n = mul-le-mul_right n (omega (arith, l)) in
      let e : (y + 1) * n ≡ y * n + n = grind arith in absurd (omega (arith, m, e, h, pos))
  | no l ↦ omega (arith, l)
]

-- For the llama types and `qDim < 2 ^ 32`: when `sliceRope` succeeds for node `k` of `n`, the queries
-- and the keys divide evenly, the node's queries are the `k`-th part of them, its slice reaches from
-- the start of its keys to the end of its queries without wrapping, and has an even size.
pub slice_rope_lem :
    (rope_type : RopeType) (q_dim kv_dim n_kv_heads n seq_len head_dim k : ℕ) {s : RopeSlice}
    → rope_type ≢ rope_falcon
    → k < n
    → q_dim < u32
    → slice_rope rope_type q_dim kv_dim n_kv_heads n seq_len head_dim k ≡ ok s
    → (s.q_dim0 * n ≡ q_dim)
      × (s.kv_dim0 * n ≡ kv_dim)
      × (p : RopePlace) × (s.place ≡ some p)
      × (p.slice_dim % 2 ≡ 0)
      × IsPlace q_dim s.q_dim0 s.kv_dim0 k p
slice_rope_lem rope_type q_dim kv_dim n_kv_heads n seq_len head_dim k {s} ne h small e =
    let (le, q0, kv0, dq, dkv, c) =
      slice_rope_inv rope_type q_dim kv_dim n_kv_heads n seq_len head_dim k e in
    let (place, even) =
      cache-place rope_type seq_len head_dim (rope_place (q_dim / n) (kv_dim / n) k) ne c in
    let a : q_dim / n * n ≡ q_dim = omega (arith, index-join q_dim n, q0) in
    let b : kv_dim / n * n ≡ kv_dim = omega (arith, index-join kv_dim n, kv0) in
    let l : kv_dim / n ≤ q_dim / n =
      quotient-le (kv_dim / n) (q_dim / n) n (omega (arith, h)) (omega (arith, a, b, le)) in
    rw (dq, dkv)
      (
        a,
        b,
        rope_place (q_dim / n) (kv_dim / n) k,
        place,
        even,
        place_lem q_dim (q_dim / n) (kv_dim / n) n k small a l h,
      )
