-- ===== src/Core/Sizes.antt =====
-- Sizes of tensors and of their slices.
use native.Mathlib.Nat.{mul-div_left, mul-mod_left, mul-le-mul_left, mul-le-mul_right, div-le_self}
use prefill_opt.Prelude.{
  ℕ, ◌*◌, ◌/◌, ◌%◌, ◌≤◌, ◌<◌, ◌≡◌, ◌∙◌, ◌↔◌, sym, ap, arith, ok, u32, mul32, mul64, mul32-eq,
  mul32-lt, index-join,
}
use prefill_opt.Core.{
  FloatType, f_unk, f_32, f_16, f_q40, f_q80, get_bytes, Size3D, size3_d, size2_d, RowMatmulSlice,
  ColMatmulSlice, slice_row_matmul, slice_col_matmul,
}

-- What `getBytes` means while the sizes fit in 64 bits: whole blocks, each of its packed size.
abbrev pub Bytes : FloatType → ℕ → ℕ → Type 0
Bytes f_unk n a = ⊥
Bytes f_32 n a = a ≡ n * 4
Bytes f_16 n a = a ≡ n * 2
Bytes f_q40 n a = (n % 32 ≡ 0) × (a ≡ n / 32 * 18)
Bytes f_q80 n a = (n % 32 ≡ 0) × (a ≡ n / 32 * 34)

-- For an element count below `2 ^ 32`, `getBytes` succeeds exactly on whole blocks of a known type,
-- with 4 or 2 bytes for each element, 18 for each 32 elements of Q40, and 34 for each 32 of Q80.
pub get_bytes_iff : (t : FloatType) (n a : ℕ) → n < u32 → (get_bytes t n ≡ ok a) ↔ Bytes t n a
unfolding get_bytes mul64
get_bytes_iff f_unk n a l = (λ h. cc, λ h. absurd h)
get_bytes_iff f_32 n a l = (λ h. ground (arith, h, l), λ h. ground (arith, h, l))
get_bytes_iff f_16 n a l = (λ h. ground (arith, h, l), λ h. ground (arith, h, l))
get_bytes_iff f_q40 n a l = (λ h. ground (arith, h, l), λ h. ground (arith, h, l))
get_bytes_iff f_q80 n a l = (λ h. ground (arith, h, l), λ h. ground (arith, h, l))

times_blocks :
    (k n a m : ℕ) → (n % 32 ≡ 0) × (a ≡ n / 32 * m) → (k * n % 32 ≡ 0) × (k * a ≡ k * n / 32 * m)
times_blocks k n a m h =
    let e : k * n ≡ k * (n / 32) * 32 = ap (λ (j : ℕ). k * j) (sym whole) ∙ omega arith in
    let d : k * n / 32 ≡ k * (n / 32) = rw e (mul-div_left (k * (n / 32)) (omega arith)) in
    (rw e (mul-mod_left (k * (n / 32)) 32), rw (h.1, d) (omega arith))
  where
    whole : n / 32 * 32 ≡ n
    whole = omega (arith, h.0, index-join n 32)

-- `k` times as many elements take `k` times the bytes.
Bytes-mul : (t : FloatType) (k n a : ℕ) → Bytes t n a → Bytes t (k * n) (k * a)
Bytes-mul f_unk k n a h = h
Bytes-mul f_32 k n a h = rw h (omega arith)
Bytes-mul f_16 k n a h = rw h (omega arith)
Bytes-mul f_q40 k n a h = times_blocks k n a 18 h
Bytes-mul f_q80 k n a h = times_blocks k n a 34 h

Bytes-unique : (t : FloatType) (n a b : ℕ) → Bytes t n a → Bytes t n b → a ≡ b
Bytes-unique f_unk n a b h k = absurd h
Bytes-unique f_32 n a b h k = h ∙ sym k
Bytes-unique f_16 n a b h k = h ∙ sym k
Bytes-unique f_q40 n a b h k = h.1 ∙ sym k.1
Bytes-unique f_q80 n a b h k = h.1 ∙ sym k.1

size2_d_inv :
    (t : FloatType) (y x : ℕ) {s : Size3D}
    → y < u32
    → size2_d t y x ≡ ok s
    → (get_bytes t (mul32 y x) ≡ ok s.n_bytes) × (s.length ≡ mul32 y x)
unfolding size2_d size3_d
size2_d_inv t y x ly h =
    let e : mul32 1 y ≡ y = mul32-eq 1 y (omega (arith, ly)) ∙ (omega arith) in
    let h' = rw e at h in ground (arith, h')

-- The sizes of a two-dimensional tensor whose element count is below `2 ^ 32`.
size2_d-Bytes :
    (t : FloatType) (y x : ℕ) {s : Size3D}
    → y < u32
    → y * x < u32
    → size2_d t y x ≡ ok s
    → Bytes t (y * x) s.n_bytes
size2_d-Bytes t y x ly l h =
    (get_bytes_iff t (y * x) _ l).0 ((rw (mul32-eq y x l) at ((size2_d_inv t y x ly h).0)))

slice_row_inv :
    (t : FloatType) (nodes n d : ℕ) {s : RowMatmulSlice}
    → slice_row_matmul t nodes n d ≡ ok s
    → (d % nodes ≡ 0)
      × (s.d0 ≡ d / nodes)
      × (size2_d t n d ≡ ok s.size)
      × (size2_d t n (d / nodes) ≡ ok s.slice_size)
unfolding slice_row_matmul
slice_row_inv t nodes n d h = ground arith

slice_col_inv :
    (t : FloatType) (nodes n d : ℕ) {s : ColMatmulSlice}
    → slice_col_matmul t nodes n d ≡ ok s
    → (n % nodes ≡ 0)
      × (s.n0 ≡ n / nodes)
      × (size2_d t n d ≡ ok s.size)
      × (size2_d t (n / nodes) d ≡ ok s.slice_size)
unfolding slice_col_matmul
slice_col_inv t nodes n d h = ground arith

-- The node slices of a row-split weight: the `d` rows divide evenly among the nodes, and the bytes of
-- the slices add up to those of the whole weight, while its element count is below `2 ^ 32`.
pub row_slices_cover :
    (t : FloatType) (nodes n d : ℕ) {s : RowMatmulSlice}
    → n < u32
    → n * d < u32
    → slice_row_matmul t nodes n d ≡ ok s
    → (nodes * s.d0 ≡ d) × (nodes * s.slice_size.n_bytes ≡ s.size.n_bytes)
row_slices_cover t nodes n d {s} ln small h = (rw (i.1) even, bytes)
  where
    i :
        (d % nodes ≡ 0)
        × (s.d0 ≡ d / nodes)
        × (size2_d t n d ≡ ok s.size)
        × (size2_d t n (d / nodes) ≡ ok s.slice_size)
    i = slice_row_inv t nodes n d h

    even : nodes * (d / nodes) ≡ d
    even = omega (arith, i.0, index-join d nodes)

    less : n * (d / nodes) ≤ n * d
    less = mul-le-mul_left n (div-le_self d nodes)

    part : Bytes t (n * (d / nodes)) s.slice_size.n_bytes
    part = size2_d-Bytes t n (d / nodes) ln (omega (arith, less, small)) (i.3)

    regroup : nodes * (n * (d / nodes)) ≡ n * d
    regroup =
        let e : n * (nodes * (d / nodes)) ≡ n * d = ap (λ (j : ℕ). n * j) even in omega (arith, e)

    bytes : nodes * s.slice_size.n_bytes ≡ s.size.n_bytes
    bytes =
        Bytes-unique t (n * d) _ _ (rw regroup at (Bytes-mul t nodes _ _ part))
          (size2_d-Bytes t n d ln small (i.2))

-- The same for a column-split weight, whose rows are cut into `nodes` parts.
pub col_slices_cover :
    (t : FloatType) (nodes n d : ℕ) {s : ColMatmulSlice}
    → n < u32
    → n * d < u32
    → slice_col_matmul t nodes n d ≡ ok s
    → (nodes * s.n0 ≡ n) × (nodes * s.slice_size.n_bytes ≡ s.size.n_bytes)
col_slices_cover t nodes n d {s} ln small h = (rw (i.1) even, bytes)
  where
    i :
        (n % nodes ≡ 0)
        × (s.n0 ≡ n / nodes)
        × (size2_d t n d ≡ ok s.size)
        × (size2_d t (n / nodes) d ≡ ok s.slice_size)
    i = slice_col_inv t nodes n d h

    even : nodes * (n / nodes) ≡ n
    even = omega (arith, i.0, index-join n nodes)

    less : n / nodes * d ≤ n * d
    less = mul-le-mul_right d (div-le_self n nodes)

    part : Bytes t (n / nodes * d) s.slice_size.n_bytes
    part =
        size2_d-Bytes t (n / nodes) d (omega (arith, div-le_self n nodes, ln))
          (omega (arith, less, small)) (i.3)

    regroup : nodes * (n / nodes * d) ≡ n * d
    regroup =
        let e : nodes * (n / nodes) * d ≡ n * d = ap (λ (j : ℕ). j * d) even in omega (arith, e)

    bytes : nodes * s.slice_size.n_bytes ≡ s.size.n_bytes
    bytes =
        Bytes-unique t (n * d) _ _ (rw regroup at (Bytes-mul t nodes _ _ part))
          (size2_d-Bytes t n d ln small (i.2))

-- From `2 ^ 32` elements on, the 32-bit product wraps: a float tensor of `y` rows of `x` is sized for
-- fewer elements than it has.
pub size2_d_too_small :
    (y x : ℕ) {s : Size3D}
    → y < u32
    → u32 ≤ y * x
    → size2_d f_32 y x ≡ ok s
    → (s.length < y * x) × (s.n_bytes < y * x * 4)
size2_d_too_small y x {s} ly big h =
    let i = size2_d_inv f_32 y x ly h in
    let l : mul32 y x < u32 = mul32-lt y x in
    let b : s.n_bytes ≡ mul32 y x * 4 = (get_bytes_iff f_32 (mul32 y x) s.n_bytes l).0 (i.0) in
    omega (arith, i.1, b, l)
