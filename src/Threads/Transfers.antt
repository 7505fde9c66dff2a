-- ===== src/Threads/Transfers.antt =====
-- The sockets that threads are given, each to one.
use native.Mathlib.Nat.{mod-lt, add_comm, mul-le-mul_right}
use prefill_opt.Prelude.{
  ℕ, ◌+◌, ◌*◌, ◌/◌, ◌%◌, ◌≤◌, ◌<◌, ◌≡◌, inl, inr, arith, ltb, leb, if◌then◌else◌, add32, mul32,
  add32-eq, mul32-eq, u32, index-join, index-div, index-mod, Bool-cases, ◌∙◌, le-mul_pos, ap,
}
use prefill_opt.Threads.{sockets_per_thread, socket_of}

-- Socket `s < n` is served by thread `s % k`, as transfer `s / k` of its `nSocketsPerThread`, and by
-- no other thread and transfer; and every transfer of a thread is on a socket below `n`.
pub sockets_covered :
    (n k : ℕ)
    → n < u32
    → 0 < k
    → k < u32
    → ((s : ℕ)
        → s < n
        → (s % k < k)
          × (s / k < sockets_per_thread n k (s % k))
          × (socket_of k (s % k) (s / k) ≡ s))
      × ((t i : ℕ)
          → t < k
          → i < sockets_per_thread n k t
          → (socket_of k t i < n) × (socket_of k t i % k ≡ t) × (socket_of k t i / k ≡ i))
unfolding sockets_per_thread socket_of
sockets_covered n k small pos l = (served, serves)
  where
    q : ℕ
    q = n / k

    top : q * k + n % k ≡ n
    top = index-join n k

    one_block : q ≤ q * k
    one_block = le-mul_pos q k pos

    count-eq :
        (t : ℕ) → add32 q (if ltb t (n % k) then 1 else 0) ≡ q + (if ltb t (n % k) then 1 else 0)
    count-eq t = add32-eq q _ (ground (arith, one_block, top, small))

    at_most_q : (s : ℕ) → s < n → s / k ≤ q
    at_most_q s h = elim (Bool-cases (leb (s / k) q)) [
      | inl t ↦ ground (arith, t)
      | inr t ↦
          let c : (q + 1) * k ≤ s / k * k = mul-le-mul_right k (ground (arith, t)) in
          absurd (omega (arith, c, top, h, index-join s k, mod-lt n pos))
    ]

    rounds : (s : ℕ) → s < n → s / k < q + (if ltb (s % k) (n % k) then 1 else 0)
    rounds s h = elim (Bool-cases (ltb (s / k) q)) [
      | inl t ↦ ground (arith, t)
      | inr t ↦
          let c : q * k ≤ s / k * k = mul-le-mul_right k (ground (arith, t)) in
          let d : s / k ≤ q = at_most_q s h in ground (arith, d, c, top, h, index-join s k)
    ]

    below : (t i : ℕ) → t < k → i < q + (if ltb t (n % k) then 1 else 0) → t + i * k < n
    below t i h v = elim (Bool-cases (ltb i q)) [
      | inl u ↦
          let c : (i + 1) * k ≤ q * k = mul-le-mul_right k (ground (arith, u)) in
          omega (arith, c, top, h)
      | inr u ↦ let e : i ≡ q = ground (arith, u, v) in rw e (ground (arith, u, v, top))
    ]

    serves :
        (t i : ℕ)
        → t < k
        → i < add32 q (if ltb t (n % k) then 1 else 0)
        → (add32 t (mul32 i k) < n) × (add32 t (mul32 i k) % k ≡ t) × (add32 t (mul32 i k) / k ≡ i)
    serves t i h w =
        let v : i < q + (if ltb t (n % k) then 1 else 0) = rw (count-eq t) at w in
        let b : t + i * k < n = below t i h v in
        rw (mul32-eq i k (omega (arith, b, small)), add32-eq t (i * k) (omega (arith, b, small)))
          (
            b,
            ap (λ j. j % k) (add_comm t (i * k)) ∙ index-mod i t k h,
            ap (λ j. j / k) (add_comm t (i * k)) ∙ index-div i t k h,
          )

    served :
        (s : ℕ)
        → s < n
        → (s % k < k)
          × (s / k < add32 q (if ltb (s % k) (n % k) then 1 else 0))
          × (add32 (s % k) (mul32 (s / k) k) ≡ s)
    served s h =
        let e = index-join s k in
        (
          mod-lt s pos,
          rw (count-eq (s % k)) (rounds s h),
          rw
              (
                mul32-eq (s / k) k (omega (arith, e, h, small)),
                add32-eq (s % k) (s / k * k) (omega (arith, e, h, small)),
              )
              (omega (arith, e)),
        )
