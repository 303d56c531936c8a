-- ===== src/Config/Pools.antt =====
-- The pools of the workers together have the connections that the settings ask for, and hardly more.
use litestar_cqrs_example.Common.{
  ℕ, ◌+◌, ◌-◌, ◌*◌, ◌/◌, ◌≤◌, ◌<◌, max, ◌≡◌, inl, inr, Option, arith, ltb, nat_beq, nat_beq_iff,
  nat_eq, string_eq, Bool-cases,
}
use native.Mathlib.Nat.{div-add-mod, mod-lt, le-div_iff_mul-le, div-mul-le_self, mul-add}
use litestar_cqrs_example.Errors.{Try, ok, raise}
use litestar_cqrs_example.Config.{
  Strategy, stable, throughput, BackendConfig, PoolPerWorkerData, workers_count, or_nat,
  or_strategy, ceil_div, min_share, share, compute_min_max_connections_per_worker,
  compute_concurrency_limit,
}

-- A number of connections for each of some workers is enough for a total, and exceeds it by at most
-- one for each worker.
abbrev pub Covers : (workers total each : ℕ) → Type 0
Covers workers total each = (total ≤ workers * each) × (workers * each ≤ total + workers)

per_worker-Covers : (w total : ℕ) → 0 < w → Covers w total (max 1 (ceil_div total w))
unfolding ceil_div
per_worker-Covers w total h =
    let q = (total + (w - 1)) / w in
    let whole = div-add-mod (total + (w - 1)) w in
    let rest = mod-lt (total + (w - 1)) h in
    elim (Bool-cases (nat_beq q 0)) [
      | inl none_left ↦
          let one : max 1 q ≡ 1 = ground arith in
          let zero_q : w * q ≡ 0 = rw ((nat_beq_iff q 0).0 none_left) (omega arith) in
          rw one (omega (arith, whole, rest, zero_q, h), omega (arith, whole, rest, zero_q, h))
      | inr some_left ↦
          let same : max 1 q ≡ q = ground arith in
          rw same (omega (arith, whole, rest, h), omega (arith, whole, rest, h))
    ]

share_below : (w low high : ℕ) → 0 < w → low ≤ high → max 1 (low / w) ≤ max 1 (ceil_div high w)
unfolding ceil_div
share_below w low high h fits =
    let fewer : low / w ≤ (high + (w - 1)) / w =
      (le-div_iff_mul-le {k = w} {x = low / w} {y = high + (w - 1)} h).1
        (omega (arith, div-mul-le_self low w, fits)) in
    omega (arith, fewer)

-- The smaller part of a worker's connections is at least one and at most all of them.
min_share_bounds :
    (s : Strategy) (w low high overflow : ℕ)
    → 0 < w
    → low ≤ high
    → (1 ≤ min_share s low w (max 1 (ceil_div high w)) overflow)
      × (min_share s low w (max 1 (ceil_div high w)) overflow ≤ max 1 (ceil_div high w))
unfolding min_share
min_share_bounds stable w low high overflow h fits = (omega arith, share_below w low high h fits)
min_share_bounds throughput w low high overflow h fits = (omega arith, omega arith)

-- What the sum of a worker's connections has to be.
abbrev pub Pooled : (workers low high : ℕ) → Try PoolPerWorkerData → Type 0
Pooled workers low high (ok d) =
    (low ≤ high)
    × (1 ≤ d.min_connections)
    × Covers workers high (d.min_connections + d.max_connections)
Pooled workers low high (raise e) = high < low

share-Pooled :
    (s : Strategy) (w low high overflow : ℕ)
    → 0 < w
    → low ≤ high
    → Pooled w low high (ok (share s low high w overflow))
unfolding share
share-Pooled s w low high overflow h fits =
    let (one, within) = min_share_bounds s w low high overflow h fits in
    let part = min_share s low w (max 1 (ceil_div high w)) overflow in
    let sum : part + (max 1 (ceil_div high w) - part) ≡ max 1 (ceil_div high w) =
      omega (arith, within) in
    (fits, one, rw sum (per_worker-Covers w high h))

-- Whatever the strategy and the overflow, the pools of a worker have at least one lasting connection,
-- and those of all the workers together cover the maximum and exceed it by at most one connection for
-- each worker; a maximum below the minimum is refused, and nothing else.
pub compute_min_max-Pooled :
    (cpu_count : ℕ) (cfg : BackendConfig) (total_min total_max workers : Option ℕ)
    → (strategy : Option Strategy) (overflow : ℕ)
    → Pooled
        (max (or_nat workers (workers_count cpu_count cfg.server)) 1)
        (or_nat total_min cfg.db.min_connections)
        (or_nat total_max cfg.db.max_connections)
        (compute_min_max_connections_per_worker cpu_count cfg total_min total_max workers strategy
          overflow)
unfolding compute_min_max_connections_per_worker
compute_min_max-Pooled cpu_count cfg total_min total_max workers strategy overflow =
    let low = or_nat total_min cfg.db.min_connections in
    let high = or_nat total_max cfg.db.max_connections in
    let w = max (or_nat workers (workers_count cpu_count cfg.server)) 1 in
    elim (Bool-cases (ltb high low)) [
      | inl less ↦ rw (less, compute_min_max_connections_per_worker) (ground arith)
      | inr fits ↦
          rw (fits, compute_min_max_connections_per_worker)
            (share-Pooled (or_strategy strategy cfg.server.strategy) w low high overflow
              (omega arith) (ground arith))
    ]

-- What the limit on concurrent requests has to be.
abbrev pub Limited : (workers total : ℕ) → Try ℕ → Type 0
Limited workers total (ok n) =
    (0 < workers) × (total ≤ workers * n) × (workers * n ≤ total + 2 * workers)
Limited workers total (raise e) = workers ≡ 0

-- The limit on concurrent requests covers, for all the workers together, the connections of both
-- databases and exceeds them by at most two for each worker; without workers, as `workers_count`
-- gives for "auto" on one processor, it raises.
pub compute_concurrency_limit-Limited :
    (cpu_count : ℕ) (cfg : BackendConfig) (workers : Option ℕ)
    → Limited
        (or_nat workers (workers_count cpu_count cfg.server))
        (cfg.db.max_connections + cfg.db.replica_max_connections)
        (compute_concurrency_limit cpu_count cfg workers)
unfolding compute_concurrency_limit
compute_concurrency_limit-Limited cpu_count cfg workers =
    let w = or_nat workers (workers_count cpu_count cfg.server) in
    elim (Bool-cases (nat_beq w 0)) [
      | inl none_left ↦ rw (none_left, compute_concurrency_limit) ((nat_beq_iff w 0).0 none_left)
      | inr some_left ↦
          let positive : 0 < w = ground arith in
          let main = per_worker-Covers w cfg.db.max_connections positive in
          let replica = per_worker-Covers w cfg.db.replica_max_connections positive in
          let sum =
            mul-add w (max 1 (ceil_div cfg.db.max_connections w))
              (max 1 (ceil_div cfg.db.replica_max_connections w)) in
          rw (some_left, compute_concurrency_limit)
            (positive, omega (arith, main, replica, sum), omega (arith, main, replica, sum))
    ]
