-- ===== src/Config.antt =====
-- src/config/core.py: how many workers there are, and how the connections of the database are shared
-- out among them. Settings are natural numbers.
use litestar_cqrs_example.Common.{
  ℕ, zero, suc, ◌+◌, ◌-◌, ◌/◌, min, max, Option, none, some, [], ◌∷◌, ltb, nat_beq, if◌then◌else◌,
}
use litestar_cqrs_example.Errors.{py, value_error, zero_division_error, Try, ok, raise}
pub mod Pools
mod Tests

pub data Strategy : Type 0 where
  stable throughput : Strategy

-- The part of `DbConfig` and `ServerConfig` that the sums use; no workers means "auto".
pub record DbConfig : Type 0 where
  pub min_connections : ℕ
  pub max_connections : ℕ
  pub replica_max_connections : ℕ

pub record ServerConfig : Type 0 where
  pub workers : Option ℕ
  pub strategy : Strategy

pub record BackendConfig : Type 0 where
  pub db : DbConfig
  pub server : ServerConfig

pub record PoolPerWorkerData : Type 0 where
  pub min_connections : ℕ
  pub max_connections : ℕ

-- `workers_count`, on a machine with that many processors
unfoldable pub workers_count : (cpu_count : ℕ) → ServerConfig → ℕ
workers_count cpu_count server = elim server.workers [ some n ↦ n | none ↦ cpu_count - 1 ]

-- `a or b`, where zero is false
abbrev pub or_nat : Option ℕ → ℕ → ℕ
or_nat none d = d
or_nat (some zero) d = d
or_nat (some (suc n)) d = suc n

abbrev pub or_strategy : Option Strategy → Strategy → Strategy
or_strategy none d = d
or_strategy (some s) d = s

-- `math.ceil(a / w)`, for a divisor that is not zero
unfoldable pub ceil_div : ℕ → ℕ → ℕ
ceil_div a w = (a + (w - 1)) / w

-- The two branches of the strategy.
unfoldable pub min_share : Strategy → (total_min workers per_worker_max overflow : ℕ) → ℕ
unfolding ceil_div
min_share stable total_min workers per_worker_max overflow = max 1 (total_min / workers)
min_share throughput total_min workers per_worker_max overflow =
    min (max (max 1 (per_worker_max - overflow)) (ceil_div total_min workers)) per_worker_max

unfoldable pub share : Strategy → (total_min total_max workers overflow : ℕ) → PoolPerWorkerData
unfolding min_share ceil_div
share strategy total_min total_max workers overflow =
    let per_worker_max = max 1 (ceil_div total_max workers) in
    let low = min_share strategy total_min workers per_worker_max overflow in
    record { min_connections = low; max_connections = per_worker_max - low }

-- `compute_min_max_connections_per_worker`
unfoldable pub compute_min_max_connections_per_worker :
    (cpu_count : ℕ)
    → BackendConfig
    → (total_min total_max workers : Option ℕ) → Option Strategy
    → (overflow_target_per_worker : ℕ) → Try PoolPerWorkerData
unfolding share workers_count
compute_min_max_connections_per_worker cpu_count cfg total_min total_max workers strategy overflow =
    let low = or_nat total_min cfg.db.min_connections in
    let high = or_nat total_max cfg.db.max_connections in
    let count = max (or_nat workers (workers_count cpu_count cfg.server)) 1 in
    if ltb high low
    then raise (py value_error ("max_connections must be >= min_connections" ∷ []))
    else ok (share (or_strategy strategy cfg.server.strategy) low high count overflow)

-- `compute_concurrency_limit`, which divides by the number of workers as it is.
unfoldable pub compute_concurrency_limit : (cpu_count : ℕ) → BackendConfig → Option ℕ → Try ℕ
unfolding ceil_div workers_count
compute_concurrency_limit cpu_count cfg workers =
    let count = or_nat workers (workers_count cpu_count cfg.server) in
    if nat_beq count 0
    then raise (py zero_division_error ("division by zero" ∷ []))
    else ok (
        max 1 (ceil_div cfg.db.max_connections count)
        + max 1 (ceil_div cfg.db.replica_max_connections count))
