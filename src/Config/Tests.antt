-- ===== src/Config/Tests.antt =====
-- The default settings on a machine with four processors, and with one.
use litestar_cqrs_example.Common.{◌≡◌, refl, none, [], ◌∷◌, nat_eq, string_eq}
use litestar_cqrs_example.Errors.{py, zero_division_error, ok, raise}
use litestar_cqrs_example.Config.{
  throughput, BackendConfig, workers_count, ceil_div, min_share, share,
  compute_min_max_connections_per_worker, compute_concurrency_limit,
}
use litestar_cqrs_example.Config.Pools.{
  Pooled, Limited, compute_min_max-Pooled, compute_concurrency_limit-Limited,
}

abbrev defaults : BackendConfig
defaults = record {
  db = record { min_connections = 10; max_connections = 100; replica_max_connections = 100 };
  server = record { workers = none; strategy = throughput };
}

computed :
    (compute_min_max_connections_per_worker 4 defaults none none none none 1
      ≡ ok (record { min_connections = 33; max_connections = 1 }))
    × (compute_concurrency_limit 4 defaults none ≡ ok 68)
    × (compute_concurrency_limit 1 defaults none
        ≡ raise (py zero_division_error ("division by zero" ∷ [])))
unfolding compute_min_max_connections_per_worker compute_concurrency_limit workers_count ceil_div
    min_share share
computed = (refl, refl, refl)

compute_min_max-Pooled_example :
    Pooled 3 10 100 (compute_min_max_connections_per_worker 4 defaults none none none none 1)
unfolding workers_count
compute_min_max-Pooled_example = compute_min_max-Pooled 4 defaults none none none none 1

compute_concurrency_limit-Limited_example :
    Limited 3 200 (compute_concurrency_limit 4 defaults none)
unfolding workers_count
compute_concurrency_limit-Limited_example = compute_concurrency_limit-Limited 4 defaults none
