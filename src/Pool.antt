-- ===== src/Pool.antt =====
-- src/pool.rs: the two pools. The connection options and the connecting itself are sqlx's.
use skip_locked.Prelude.{ℕ, String}
use skip_locked.Postgres.{Result, ◌>>=◌}
use skip_locked.Lease.{Duration}

-- `PgPoolOptions`, as far as the source sets it.
pub record PoolOptions : Type 0 where
  pub max_connections : ℕ
  pub acquire_timeout : Duration

-- `PgConnectOptions` and what sqlx does with it; `connect_with` gives a pool.
pub record Driver : Type 1 where
  pub ConnectOptions : Type 0
  pub PgPool : Type 0
  pub from_str : String → Result ConnectOptions
  pub statement_cache_capacity : ConnectOptions → ℕ → ConnectOptions
  pub connect_with : PoolOptions → ConnectOptions → Result PgPool

abbrev pub pool_options : PoolOptions
pool_options = record { max_connections = 8; acquire_timeout = record { secs = 5; nanos = 0 } }

unfoldable pub connect : (d : Driver) → String → Result d.PgPool
connect d url = do opts ← d.from_str url; d.connect_with pool_options opts

unfoldable pub connect_pgbouncer : (d : Driver) → String → Result d.PgPool
connect_pgbouncer d url = do
  opts ← d.from_str url
  d.connect_with pool_options (d.statement_cache_capacity opts 0)
