-- ===== src/Metrics.antt =====
-- What a metric of internal/metrics/metrics.go is created with, and the registry it is registered with. The registry is
-- that of the Prometheus client.
pub mod Pipeline
pub mod Output
pub mod Boot
pub mod Registration
mod Tests
use mqtt2db_go.Prelude.{
  ℕ, ◌≤◌, ◌≡◌, ◌≢◌, Bool, true, false, ◌&&◌, ◌||◌, List, [], ◌∷◌, ◌++◌, map, Option, none, some,
  Bytes, codes, All, leb, ◌==◌, In,
}
use Prim.Native.String.{String}

-- The buckets of a histogram are exponential: the first in milliseconds, the factor, how many.
pub data Kind : Type 0 where
  gauge counter : Kind
  counter_vec : (labels : List Bytes) → Kind
  histogram : (start factor count : ℕ) → Kind

pub record Metric : Type 0 where
  pub kind : Kind
  pub namespace : Bytes
  pub subsystem : Bytes
  pub name : Bytes
  pub help : Bytes

-- Namespace.
abbrev pub mqtt2db : Bytes
mqtt2db = codes "mqtt2db"

abbrev pub new_metric : Kind → String → String → String → Metric
new_metric kind subsystem name help = record {
  kind = kind;
  namespace = mqtt2db;
  subsystem = codes subsystem;
  name = codes name;
  help = codes help;
}

-- The client: NewRegistry, MustRegister, none for a panic, and BuildFQName.
pub record Prometheus : Type 1 where
  pub Registry : Type 0
  pub new_registry : Registry
  pub must_register : Registry → List Metric → Option Registry
  pub build_fq_name : Bytes → Bytes → Bytes → Bytes

-- The metrics, once they are registered.
abbrev pub registered : {R M : Type 0} → M → Option R → Option (R × M)
registered m none = none
registered m (some reg) = some (reg, m)
