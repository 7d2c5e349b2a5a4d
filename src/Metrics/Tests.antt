-- ===== src/Metrics/Tests.antt =====
-- A registry that is the list of the registered names.
use mqtt2db_go.Prelude.{◌≡◌, refl, List, [], ◌∷◌, ◌++◌, map, some, Bytes}
use mqtt2db_go.Metrics.{Prometheus}
use mqtt2db_go.Metrics.Boot.{register_all}
use mqtt2db_go.Metrics.Registration.{
  Accepts, Distinct, full_name, all_sets, metric_names, register_all-all_sets,
}

abbrev client : Prometheus
client = record {
  Registry = List Bytes;
  new_registry = [];
  must_register = λ reg ms. some (reg ++ map full_name ms);
  build_fq_name = λ ns sub nm. ns ++ (b'_' ∷ (sub ++ (b'_' ∷ nm)));
}

abbrev accepts : Accepts client
accepts = record {
  names = λ reg. reg;
  names_new = refl;
  joins = λ ns sub nm h k j. refl;
  takes = λ reg ms well fresh. (reg ++ map full_name ms, refl, refl);
}

register_all-all_sets_example :
    (reg : List Bytes) × (register_all client ≡ some (reg, all_sets))
    × (reg ≡ metric_names)
    × Distinct reg
register_all-all_sets_example = register_all-all_sets client accepts
