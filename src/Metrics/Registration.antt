-- ===== src/Metrics/Registration.antt =====
-- Registering the sets of internal/metrics/metrics.go on one registry.
use mqtt2db_go.Prelude.{
  ℕ, ◌≡◌, ◌≢◌, refl, sym, ap, ap₂, subst, ◌∙◌, Bool, true, false, not, ◌&&◌, ◌||◌, List, [], ◌∷◌,
  ◌++◌, map, some, Bytes, All, arith, leb, ltb, ◌==◌, bytes_eq, bytes_eq_refl, one_of, codes,
}
use mqtt2db_go.Metrics.{Kind, counter_vec, histogram, Metric, Prometheus}
use mqtt2db_go.Metrics.Pipeline.{
  buffer_set, buffer_collectors, new_buffer_metrics, wal_set, wal_collectors, new_wal_metrics,
  subscriber_set, subscriber_collectors, new_subscriber_metrics,
}
use mqtt2db_go.Metrics.Output.{
  flusher_set, flusher_collectors, new_flusher_metrics, dead_letter_set, dead_letter_collectors,
  new_dead_letter_metrics,
}
use mqtt2db_go.Metrics.Boot.{MetricSets, register_all}

-- A letter, an underscore or a colon; digits may follow.
abbrev letter : ℕ → Bool
letter c = (leb b'a' c && leb c b'z') || (leb b'A' c && leb c b'Z') || c == b'_' || c == b':'

abbrev letters_digits : Bytes → Bool
letters_digits [] = true
letters_digits (c ∷ cs) = (letter c || (leb b'0' c && leb c b'9')) && letters_digits cs

abbrev is_name : Bytes → Bool
is_name [] = false
is_name (c ∷ cs) = letter c && letters_digits cs

abbrev all_names : List Bytes → Bool
all_names [] = true
all_names (s ∷ ss) = is_name s && all_names ss

-- Buckets need a first above 0, a factor above 1 and a count.
abbrev is_kind : Kind → Bool
is_kind (counter_vec labels) = all_names labels
is_kind (histogram start factor count) = ltb 0 start && ltb 1 factor && ltb 0 count
is_kind _ = true

-- What the client asks of a metric.
abbrev pub is_well : Metric → Bool
is_well m = is_name m.namespace && is_name m.subsystem && is_name m.name && is_kind m.kind

abbrev pub full_name : Metric → Bytes
full_name m = m.namespace ++ (b'_' ∷ (m.subsystem ++ (b'_' ∷ m.name)))

abbrev pub Distinct : List Bytes → Type 0
Distinct [] = Unit
Distinct (s ∷ ss) = All (λ (t : Bytes). s ≢ t) ss × Distinct ss

-- What the client promises: a new registry is empty, BuildFQName joins its parts by `_`, and MustRegister takes metrics
-- that are in order and whose names are new.
pub record Accepts (p : Prometheus) : Type 0 where
  pub names : p.Registry → List Bytes
  pub names_new : names p.new_registry ≡ []
  pub joins :
      (ns sub nm : Bytes)
      → is_name ns ≡ true
      → is_name sub ≡ true
      → is_name nm ≡ true
      → p.build_fq_name ns sub nm ≡ ns ++ (b'_' ∷ (sub ++ (b'_' ∷ nm)))
  pub takes :
      (reg : p.Registry) (ms : List Metric)
      → All (λ (m : Metric). is_well m ≡ true) ms
      → Distinct
          (names reg ++ map (λ (m : Metric). p.build_fq_name m.namespace m.subsystem m.name) ms)
      → (reg' : p.Registry) × (p.must_register reg ms ≡ some reg')
        × (names reg'
            ≡ names reg ++ map (λ (m : Metric). p.build_fq_name m.namespace m.subsystem m.name) ms)

abbrev distinct : List Bytes → Bool
distinct [] = true
distinct (s ∷ ss) = not (one_of s ss) && distinct ss

one_of-differ : (s : Bytes) (ss : List Bytes) → one_of s ss ≡ false → All (λ (t : Bytes). s ≢ t) ss
one_of-differ s [] h = tt
one_of-differ s (t ∷ ss) h = (
  (λ same. let found = ap (λ x. bytes_eq s x) (sym same) ∙ bytes_eq_refl s in ground arith),
  one_of-differ s ss (ground arith),
)

distinct_sound : (ss : List Bytes) → distinct ss ≡ true → Distinct ss
distinct_sound [] h = tt
distinct_sound (s ∷ ss) h = (one_of-differ s ss (ground arith), distinct_sound ss (ground arith))

abbrev names_of : List Metric → List Bytes
names_of [] = []
names_of (m ∷ ms) = full_name m ∷ names_of ms

abbrev all_well : List Metric → Bool
all_well [] = true
all_well (m ∷ ms) = is_well m && all_well ms

all_well_sound : (ms : List Metric) → all_well ms ≡ true → All (λ (m : Metric). is_well m ≡ true) ms
all_well_sound [] h = tt
all_well_sound (m ∷ ms) h = (ground arith, all_well_sound ms (ground arith))

abbrev buffer_names : List Bytes
buffer_names = names_of (buffer_collectors buffer_set)

abbrev wal_names : List Bytes
wal_names = buffer_names ++ names_of (wal_collectors wal_set)

abbrev subscriber_names : List Bytes
subscriber_names = wal_names ++ names_of (subscriber_collectors subscriber_set)

abbrev flusher_names : List Bytes
flusher_names = subscriber_names ++ names_of (flusher_collectors flusher_set)

abbrev exported_names : List Bytes
exported_names = flusher_names ++ names_of (dead_letter_collectors dead_letter_set)

-- What a scrape can show: every metric of the file, in the order in which they are registered.
abbrev pub metric_names : List Bytes
metric_names =
    codes "mqtt2db_buffer_depth_messages"
    ∷ codes "mqtt2db_buffer_depth_bytes"
    ∷ codes "mqtt2db_buffer_capacity_messages"
    ∷ codes "mqtt2db_buffer_enqueued_total"
    ∷ codes "mqtt2db_buffer_dequeued_total"
    ∷ codes "mqtt2db_buffer_spilled_total"
    ∷ codes "mqtt2db_buffer_rejected_total"
    ∷ codes "mqtt2db_wal_entries"
    ∷ codes "mqtt2db_wal_bytes_on_disk"
    ∷ codes "mqtt2db_wal_oldest_age_seconds"
    ∷ codes "mqtt2db_wal_appended_total"
    ∷ codes "mqtt2db_wal_drained_total"
    ∷ codes "mqtt2db_wal_expired_total"
    ∷ codes "mqtt2db_subscriber_connected"
    ∷ codes "mqtt2db_subscriber_paused"
    ∷ codes "mqtt2db_subscriber_pauses_total"
    ∷ codes "mqtt2db_subscriber_reconnects_total"
    ∷ codes "mqtt2db_subscriber_received_total"
    ∷ codes "mqtt2db_subscriber_acked_total"
    ∷ codes "mqtt2db_subscriber_handler_errors_total"
    ∷ codes "mqtt2db_subscriber_unparseable_inserted_total"
    ∷ codes "mqtt2db_subscriber_unparseable_insert_errors_total"
    ∷ codes "mqtt2db_flusher_batch_size_current"
    ∷ codes "mqtt2db_flusher_mode"
    ∷ codes "mqtt2db_flusher_flush_latency_seconds"
    ∷ codes "mqtt2db_flusher_flushed_total"
    ∷ codes "mqtt2db_flusher_inserted_total"
    ∷ codes "mqtt2db_flusher_flush_errors_total"
    ∷ codes "mqtt2db_flusher_retries_total"
    ∷ codes "mqtt2db_flusher_dead_lettered_total"
    ∷ codes "mqtt2db_flusher_requeued_total"
    ∷ codes "mqtt2db_deadletter_written_total"
    ∷ codes "mqtt2db_deadletter_errors_total"
    ∷ codes "mqtt2db_deadletter_write_latency_seconds"
    ∷ []

abbrev pub all_sets : MetricSets
all_sets = record {
  buffer = buffer_set;
  wal = wal_set;
  subscriber = subscriber_set;
  flusher = flusher_set;
  dead_letter = dead_letter_set;
}

module _ (p : Prometheus) (a : Accepts p) where
  fq_name :
      (m : Metric) → is_well m ≡ true → p.build_fq_name m.namespace m.subsystem m.name ≡ full_name m
  fq_name m h = a.joins m.namespace m.subsystem m.name (ground arith) (ground arith) (ground arith)

  fq_names :
      (ms : List Metric)
      → all_well ms ≡ true
      → map (λ (m : Metric). p.build_fq_name m.namespace m.subsystem m.name) ms ≡ names_of ms
  fq_names [] h = refl
  fq_names (m ∷ ms) h = ap₂ ◌∷◌ (fq_name m (ground arith)) (fq_names ms (ground arith))

  -- A set whose names are new is registered.
  set_taken :
      (reg : p.Registry) (ms : List Metric) (old : List Bytes)
      → a.names reg ≡ old
      → all_well ms ≡ true
      → distinct (old ++ names_of ms) ≡ true
      → (reg' : p.Registry) × (p.must_register reg ms ≡ some reg')
        × (a.names reg' ≡ old ++ names_of ms)
  set_taken reg ms old before well fresh =
      let same = ap₂ (λ x y. x ++ y) before (fq_names ms well) in
      let (reg', made, now) =
        a.takes reg ms (all_well_sound ms well)
          (subst Distinct (sym same) (distinct_sound _ fresh)) in
      (reg', made, now ∙ same)

all_fresh : distinct exported_names ≡ true
unfolding bytes_eq
all_fresh = refl

exported_names_lem : exported_names ≡ metric_names
exported_names_lem = refl

-- With a client that keeps its promises, the five sets are registered on one new registry with no panic. The registry
-- then has exactly the thirty-four names of `metric_names`, in their order, and no two of them are equal.
pub register_all-all_sets :
    (p : Prometheus) (a : Accepts p)
    → (reg : p.Registry) × (register_all p ≡ some (reg, all_sets))
      × (a.names reg ≡ metric_names)
      × Distinct (a.names reg)
unfolding register_all new_buffer_metrics new_wal_metrics new_subscriber_metrics new_flusher_metrics
    new_dead_letter_metrics bytes_eq
register_all-all_sets p a =
    let (reg_1, made_1, now_1) =
      set_taken p a p.new_registry (buffer_collectors buffer_set) [] a.names_new refl refl in
    let (reg_2, made_2, now_2) =
      set_taken p a reg_1 (wal_collectors wal_set) buffer_names now_1 refl refl in
    let (reg_3, made_3, now_3) =
      set_taken p a reg_2 (subscriber_collectors subscriber_set) wal_names now_2 refl refl in
    let (reg_4, made_4, now_4) =
      set_taken p a reg_3 (flusher_collectors flusher_set) subscriber_names now_3 refl refl in
    let (reg_5, made_5, now_5) =
      set_taken p a reg_4 (dead_letter_collectors dead_letter_set) flusher_names now_4 refl refl in
    (
      reg_5,
      rw (made_1, made_2, made_3, made_4, made_5) refl,
      now_5 ∙ exported_names_lem,
      subst Distinct (sym now_5) (distinct_sound exported_names all_fresh),
    )
