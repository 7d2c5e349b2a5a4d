-- ===== src/Config/Accepted.antt =====
-- What Validate of internal/config/config.go establishes for the components that read the configuration.
use mqtt2db_go.Prelude.{
  ◌≡◌, refl, Bool, true, false, List, [], ◌∷◌, ◌++◌, some, Bytes, codes, arith, bytes_eq,
}
use mqtt2db_go.Prelude.Int.{ℤ, pos, leb_ℤ, ltb_ℤ, ◌≤ℤ◌, ◌<ℤ◌}
use mqtt2db_go.Prelude.Results.{ok}
use mqtt2db_go.Buffer.{Metrics}
use mqtt2db_go.Buffer.Config.{out_of_range, new, fresh}
use mqtt2db_go.Config.{
  Libraries, Config, FlusherConfig, complain, must_be_positive, check_mqtt, check_buffer,
  check_badger, check_postgres, check_flusher, check_s3, check_logging, validate,
}
use mqtt2db_go.Config.Defaults.{new_default}

pub append-empty : (xs ys : List Bytes) → xs ++ ys ≡ [] → (xs ≡ []) × (ys ≡ [])
append-empty [] ys h = (refl, h)
append-empty (x ∷ xs) ys h = cc

pub complain-empty : (wrong : Bool) (name : Bytes) → complain wrong name ≡ [] → wrong ≡ false
complain-empty true name h = cc
complain-empty false name h = refl

positive_lem : (n : ℤ) (name : Bytes) → must_be_positive n name ≡ [] → pos 0 <ℤ n
positive_lem n name h = let fine = complain-empty (leb_ℤ n (pos 0)) name h in ground (arith, fine)

module _ (l : Libraries) where
  validate-buffer : (c : Config l) → validate l c ≡ [] → check_buffer l c.buffer ≡ []
  unfolding validate
  validate-buffer c h =
      let rest = append-empty (check_mqtt l c.mqtt) _ h in
      (append-empty (check_buffer l c.buffer) _ rest.1).0

  validate-flusher : (c : Config l) → validate l c ≡ [] → check_flusher l c.flusher ≡ []
  unfolding validate
  validate-flusher c h =
      let r1 = append-empty (check_mqtt l c.mqtt) _ h in
      let r2 = append-empty (check_buffer l c.buffer) _ r1.1 in
      let r3 = append-empty (check_badger l c.badger) _ r2.1 in
      let r4 = append-empty (check_postgres l c.postgres) _ r3.1 in
      (append-empty (check_flusher l c.flusher) _ r4.1).0

  -- buffer.New accepts the buffer section of every configuration that Validate accepts, when it is given metrics.
  pub validate-new :
      (c : Config l) (gauges : Metrics)
      → validate l c ≡ []
      → new l.float c.buffer (some gauges) ≡ ok (fresh l.float c.buffer gauges)
  unfolding check_buffer new
  validate-new c gauges h =
      let p1 = append-empty _ _ (validate-buffer c h) in
      let p2 = append-empty _ _ p1.1 in
      let p3 = append-empty _ _ p2.1 in
      let p4 = append-empty _ _ p3.1 in
      let e1 =
        complain-empty (leb_ℤ c.buffer.max_messages (pos 0)) (codes "buffer.max_messages") p1.0 in
      let e2 = complain-empty (leb_ℤ c.buffer.max_bytes (pos 0)) (codes "buffer.max_bytes") p2.0 in
      let e3 =
        complain-empty (out_of_range l.float c.buffer.spill_threshold)
          (codes "buffer.spill_threshold") p3.0 in
      let e4 =
        complain-empty (out_of_range l.float c.buffer.pause_threshold)
          (codes "buffer.pause_threshold") p4.0 in
      let e5 =
        complain-empty (l.float.le c.buffer.pause_threshold c.buffer.spill_threshold)
          (codes "buffer.spill_threshold") p4.1 in
      rw (e1, e2, e3, e4, e5) refl

  -- What the flusher relies on of a configuration that Validate accepts.
  pub record IsPaced (c : FlusherConfig) : Type 0 where
    pub some_batch : pos 0 <ℤ c.batch_size
    pub batch_le : c.batch_size ≤ℤ c.elevated_batch_size
    pub retries : pos 0 ≤ℤ c.max_retries
    pub interval : pos 0 <ℤ c.flush_interval
    pub elevated_interval : pos 0 <ℤ c.elevated_flush_interval
    pub window : pos 0 <ℤ c.recovery_window
    pub threshold : pos 0 <ℤ c.elevated_latency_threshold
    pub threshold_lt : c.elevated_latency_threshold <ℤ c.critical_latency_threshold

  IsPaced-fields : (c : FlusherConfig) → check_flusher l c ≡ [] → IsPaced c
  unfolding check_flusher
  IsPaced-fields c h =
      let p1 = append-empty _ _ h in
      let p2 = append-empty _ _ p1.1 in
      let p3 = append-empty _ _ p2.1 in
      let p4 = append-empty _ _ p3.1 in
      let p5 = append-empty _ _ p4.1 in
      let p6 = append-empty _ _ p5.1 in
      let p7 = append-empty _ _ p6.1 in
      let p8 =
        append-empty (must_be_positive c.recovery_window (codes "flusher.recovery_window")) _
          p7.1 in
      record {
        some_batch = positive_lem c.batch_size (codes "flusher.batch_size") p1.0;
        batch_le =
            let fine =
              complain-empty (ltb_ℤ c.elevated_batch_size c.batch_size)
                (codes "flusher.elevated_batch_size") p2.0 in
            ground (arith, fine);
        retries =
            let fine =
              complain-empty (ltb_ℤ c.max_retries (pos 0)) (codes "flusher.max_retries") p3.0 in
            ground (arith, fine);
        interval = positive_lem c.flush_interval (codes "flusher.flush_interval") p4.0;
        elevated_interval =
            positive_lem c.elevated_flush_interval (codes "flusher.elevated_flush_interval") p5.0;
        window = positive_lem c.recovery_window (codes "flusher.recovery_window") p8.0;
        threshold =
            positive_lem c.elevated_latency_threshold (codes "flusher.elevated_latency_threshold")
              p6.0;
        threshold_lt =
            let fine =
              complain-empty (leb_ℤ c.critical_latency_threshold c.elevated_latency_threshold)
                (codes "flusher.elevated_latency_threshold") p8.1 in
            ground (arith, fine);
      }

  -- A configuration that Validate accepts paces the flusher: batches of at least one message, no smaller in elevated
  -- mode, intervals and a recovery window above zero, no negative number of retries, and the elevated threshold above
  -- zero and below the critical one.
  pub validate-IsPaced : (c : Config l) → validate l c ≡ [] → IsPaced c.flusher
  validate-IsPaced c h = IsPaced-fields c.flusher (validate-flusher c h)

  -- Of the built-in defaults, Validate complains about the four settings that have none (brokers, shared subscription,
  -- DSN and bucket) and about nothing else, where 0.8 and 0.95 are in range and in order, the empty endpoint is not
  -- parsed, and lower case leaves "info" and "json" as they are.
  pub validate-new_default :
      (spill high : l.float.F)
      → out_of_range l.float spill ≡ false
      → out_of_range l.float high ≡ false
      → l.float.le high spill ≡ false
      → l.to_lower (codes "info") ≡ codes "info"
      → l.to_lower (codes "json") ≡ codes "json"
      → validate l (new_default l spill high)
        ≡ codes "mqtt.brokers"
          ∷ codes "mqtt.shared_subscription"
          ∷ codes "postgres.dsn"
          ∷ codes "dead_letter.s3.bucket"
          ∷ []
  unfolding validate new_default check_mqtt check_buffer check_badger check_postgres check_flusher
      check_s3 check_logging bytes_eq
  validate-new_default spill high s p o i j = rw (s, p, o, i, j) refl
