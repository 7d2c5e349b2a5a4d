-- ===== src/Config/Named.antt =====
-- The texts that the constructors of the components ask for, in a configuration that Validate of internal/config/config.go
-- accepts, and the logger of internal/logging/logging.go that it gives.
use mqtt2db_go.Prelude.{
  one_of, ◌≡◌, refl, not, ◌||◌, Bool-cases, inl, inr, Bool, true, false, [], ◌∷◌, Bytes, codes,
  arith, bytes_eq,
}
use mqtt2db_go.Prelude.Int.{pos, ltb_ℤ}
use mqtt2db_go.Prelude.Results.{ok}
use mqtt2db_go.Config.{
  is_empty, lists_none, check_brokers, check_subscription, Libraries, Config, complain,
  must_be_positive, check_mqtt, check_buffer, check_badger, check_postgres, check_flusher, check_s3,
  check_logging, validate,
}
use mqtt2db_go.Config.Accepted.{append-empty, complain-empty}
use mqtt2db_go.Logging.{
  Level, level_debug, level_info, level_warn, level_error, Handler, json_handler, text_handler,
  Logger, level_named, handler_named, new_with_writer,
}

not-false : (b : Bool) → not b ≡ false → b ≡ true
not-false true h = refl
not-false false h = cc

module _ (l : Libraries) where
  -- What Validate establishes for the constructors: the texts that they ask for are there.
  pub record IsNamed (c : Config l) : Type 0 where
    pub some_broker : lists_none c.mqtt.brokers ≡ false
    pub prefix : is_empty c.mqtt.client_id_prefix ≡ false
    pub path : is_empty c.badger.path ≡ false
    pub dsn : is_empty c.postgres.dsn ≡ false
    pub schema : is_empty c.postgres.schema ≡ false
    pub table : is_empty c.postgres.table ≡ false
    pub bucket : is_empty c.s3.bucket ≡ false

  -- The sections of the configuration, one by one.
  record Sections (c : Config l) : Type 0 where
    mqtt : check_mqtt l c.mqtt ≡ []
    badger : check_badger l c.badger ≡ []
    postgres : check_postgres l c.postgres ≡ []
    s3 : check_s3 l c.s3 ≡ []
    logging : check_logging l c.logging ≡ []

  validate-Sections : (c : Config l) → validate l c ≡ [] → Sections c
  unfolding validate
  validate-Sections c h =
      let r1 = append-empty (check_mqtt l c.mqtt) _ h in
      let r2 = append-empty (check_buffer l c.buffer) _ r1.1 in
      let r3 = append-empty (check_badger l c.badger) _ r2.1 in
      let r4 = append-empty (check_postgres l c.postgres) _ r3.1 in
      let r5 = append-empty (check_flusher l c.flusher) _ r4.1 in
      let r6 = append-empty (check_s3 l c.s3) _ r5.1 in
      record { mqtt = r1.0; badger = r3.0; postgres = r4.0; s3 = r6.0; logging = r6.1 }

  pub validate-IsNamed : (c : Config l) → validate l c ≡ [] → IsNamed c
  unfolding check_mqtt check_badger check_postgres check_s3
  validate-IsNamed c h =
      let parts = validate-Sections c h in
      let m1 =
        append-empty (complain (lists_none c.mqtt.brokers) (codes "mqtt.brokers")) _ parts.mqtt in
      let m2 = append-empty (check_brokers l c.mqtt.brokers) _ m1.1 in
      let m3 = append-empty (check_subscription l c.mqtt.shared_subscription) _ m2.1 in
      let m4 =
        append-empty (complain (is_empty c.mqtt.client_id_prefix) (codes "mqtt.client_id_prefix")) _
          m3.1 in
      let b1 =
        append-empty (complain (is_empty c.badger.path) (codes "badger.path")) _ parts.badger in
      let p1 =
        append-empty (complain (is_empty c.postgres.dsn) (codes "postgres.dsn")) _ parts.postgres in
      let p2 =
        append-empty (must_be_positive c.postgres.max_conns (codes "postgres.max_conns")) _ p1.1 in
      let p3 =
        append-empty
          (complain
            (ltb_ℤ c.postgres.min_conns (pos 0) || ltb_ℤ c.postgres.max_conns c.postgres.min_conns)
            (codes "postgres.min_conns"))
          _ p2.1 in
      let p4 =
        append-empty (complain (is_empty c.postgres.schema) (codes "postgres.schema")) _ p3.1 in
      let p5 =
        append-empty (complain (is_empty c.postgres.table) (codes "postgres.table")) _ p4.1 in
      let s1 =
        append-empty (complain (is_empty c.s3.bucket) (codes "dead_letter.s3.bucket")) _ parts.s3 in
      record {
        some_broker = complain-empty _ (codes "mqtt.brokers") m1.0;
        prefix = complain-empty _ (codes "mqtt.client_id_prefix") m4.0;
        path = complain-empty _ (codes "badger.path") b1.0;
        dsn = complain-empty _ (codes "postgres.dsn") p1.0;
        schema = complain-empty _ (codes "postgres.schema") p4.0;
        table = complain-empty _ (codes "postgres.table") p5.0;
        bucket = complain-empty _ (codes "dead_letter.s3.bucket") s1.0;
      }

  -- The logger knows every level and every format that Validate accepts.
  level-known :
      (s : Bytes)
      → one_of s (codes "debug" ∷ codes "info" ∷ codes "warn" ∷ codes "error" ∷ []) ≡ true
      → (level : Level) × (level_named s ≡ ok level)
  unfolding level_named
  level-known s h = elim (Bool-cases (bytes_eq s (codes "debug"))) [
    | inl e ↦ rw (e) (level_debug, refl)
    | inr n ↦ elim (Bool-cases (bytes_eq s (codes "info") || is_empty s)) [
      | inl e ↦ rw (n, e) (level_info, refl)
      | inr n1 ↦ elim (Bool-cases (bytes_eq s (codes "warn") || bytes_eq s (codes "warning"))) [
        | inl e ↦ rw (n, n1, e) (level_warn, refl)
        | inr n2 ↦ elim (Bool-cases (bytes_eq s (codes "error"))) [
          | inl e ↦ rw (n, n1, n2, e) (level_error, refl)
          | inr n3 ↦ absurd (ground (arith, h, n, n1, n2, n3))
        ]
      ]
    ]
  ]

  handler-known :
      (s : Bytes)
      → one_of s (codes "json" ∷ codes "text" ∷ []) ≡ true
      → (handler : Handler) × (handler_named s ≡ ok handler)
  unfolding handler_named
  handler-known s h = elim (Bool-cases (bytes_eq s (codes "json"))) [
    | inl e ↦ rw (e) (json_handler, refl)
    | inr n ↦ elim (Bool-cases (bytes_eq s (codes "text"))) [
      | inl e ↦ rw (n, e) (text_handler, refl)
      | inr n1 ↦ absurd (ground (arith, h, n, n1))
    ]
  ]

  pub validate-new_with_writer :
      (c : Config l)
      → validate l c ≡ []
      → (logger : Logger) × (new_with_writer l.to_lower c.logging ≡ ok logger)
  unfolding check_logging new_with_writer
  validate-new_with_writer c h =
      let levels = codes "debug" ∷ codes "info" ∷ codes "warn" ∷ codes "error" ∷ [] in
      let formats = codes "json" ∷ codes "text" ∷ [] in
      let parts =
        append-empty
          (complain (not (one_of (l.to_lower c.logging.level) levels)) (codes "logging.level")) _
          (validate-Sections c h).logging in
      let fine = complain-empty _ (codes "logging.level") parts.0 in
      let fine' =
        complain-empty (not (one_of (l.to_lower c.logging.format) formats)) (codes "logging.format")
          parts.1 in
      let (level, known) = level-known (l.to_lower c.logging.level) (not-false _ fine) in
      let (handler, known') = handler-known (l.to_lower c.logging.format) (not-false _ fine') in
      rw (known, known', new_with_writer) (record { level = level; handler = handler }, refl)
