-- ===== src/Config/Tests.antt =====
-- internal/config/config.go: the defaults, and a configuration that is complete.
use mqtt2db_go.Prelude.{◌≡◌, refl, true, [], ◌∷◌, some, codes, bytes_eq, has_prefix}
use mqtt2db_go.Prelude.Int.{negsuc}
use mqtt2db_go.Buffer.Floats.{thousandths}
use mqtt2db_go.Config.{
  Libraries, Config, validate, check_mqtt, check_brokers, check_buffer, check_badger,
  check_postgres, check_flusher, check_s3, check_logging,
}
use mqtt2db_go.Config.Defaults.{new_default}
use mqtt2db_go.Config.Accepted.{validate-IsPaced, validate-new_default, IsPaced}

-- Every URL parses, and every text is in lower case.
abbrev libraries : Libraries
libraries = record { float = thousandths; url_parses = λ s. true; to_lower = λ s. s }

abbrev defaults : Config libraries
defaults = new_default libraries (some 800) (some 950)

abbrev complete : Config libraries
complete = record defaults {
  mqtt = record (defaults.mqtt) {
    brokers = codes "tcp://b:1883" ∷ [];
    shared_subscription = codes "$share/g/t/#";
  };
  postgres = record (defaults.postgres) { dsn = codes "postgres://db" };
  s3 = record (defaults.s3) { bucket = codes "dead" };
}

complete_accepted : validate libraries complete ≡ []
unfolding validate new_default check_mqtt check_brokers check_buffer check_badger check_postgres
    check_flusher check_s3 check_logging bytes_eq has_prefix
complete_accepted = refl

complete-IsPaced : IsPaced libraries complete.flusher
complete-IsPaced = validate-IsPaced libraries complete complete_accepted

-- The defaults lack four settings.
defaults_refused :
    validate libraries defaults
    ≡ codes "mqtt.brokers"
      ∷ codes "mqtt.shared_subscription"
      ∷ codes "postgres.dsn"
      ∷ codes "dead_letter.s3.bucket"
      ∷ []
defaults_refused = validate-new_default libraries (some 800) (some 950) refl refl refl refl refl

too_few_retries :
    validate libraries
      (record complete { flusher = record (complete.flusher) { max_retries = negsuc 0 } })
    ≡ codes "flusher.max_retries" ∷ []
unfolding validate new_default check_mqtt check_brokers check_buffer check_badger check_postgres
    check_flusher check_s3 check_logging bytes_eq has_prefix
too_few_retries = refl
