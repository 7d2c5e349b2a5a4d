-- ===== src/DeadLetter/Tests.antt =====
-- A sink at concrete messages.
use mqtt2db_go.Prelude.{◌≡◌, refl, true, false, [], ◌∷◌, some, codes, bytes_eq, has_prefix, arith}
use mqtt2db_go.Prelude.Decimal.{decimal, decimal_ℤ}
use mqtt2db_go.Message.{zero_message}
use mqtt2db_go.Config.{S3Config}
use mqtt2db_go.DeadLetter.{Libraries, Sink, make_key, endpoint_of, client_of, contains}
use mqtt2db_go.DeadLetter.Writes.{Job, Outcome, write-Outcome, write_job, write_all}
use mqtt2db_go.DeadLetter.Keys.{Distinct, write_all-Distinct}

-- An SDK whose bucket takes everything.
abbrev libraries : Libraries
libraries = record {
  uuid_string = λ id. codes "00000000-0000-0000-0000-000000000000";
  date = λ t. codes "2026-01-02";
  marshal = λ e. some e.topic;
  load_default_config = λ region pair. true;
  put_object = λ o. true;
  head_bucket = λ b. true;
}

abbrev cfg : S3Config
cfg = record {
  bucket = codes "lost";
  region = codes "us-east-1";
  endpoint = codes "minio:9000";
  use_path_style = true;
  use_ssl = false;
  access_key = codes "k";
  secret_key = codes "s";
}

abbrev sink : Sink
sink = record { cfg = cfg; seq = 0; m = record { written = 0; errors = 0; latencies = [] } }

abbrev job : Job
job = record { msg = zero_message; last_err = some (codes "closed"); now = 5; took = 3 }

write-Outcome_example : Outcome libraries sink job (write_job libraries sink job)
write-Outcome_example = write-Outcome libraries sink job

write_all-Distinct_example : Distinct libraries (write_all libraries sink (job ∷ job ∷ [])).1
write_all-Distinct_example = write_all-Distinct libraries sink (job ∷ job ∷ []) (omega arith)

-- The zero device and the empty tenant both read "unknown".
first_key :
    (make_key libraries sink (record zero_message { received_at = 62_135_596_800_000_000_007 }) 5).1
    ≡ codes "dead-letter/2026-01-02/unknown/unknown/7-1.json"
unfolding make_key decimal decimal_ℤ bytes_eq
first_key = refl

bare_endpoint : (client_of cfg).base_endpoint ≡ some (codes "http://minio:9000")
unfolding client_of endpoint_of contains has_prefix
bare_endpoint = refl
