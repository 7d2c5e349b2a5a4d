-- ===== src/DeadLetter.antt =====
-- internal/deadletter/deadletter.go: the sink for messages that exhausted their retries. The AWS SDK, encoding/json,
-- uuid.UUID.String and the layout of a date are parameters. Text of an error is a byte string.
pub mod Keys
pub mod Writes
mod Tests
use mqtt2db_go.Prelude.{
  ℕ, ◌+◌, ◌%◌, ◌^◌, Bool, true, false, not, ◌&&◌, ◌||◌, List, [], ◌∷◌, ◌++◌, Option, none, some,
  Bytes, codes, bytes_eq, has_prefix, if◌then◌else◌,
}
use mqtt2db_go.Prelude.Decimal.{decimal, decimal_ℤ}
use mqtt2db_go.Prelude.Results.{Result, ok, err}
use mqtt2db_go.Message.{Message, Time}
use mqtt2db_go.Subscriber.{unix_nano}
use mqtt2db_go.Config.{S3Config, is_empty}

-- s3.PutObjectInput, as far as it is set.
pub record PutObject : Type 0 where
  pub bucket : Bytes
  pub key : Bytes
  pub body : Bytes
  pub content_type : Bytes

pub record Envelope : Type 0 where
  pub timestamp : Time
  pub tenant_id : Bytes
  pub device_uuid : Bytes
  pub topic : Bytes
  pub payload : Bytes
  pub received_at : Time
  pub dedup_key : Bytes
  pub last_error : Bytes

-- The S3 client that NewSink asks for.
pub record Client : Type 0 where
  pub region : Bytes
  pub credentials : Option (Bytes × Bytes)
  pub base_endpoint : Option Bytes
  pub path_style : Bool

pub record Libraries : Type 0 where
  pub uuid_string : Bytes → Bytes
  pub date : Time → Bytes
  pub marshal : Envelope → Option Bytes
  pub load_default_config : Bytes → Option (Bytes × Bytes) → Bool
  pub put_object : PutObject → Bool
  pub head_bucket : Bytes → Bool

-- metrics.DeadLetterMetrics; latencies, newest first.
pub record Metrics : Type 0 where
  pub written : ℕ
  pub errors : ℕ
  pub latencies : List ℕ

pub record Sink : Type 0 where
  pub cfg : S3Config
  pub seq : ℕ
  pub m : Metrics

pub data SinkError : Type 0 where
  bucket_required metrics_required aws_config : SinkError

pub data WriteError : Type 0 where
  marshal_envelope put : WriteError

-- strings.Contains
unfoldable pub contains : Bytes → Bytes → Bool
contains [] sub = has_prefix [] sub
contains (c ∷ s) sub = let rest = contains s sub in has_prefix (c ∷ s) sub || rest

unfoldable pub endpoint_of : S3Config → Bytes
unfolding contains
endpoint_of cfg =
    if not (contains cfg.endpoint (codes "://"))
    then (if cfg.use_ssl then codes "https://" ++ cfg.endpoint else codes "http://" ++ cfg.endpoint)
    else cfg.endpoint

abbrev pub credentials_of : S3Config → Option (Bytes × Bytes)
credentials_of cfg =
    if not (is_empty cfg.access_key) && not (is_empty cfg.secret_key)
    then some (cfg.access_key, cfg.secret_key)
    else none

unfoldable pub client_of : S3Config → Client
client_of cfg = record {
  region = cfg.region;
  credentials = credentials_of cfg;
  base_endpoint = if not (is_empty cfg.endpoint) then some (endpoint_of cfg) else none;
  path_style = cfg.use_path_style;
}

abbrev pub with_region : S3Config → S3Config
with_region cfg = if is_empty cfg.region then record cfg { region = codes "us-east-1" } else cfg

module _ (l : Libraries) where
  -- NewSink, and the client that it wraps.
  unfoldable pub new_sink : S3Config → Option Metrics → Result SinkError (Sink × Client)
  new_sink cfg m = if is_empty cfg.bucket then err bucket_required else (elim m [
    | none ↦ err metrics_required
    | some counts ↦
        if l.load_default_config (with_region cfg).region (credentials_of cfg)
        then ok (record { cfg = with_region cfg; seq = 0; m = counts }, client_of (with_region cfg))
        else err aws_config
  ])

  unfoldable pub health_check : Sink → Bool
  health_check s = l.head_bucket s.cfg.bucket

  abbrev pub tenant_of : Message → Bytes
  tenant_of msg = if is_empty msg.tenant_id then codes "unknown" else msg.tenant_id

  abbrev pub device_of : Message → Bytes
  device_of msg =
      if bytes_eq (l.uuid_string msg.device_uuid) (codes "00000000-0000-0000-0000-000000000000")
      then codes "unknown"
      else l.uuid_string msg.device_uuid

  -- The key of the object with a sequence number.
  abbrev pub key_of : Message → Time → ℕ → Bytes
  key_of msg now seq =
      codes "dead-letter/"
      ++ (l.date now
          ++ (codes "/"
              ++ (tenant_of msg
                  ++ (codes "/"
                      ++ (device_of msg
                          ++ (codes "/"
                              ++ (decimal_ℤ (unix_nano msg.received_at)
                                  ++ (codes "-" ++ (decimal seq ++ codes ".json")))))))))

  -- The counter is a uint64.
  unfoldable pub make_key : Sink → Message → Time → Sink × Bytes
  make_key s msg now =
      let seq = (s.seq + 1) % 2 ^ 64 in (record s { seq = seq }, key_of msg now seq)

  abbrev pub text_of : Option Bytes → Bytes
  text_of none = []
  text_of (some text) = text

  abbrev pub envelope_of : Message → Option Bytes → Time → Envelope
  envelope_of msg last_err now = record {
    timestamp = now;
    tenant_id = msg.tenant_id;
    device_uuid = l.uuid_string msg.device_uuid;
    topic = msg.topic;
    payload = msg.payload;
    received_at = msg.received_at;
    dedup_key = msg.dedup_key;
    last_error = text_of last_err;
  }

  abbrev pub count_error : Sink → Sink
  count_error s = record s { m = record (s.m) { errors = s.m.errors + 1 } }

  abbrev pub count_written : Sink → Sink
  count_written s = record s { m = record (s.m) { written = s.m.written + 1 } }

  -- The upload, which took a while.
  unfoldable pub upload :
      Sink → PutObject → ℕ → Sink × Result WriteError (Unit {0}) × List PutObject
  upload s object took =
      let s' = record s { m = record (s.m) { latencies = took ∷ s.m.latencies } } in
      if l.put_object object
      then (count_written s', ok tt, object ∷ [])
      else (count_error s', err put, object ∷ [])

  -- Write, and the objects that it has put.
  unfoldable pub write :
      Sink
      → Message
      → Option Bytes
      → Time
      → ℕ
      → Sink × Result WriteError (Unit {0}) × List PutObject
  unfolding make_key upload
  write s msg last_err now took = elim (l.marshal (envelope_of msg last_err now)) [
    | none ↦ (count_error s, err marshal_envelope, [])
    | some body ↦
        let (s', key) = make_key s msg now in
        upload s'
          (record {
            bucket = s.cfg.bucket;
            key = key;
            body = body;
            content_type = codes "application/json";
          })
          took
  ]
