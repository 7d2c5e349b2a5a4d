-- ===== src/Subscriber/Connect.antt =====
-- New, computeClientID, parseBrokers and the connection callbacks of internal/subscriber/subscriber.go. url.Parse,
-- os.Getenv and os.Hostname are parameters; autopaho is not modelled.
use mqtt2db_go.Prelude.{
  ℕ, ◌+◌, ◌/◌, Bool, List, [], ◌∷◌, ◌++◌, Option, none, some, Bytes, codes, if◌then◌else◌,
}
use mqtt2db_go.Prelude.Int.{ℤ, pos, negsuc}
use mqtt2db_go.Prelude.Results.{Result, ok, err}
use mqtt2db_go.Config.{MqttConfig, is_empty, lists_none}

-- The host's name: the variable HOSTNAME, and os.Hostname, none for an error.
pub record Host : Type 0 where
  pub env_hostname : Bytes
  pub os_hostname : Option Bytes

pub data ConnectError : Type 0 where
  ring_required metrics_required no_brokers prefix_required resolve_hostname : ConnectError
  parse_broker : Bytes → ConnectError

abbrev pub host_name : Option Bytes → Result ConnectError Bytes
host_name none = err resolve_hostname
host_name (some name) = if is_empty name then err resolve_hostname else ok name

abbrev pub with_prefix : Bytes → Result ConnectError Bytes → Result ConnectError Bytes
with_prefix prefix (ok host) = ok (prefix ++ (codes "-" ++ host))
with_prefix prefix (err e) = err e

unfoldable pub compute_client_id : Host → Bytes → Result ConnectError Bytes
compute_client_id h prefix =
    if is_empty prefix
    then err prefix_required
    else with_prefix prefix
        (if is_empty h.env_hostname then host_name h.os_hostname else ok h.env_hostname)

-- What New keeps of its arguments.
pub record Session : Type 0 where
  pub cfg : MqttConfig
  pub client_id : Bytes

abbrev pub session_of : MqttConfig → Result ConnectError Bytes → Result ConnectError Session
session_of cfg (ok id) = ok (record { cfg = cfg; client_id = id })
session_of cfg (err e) = err e

unfoldable pub new_session : Host → Bool → Bool → MqttConfig → Result ConnectError Session
unfolding compute_client_id
new_session h has_ring has_metrics cfg =
    if has_ring
    then (if has_metrics
        then (if lists_none cfg.brokers
            then err no_brokers
            else session_of cfg (compute_client_id h cfg.client_id_prefix))
        else err metrics_required)
    else err ring_required

module _ {Url : Type 0} (url_parse : Bytes → Option Url) where
  unfoldable pub parse_brokers : List Bytes → Result ConnectError (List Url)
  parse_brokers [] = ok []
  parse_brokers (b ∷ raw) =
      let rest = parse_brokers raw in
      elim (url_parse b) [
        | none ↦ err (parse_broker b)
        | some u ↦ elim rest [ err e ↦ err e | ok urls ↦ ok (u ∷ urls) ]
      ]

abbrev pub second : ℕ
second = 1_000_000_000

-- `uint16(d.Seconds())` and `uint32(d.Seconds())`: whole seconds, of a duration that is not negative and whose seconds
-- the type holds.
abbrev pub seconds_of : ℤ → ℕ
seconds_of (pos n) = n / second
seconds_of (negsuc n) = 0

-- autopaho.ClientConfig, as far as Start sets its numbers and flags.
pub record ClientConfig : Type 0 where
  pub keep_alive : ℕ
  pub connect_retry_delay : ℕ
  pub connect_timeout : ℤ
  pub session_expiry_interval : ℕ
  pub clean_start : Bool
  pub client_id : Bytes

unfoldable pub client_config : Session → ClientConfig
client_config s = record {
  keep_alive = seconds_of s.cfg.keepalive;
  connect_retry_delay = second;
  connect_timeout = s.cfg.connect_timeout;
  session_expiry_interval = seconds_of s.cfg.max_reconnect_backoff;
  clean_start = s.cfg.clean_session;
  client_id = s.client_id;
}

-- The gauge, the counter and the subscriptions that the callbacks of a connection touch, newest first.
pub record Link : Type 0 where
  pub connected : ℕ
  pub reconnects : ℕ
  pub subscribed : List (Bytes × ℕ)

-- onConnectionUp subscribes with QoS 1; a failure is only logged.
unfoldable pub on_connection_up : Session → Link → Link
on_connection_up s k = record {
  connected = 1;
  reconnects = k.reconnects + 1;
  subscribed = (s.cfg.shared_subscription, 1) ∷ k.subscribed;
}

unfoldable pub on_connect_error : Link → Link
on_connect_error k = record k { reconnects = k.reconnects + 1 }

unfoldable pub on_server_disconnect : Link → Link
on_server_disconnect k = record k { connected = 0 }
