-- ===== src/Subscriber/Start/Tests.antt =====
-- A session over one broker: it comes up, is lost, and two attempts to connect again fail.
use mqtt2db_go.Prelude.{
  ◌+◌, ◌≡◌, ◌⊎◌, true, false, List, [], ◌∷◌, ◌++◌, some, Bytes, codes, replicate,
}
use mqtt2db_go.Prelude.Int.{pos}
use mqtt2db_go.Prelude.Results.{ok, err}
use mqtt2db_go.Subscriber.Connect.{Session, Link, ConnectError, parse_brokers}
use mqtt2db_go.Subscriber.Start.{
  Callback, connection_up, connect_error, client_error, call_all, start, brokers,
  new_connection_failed, ups, failures, shared, start_lem, call_all-stale,
}

abbrev session : Session
session = record {
  cfg = record {
    brokers = codes "mqtt://b" ∷ [];
    client_id_prefix = codes "ingest";
    shared_subscription = codes "$share/g/t/#";
    keepalive = pos 30_000_000_000;
    connect_timeout = pos 10_000_000_000;
    max_reconnect_backoff = pos 60_000_000_000;
    clean_session = false;
    protocol_version = pos 5;
  };
  client_id = codes "ingest-pod";
}

abbrev at_boot : Link
at_boot = record { connected = 0; reconnects = 0; subscribed = [] }

abbrev lost : List Callback
lost = connect_error ∷ connect_error ∷ client_error ∷ connection_up ∷ []

start_lem_example :
    let (result, k') = start some (λ c urls. true) session lost at_boot in
    ((e : ConnectError) × (parse_brokers some session.cfg.brokers ≡ err e)
      × (result ≡ err (brokers e))
      × (k' ≡ at_boot))
    ⊎ ((urls : List Bytes) × (parse_brokers some session.cfg.brokers ≡ ok urls)
        × (true ≡ false)
        × (result ≡ err new_connection_failed)
        × (k' ≡ at_boot))
    ⊎ ((urls : List Bytes) × (parse_brokers some session.cfg.brokers ≡ ok urls)
        × (true ≡ true)
        × (result ≡ ok tt)
        × (k'.connected ≡ 0)
        × (k'.reconnects ≡ 0 + (ups lost + failures lost))
        × (k'.subscribed ≡ replicate (ups lost) (shared session) ++ []))
start_lem_example = start_lem some (λ c urls. true) session lost at_boot

call_all-stale_example : (call_all session lost at_boot).connected ≡ 1
call_all-stale_example =
    call_all-stale session (connect_error ∷ connect_error ∷ []) [] at_boot (tt, (tt, tt))
