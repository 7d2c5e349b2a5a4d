-- ===== src/Subscriber/Start.antt =====
-- Start of internal/subscriber/subscriber.go: the broker URLs, the client, and the callbacks until the context ends. url.Parse
-- and autopaho.NewConnection are parameters; which callbacks it makes is up to autopaho.
mod Tests
use mqtt2db_go.Prelude.{
  ℕ, suc, ◌+◌, ◌≡◌, ◌⊎◌, refl, ◌∙◌, ap, inl, inr, Bool, true, false, Bool-cases, List, [], ◌∷◌,
  ◌++◌, Option, none, some, Bytes, All, replicate, if◌then◌else◌, arith,
}
use mqtt2db_go.Prelude.Results.{Result, ok, err, Result-cases}
use mqtt2db_go.Subscriber.Connect.{
  ConnectError, Session, parse_brokers, ClientConfig, client_config, Link, on_connection_up,
  on_connect_error, on_server_disconnect,
}

-- OnConnectionUp, OnConnectError, OnClientError and OnServerDisconnect.
pub data Callback : Type 0 where
  connection_up connect_error client_error server_disconnect : Callback

-- OnClientError only logs.
unfoldable pub call_back : Session → Callback → Link → Link
unfolding on_connection_up on_connect_error on_server_disconnect
call_back s connection_up k = on_connection_up s k
call_back s connect_error k = on_connect_error k
call_back s client_error k = k
call_back s server_disconnect k = on_server_disconnect k

-- Newest first.
unfoldable pub call_all : Session → List Callback → Link → Link
unfolding call_back
call_all s [] k = k
call_all s (c ∷ cs) k = call_back s c (call_all s cs k)

pub data StartError : Type 0 where
  brokers : ConnectError → StartError
  new_connection_failed : StartError

module _ {Url : Type 0} (url_parse : Bytes → Option Url)
    (new_connection : ClientConfig → List Url → Bool) where
  -- The end of Start, after ctx.Done.
  abbrev pub disconnected : Link → Link
  disconnected k = record k { connected = 0 }

  abbrev pub connect :
      Session
      → List Callback
      → Link
      → Result ConnectError (List Url)
      → Result StartError (Unit {0}) × Link
  connect s cs k (err e) = (err (brokers e), k)
  connect s cs k (ok urls) =
      if new_connection (client_config s) urls
      then (ok tt, disconnected (call_all s cs k))
      else (err new_connection_failed, k)

  unfoldable pub start : Session → List Callback → Link → Result StartError (Unit {0}) × Link
  unfolding parse_brokers client_config call_all
  start s cs k = connect s cs k (parse_brokers url_parse s.cfg.brokers)

-- How many connections came up, and how many failed to.
abbrev pub ups : List Callback → ℕ
ups [] = 0
ups (connection_up ∷ cs) = ups cs + 1
ups (c ∷ cs) = ups cs

abbrev pub failures : List Callback → ℕ
failures [] = 0
failures (connect_error ∷ cs) = failures cs + 1
failures (c ∷ cs) = failures cs

call_all-reconnects :
    (s : Session) (cs : List Callback) (k : Link)
    → (call_all s cs k).reconnects ≡ k.reconnects + (ups cs + failures cs)
unfolding call_all on_connection_up on_connect_error on_server_disconnect
call_all-reconnects s [] k = omega arith
call_all-reconnects s (connection_up ∷ cs) k = omega (arith, call_all-reconnects s cs k)
call_all-reconnects s (connect_error ∷ cs) k = omega (arith, call_all-reconnects s cs k)
call_all-reconnects s (client_error ∷ cs) k = call_all-reconnects s cs k
call_all-reconnects s (server_disconnect ∷ cs) k = call_all-reconnects s cs k

abbrev pub shared : Session → Bytes × ℕ
shared s = (s.cfg.shared_subscription, 1)

call_all-subscribed :
    (s : Session) (cs : List Callback) (k : Link)
    → (call_all s cs k).subscribed ≡ replicate (ups cs) (shared s) ++ k.subscribed
unfolding call_all on_connection_up on_connect_error on_server_disconnect
call_all-subscribed s [] k = refl
call_all-subscribed s (connection_up ∷ cs) k =
    ap (λ l. shared s ∷ l) (call_all-subscribed s cs k)
    ∙ ap (λ n. replicate n (shared s) ++ k.subscribed) one_more
  where
    one_more : suc (ups cs) ≡ ups cs + 1
    one_more = omega arith
call_all-subscribed s (connect_error ∷ cs) k = call_all-subscribed s cs k
call_all-subscribed s (client_error ∷ cs) k = call_all-subscribed s cs k
call_all-subscribed s (server_disconnect ∷ cs) k = call_all-subscribed s cs k

-- Start returns an error when a broker URL does not parse or the client is not created, and then nothing was touched.
-- Otherwise it returns none, whatever callbacks were made: the Connected gauge is then 0, Reconnects has counted each
-- connection that came up, the first one too, and each that failed to, and the shared subscription was asked for with QoS 1
-- once for each connection that came up.
pub start_lem :
    {Url : Type 0} (url_parse : Bytes → Option Url)
    (new_connection : ClientConfig → List Url → Bool) (s : Session) (cs : List Callback) (k : Link)
    → let (result, k') = start url_parse new_connection s cs k in
      ((e : ConnectError) × (parse_brokers url_parse s.cfg.brokers ≡ err e)
        × (result ≡ err (brokers e))
        × (k' ≡ k))
      ⊎ ((urls : List Url) × (parse_brokers url_parse s.cfg.brokers ≡ ok urls)
          × (new_connection (client_config s) urls ≡ false)
          × (result ≡ err new_connection_failed)
          × (k' ≡ k))
      ⊎ ((urls : List Url) × (parse_brokers url_parse s.cfg.brokers ≡ ok urls)
          × (new_connection (client_config s) urls ≡ true)
          × (result ≡ ok tt)
          × (k'.connected ≡ 0)
          × (k'.reconnects ≡ k.reconnects + (ups cs + failures cs))
          × (k'.subscribed ≡ replicate (ups cs) (shared s) ++ k.subscribed))
unfolding start
start_lem url_parse new_connection s cs k =
    elim (Result-cases (parse_brokers url_parse s.cfg.brokers)) [
      | inl (e, refused) ↦ rw (refused, start) (inl (e, refl, refl, refl))
      | inr (urls, parsed) ↦ elim (Bool-cases (new_connection (client_config s) urls)) [
        | inr failed ↦ rw (parsed, failed, start) (inr (inl (urls, refl, failed, refl, refl)))
        | inl made ↦
            rw (parsed, made, start)
              (inr (
                inr (
                  urls,
                  refl,
                  made,
                  refl,
                  refl,
                  call_all-reconnects s cs k,
                  call_all-subscribed s cs k,
                )))
      ]
    ]

-- A lost connection and failed attempts to connect again.
abbrev pub IsOutage : Callback → Type 0
IsOutage client_error = Unit
IsOutage connect_error = Unit
IsOutage _ = ⊥

-- When a connection that came up is lost with a client error, and no attempt to connect again succeeds, the Connected
-- gauge stays at 1, however many attempts fail.
pub call_all-stale :
    (s : Session) (cs before : List Callback) (k : Link)
    → All IsOutage cs
    → (call_all s (cs ++ client_error ∷ connection_up ∷ before) k).connected ≡ 1
unfolding call_all on_connection_up on_connect_error
call_all-stale s [] before k h = refl
call_all-stale s (connection_up ∷ cs) before k h = absurd (h.0)
call_all-stale s (connect_error ∷ cs) before k h = call_all-stale s cs before k h.1
call_all-stale s (client_error ∷ cs) before k h = call_all-stale s cs before k h.1
call_all-stale s (server_disconnect ∷ cs) before k h = absurd (h.0)
