-- ===== src/Health/Server.antt =====
-- NewServer, handleLive and Run of internal/health/health.go, and the probes that cmd/mqtt2db-go/main.go registers. net/http
-- is a parameter: its ServeMux, and where it fails.
use mqtt2db_go.Prelude.{
  ℕ, ◌≡◌, ◌≢◌, ◌⊎◌, ◌↔◌, refl, sym, ap, ◌∙◌, Bool, true, false, not, ◌&&◌, ◌||◌, List, [], ◌∷◌, leb,
  Option, none, some, Bytes, codes, bytes_eq, bytes_eq_refl, ◌==◌, if◌then◌else◌,
}
use mqtt2db_go.Prelude.Results.{Result, ok, err}
use mqtt2db_go.Config.{is_empty}
use mqtt2db_go.Health.{
  Probe, Probes, Readiness, register, handle_ready, AllHealthy, handle_ready-AllHealthy,
  bytes_eq-other,
}

pub record Server : Type 0 where
  pub addr : Bytes
  pub liveness_path : Bytes
  pub readiness_path : Bytes
  pub probes : Probes

abbrev pub or_default : Bytes → Bytes → Bytes
or_default s d = if is_empty s then d else s

unfoldable pub new_server : Bytes → Bytes → Bytes → Server
new_server addr liveness_path readiness_path = record {
  addr = or_default addr (codes ":8080");
  liveness_path = or_default liveness_path (codes "/healthz");
  readiness_path = or_default readiness_path (codes "/readyz");
  probes = [];
}

-- The probes of the service; the one of the broker is always healthy.
unfoldable pub with_probes : Server → Probe → Probe → Server
with_probes s ping bucket = record s {
  probes =
      register
        (register (register s.probes (codes "postgres") ping) (codes "dead_letter_bucket") bucket)
        (codes "mqtt") none;
}

abbrev pub handle_live : Readiness
handle_live = record { code = 200; status = codes "alive"; checks = [] }

-- What a mux does with a path: it calls the handler of a pattern, or answers itself.
pub data Answer : Type 0 where
  handled : (pattern : Bytes) → Answer
  own : (code : ℕ) → Answer

-- http.ServeMux: whether a new one takes these patterns, one after the other, without a panic, and what it then does with the path of
-- a GET request.
pub record ServeMux : Type 0 where
  pub takes : List Bytes → Bool
  pub answer : List Bytes → Bytes → Answer

abbrev pub patterns : Server → List Bytes
patterns s = s.liveness_path ∷ s.readiness_path ∷ []

-- What the mux of Run answers to a path.
unfoldable pub route : ServeMux → Server → Bytes → Readiness
route http s path = elim (http.answer (patterns s) path) [
  | handled pattern ↦
      if bytes_eq pattern s.liveness_path then handle_live else handle_ready s.probes
  | own code ↦ record { code = code; status = []; checks = [] }
]

-- The mux of Run; none is the panic of HandleFunc.
unfoldable pub mux : ServeMux → Server → Option (Bytes → Readiness)
mux http s = if http.takes (patterns s) then some (route http s) else none

pub data RunError : Type 0 where
  health_server health_server_shutdown : RunError

-- How Run ends: ListenAndServe returned first, with an error or because the server was closed, or the context ended
-- first, and Shutdown says whether it failed.
pub data Ending : Type 0 where
  listen_failed server_closed : Ending
  context_done : Bool → Ending

unfoldable pub run_end : Ending → Result RunError (Unit {0})
run_end listen_failed = err health_server
run_end server_closed = ok tt
run_end (context_done fine) = if fine then ok tt else err health_server_shutdown

-- Letters, digits, `-` and `_`.
abbrev is_plain_char : ℕ → Bool
is_plain_char c =
    (leb b'a' c && leb c b'z')
    || (leb b'A' c && leb c b'Z')
    || (leb b'0' c && leb c b'9')
    || c == b'-'
    || c == b'_'

abbrev plain_from : Bool → Bytes → Bool
plain_from slash [] = not slash
plain_from slash (c ∷ cs) =
    let below = plain_from true cs in
    let on = plain_from false cs in if c == b'/' then not slash && below else is_plain_char c && on

-- A path of segments that are not empty, each behind a slash: as a pattern it has no method, host, wildcard or trailing slash, and as
-- the path of a request it is clean.
abbrev pub is_plain : Bytes → Bool
is_plain [] = false
is_plain (c ∷ cs) = c == b'/' && plain_from true cs

-- What net/http documents of two plain patterns that differ: they do not conflict, and of the plain paths each matches itself
-- only; a path that matches no pattern is answered with 404.
pub record IsDocumented (http : ServeMux) : Type 0 where
  pub takes_two :
      (p q : Bytes) → is_plain p ≡ true → is_plain q ≡ true → p ≢ q → http.takes (p ∷ q ∷ []) ≡ true
  pub matches_first :
      (p q : Bytes)
      → is_plain p ≡ true
      → is_plain q ≡ true
      → p ≢ q
      → http.answer (p ∷ q ∷ []) p ≡ handled p
  pub matches_second :
      (p q : Bytes)
      → is_plain p ≡ true
      → is_plain q ≡ true
      → p ≢ q
      → http.answer (p ∷ q ∷ []) q ≡ handled q
  pub misses :
      (p q path : Bytes)
      → is_plain p ≡ true
      → is_plain q ≡ true
      → is_plain path ≡ true
      → path ≢ p
      → path ≢ q
      → http.answer (p ∷ q ∷ []) path ≡ own 404

-- The answers of `route`, by what the mux says.
route-handled :
    (http : ServeMux) (s : Server) (path pattern : Bytes)
    → http.answer (patterns s) path ≡ handled pattern
    → route http s path
      ≡ (if bytes_eq pattern s.liveness_path then handle_live else handle_ready s.probes)
unfolding route
route-handled http s path pattern h = rw (h, route) refl

route-own :
    (http : ServeMux) (s : Server) (path : Bytes) (code : ℕ)
    → http.answer (patterns s) path ≡ own code
    → (route http s path).code ≡ code
unfolding route
route-own http s path code h = rw (h, route) refl

route-live :
    (http : ServeMux) (s : Server)
    → http.answer (patterns s) s.liveness_path ≡ handled s.liveness_path
    → route http s s.liveness_path ≡ handle_live
route-live http s h =
    route-handled http s s.liveness_path s.liveness_path h
    ∙ ap (λ b. if b then handle_live else handle_ready s.probes) (bytes_eq_refl s.liveness_path)

route-ready :
    (http : ServeMux) (s : Server)
    → http.answer (patterns s) s.readiness_path ≡ handled s.readiness_path
    → s.liveness_path ≢ s.readiness_path
    → route http s s.readiness_path ≡ handle_ready s.probes
route-ready http s h apart =
    route-handled http s s.readiness_path s.readiness_path h
    ∙ ap (λ b. if b then handle_live else handle_ready s.probes)
        (bytes_eq-other s.readiness_path s.liveness_path (λ e. apart (sym e)))

-- With a ServeMux that does what net/http documents, a server with two different paths, both plain, and another plain path: the
-- mux is set up with no panic; the liveness path answers 200, whatever the probes say; the readiness path answers 200 exactly
-- when all probes are healthy, and 503 otherwise; the other path answers 404.
pub mux-AllHealthy :
    (http : ServeMux) (s : Server) (other : Bytes)
    → IsDocumented http
    → is_plain s.liveness_path ≡ true
    → is_plain s.readiness_path ≡ true
    → is_plain other ≡ true
    → s.liveness_path ≢ s.readiness_path
    → other ≢ s.liveness_path
    → other ≢ s.readiness_path
    → (mux http s ≡ some (route http s))
      × ((route http s s.liveness_path).code ≡ 200)
      × (((route http s s.readiness_path).code ≡ 200) ↔ AllHealthy s.probes)
      × (((route http s s.readiness_path).code ≡ 200)
          ⊎ ((route http s s.readiness_path).code ≡ 503))
      × ((route http s other).code ≡ 404)
unfolding mux
mux-AllHealthy http s other doc live ready plain apart not_live not_ready =
    let l = s.liveness_path in
    let r = s.readiness_path in
    let (exact, either) = handle_ready-AllHealthy s.probes in
    rw
      (
        doc.takes_two l r live ready apart,
        route-live http s (doc.matches_first l r live ready apart),
        route-ready http s (doc.matches_second l r live ready apart) apart,
        route-own http s other 404 (doc.misses l r other live ready plain not_live not_ready),
      )
      (refl, refl, exact, either, refl)
