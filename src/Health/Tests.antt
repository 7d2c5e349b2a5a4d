-- ===== src/Health/Tests.antt =====
-- The readiness answer for two probes.
use mqtt2db_go.Prelude.{
  ◌≡◌, ◌⊎◌, ◌↔◌, refl, sym, Bool, true, not, ◌&&◌, List, [], ◌∷◌, Bytes, one_of, if◌then◌else◌,
  bytes_eq_refl, none, some, codes, bytes_eq, arith,
}
use mqtt2db_go.Health.{Probes, handle_ready, AllHealthy, bytes_eq-other}
use mqtt2db_go.Health.Server.{
  Server, ServeMux, handled, own, IsDocumented, mux, route, new_server, mux-AllHealthy,
}

abbrev wired : Probes
wired = (codes "mqtt", none) ∷ (codes "pg", some (codes "down")) ∷ []

unready : (handle_ready wired).code ≡ 503
unfolding handle_ready
unready = refl

abbrev two_probes : Server
two_probes = record {
  addr = codes ":1";
  liveness_path = codes "/l";
  readiness_path = codes "/r";
  probes = wired;
}

-- A mux that matches patterns as they are, and panics when one is there already.
abbrev exact_takes : List Bytes → Bool
exact_takes [] = true
exact_takes (p ∷ ps) = not (one_of p ps) && exact_takes ps

abbrev exact : ServeMux
exact = record {
  takes = exact_takes;
  answer = λ ps path. if one_of path ps then handled path else own 404;
}

exact-IsDocumented : IsDocumented exact
exact-IsDocumented = record {
  takes_two = λ p q hp hq apart. rw (bytes_eq-other p q apart) refl;
  matches_first = λ p q hp hq apart. rw (bytes_eq_refl p) refl;
  matches_second =
      λ p q hp hq apart. rw (bytes_eq-other q p (λ e. apart (sym e)), bytes_eq_refl q) refl;
  misses = λ p q path hp hq h not_p not_q.
      rw (bytes_eq-other path p not_p, bytes_eq-other path q not_q) refl;
}

mux-AllHealthy_example :
    (mux exact two_probes ≡ some (route exact two_probes))
    × ((route exact two_probes (codes "/l")).code ≡ 200)
    × (((route exact two_probes (codes "/r")).code ≡ 200) ↔ AllHealthy wired)
    × (((route exact two_probes (codes "/r")).code ≡ 200)
        ⊎ ((route exact two_probes (codes "/r")).code ≡ 503))
    × ((route exact two_probes (codes "/x")).code ≡ 404)
mux-AllHealthy_example =
    mux-AllHealthy exact two_probes (codes "/x") exact-IsDocumented refl refl refl (ground arith)
      (ground arith) (ground arith)

-- One path for both is a panic.
one_path : mux exact (new_server [] (codes "/h") (codes "/h")) ≡ none
unfolding mux new_server bytes_eq
one_path = refl
