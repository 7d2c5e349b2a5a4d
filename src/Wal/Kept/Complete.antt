-- ===== src/Wal/Kept/Complete.antt =====
-- Drain of internal/wal/wal.go when Badger commits every deletion.
use mqtt2db_go.Prelude.{
  ℕ, zero, suc, ◌≡◌, refl, sym, ap, ◌∙◌, true, List, [], ◌∷◌, some, Bytes, take, arith,
  if◌then◌else◌, none,
}
use mqtt2db_go.Prelude.Int.{pos}
use mqtt2db_go.Message.{Message}
use mqtt2db_go.Wal.{Badger, Store, drain}
use mqtt2db_go.Wal.Drain.{live, Holds, keys_of, drain_lem}
use mqtt2db_go.Wal.Queue.Removal.{drain-idle}
use mqtt2db_go.Wal.Kept.{Clock, Clocked, drain_now, items_of, in_store, IsSound, Holds-decoded}

module _ (b : Badger) (commits : (d : b.D) (keys : List Bytes) → (b.delete d keys).1 ≡ true) where
  drain-all :
      (s : Store b) (k : ℕ) (ms : List Message)
      → Holds b (live (b.scan s.db)) ms
      → (drain b s (pos k)).1 ≡ some (take k ms)
  unfolding drain
  drain-all s zero ms h = refl
  drain-all s (suc k) [] h = ap (λ x. x.1) (drain-idle b s k h)
  drain-all s (suc k) (m ∷ ms) h =
      let keys = take (suc k) (keys_of b (live (b.scan s.db))) in
      (drain_lem b s (suc k) m ms (omega arith) h).1
      ∙ ap (λ c. if c then some (take (suc k) (m ∷ ms)) else none) (commits s.db keys)

  -- A Drain of a store in order is no error, and returns as many messages as asked for if there are so many.
  pub drain_now-all :
      (c : Clock) (w : Clocked b c) (n : ℕ)
      → IsSound b c w
      → (drain_now b c w n).1 ≡ some (take n (in_store b c w))
  drain_now-all c w n sound =
      let (msgs, held) = sound.held in
      let same = Holds-decoded b c (live (items_of b c w.store)) msgs held in
      drain-all w.store n msgs held ∙ ap (λ l. some (take n l)) (sym same)
