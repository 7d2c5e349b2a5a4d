-- ===== src/System/Closed/Pulled.antt =====
-- What pullBatch of internal/flusher/flusher.go takes from the ring and the WAL that it is alone with.
use mqtt2db_go.Prelude.{
  ℕ, zero, suc, ◌-◌, ◌≡◌, refl, sym, ap, ap₂, ◌∙◌, inl, inr, Bool, true, false, ◌&&◌, Bool-cases,
  List, ◌++◌, append-nil, Option, none, some, take, drop, length, take-append, drop-append,
  take-append-drop, append-left_cancel, length-take, ltb, arith,
}
use mqtt2db_go.Prelude.Int.{pos}
use mqtt2db_go.Message.{Message}
use mqtt2db_go.Buffer.{Ring, dequeue}
use mqtt2db_go.Buffer.Valid.{IsValid, contents}
use mqtt2db_go.Buffer.Queue.{poll}
use mqtt2db_go.Buffer.Poll.{dequeue_refines}
use mqtt2db_go.Flusher.{dequeued, drained, Env, Run, log}
use mqtt2db_go.Flusher.Adaptive.{batch_size_for_mode}
use mqtt2db_go.Flusher.Pull.{pull_batch, top_up}
use mqtt2db_go.Flusher.Accounting.{taken, top_up-pulled}
use mqtt2db_go.System.{Wired, SystemSubscriber, InOrder, SoundIn, wal_drain}
use mqtt2db_go.System.Held.{held, held_wal, wal_drain-split, wal_drain-Sound}
use mqtt2db_go.System.Closed.{called_all, closed, Drains}

dequeued-all :
    {r : Ring} (n : ℕ)
    → IsValid r
    → ((dequeue r (pos n)).1 ≡ take n (contents r))
      × (contents (dequeue r (pos n)).0 ≡ drop n (contents r))
unfolding poll
dequeued-all {r} n v =
    let same = (dequeue_refines (pos n) v).1 in (ap (λ x. x.1) (sym same), ap (λ x. x.0) (sym same))

-- What follows a part that was taken from the front.
rest_is : (n : ℕ) (l rest : List Message) → l ≡ take n l ++ rest → rest ≡ drop n l
rest_is n l rest h =
    append-left_cancel (take n l) rest (drop n l) (sym h ∙ sym (take-append-drop n l))

module _ (t : Wired) (drains : Drains t) where
  drained-all :
      (w : Option (t.stores.W)) (n : ℕ)
      → SoundIn t w
      → taken (drained n (wal_drain t w n).1) ≡ take n (held_wal t w)
  drained-all none zero sound = refl
  drained-all none (suc n) sound = refl
  drained-all (some w) n sound = ap (λ a. taken (drained n a)) (drains w n sound)

  left_in_wal :
      (w : Option (t.stores.W)) (n : ℕ)
      → SoundIn t w
      → held_wal t (wal_drain t w n).0 ≡ drop n (held_wal t w)
  left_in_wal w n sound = rest_is n (held_wal t w) _ (
      wal_drain-split t w n sound
      ∙ ap (λ l. l ++ held_wal t (wal_drain t w n).0) (drained-all w n sound))

-- Asking for what is missing of the first list.
missing : (n : ℕ) (xs : List Message) → n - length (take n xs) ≡ n - length xs
missing n xs = omega (arith, length-take n xs)

enough : (n : ℕ) (xs : List Message) → ltb (length (take n xs)) n ≡ false → n - length xs ≡ 0
enough n xs h = let short = length-take n xs in ground arith

top_up-f : (e : Env) (n : ℕ) (out : List Message) (r : Run) → (top_up e n out r).1.f ≡ r.f
unfolding top_up
top_up-f e n out r = ground arith

guard_off : (a b : Bool) → a ≡ true → (a && b) ≡ false → b ≡ false
guard_off a b h k = ground arith

module _ (t : Wired) (drains : Drains t) where
  -- A batch, and what is held then.
  unfoldable pub Pulled : Env → SystemSubscriber t → Run → List Message × Run → Type 0
  Pulled e s r (batch, r') =
      let before = called_all t r.trace s in
      let after = called_all t r'.trace s in
      (batch ≡ take (batch_size_for_mode r.f) (held t before))
      × (held t after ≡ drop (batch_size_for_mode r.f) (held t before))
      × InOrder t after
      × (r'.f ≡ r.f)

  all_taken :
      (n : ℕ) (xs ys : List Message) (want : ℕ)
      → want ≡ n - length xs
      → take n (xs ++ ys) ≡ take n xs ++ take want ys
  all_taken n xs ys want h = take-append n xs ys ∙ ap (λ k. take n xs ++ take k ys) (sym h)

  all_left :
      (n : ℕ) (xs ys : List Message) (want : ℕ)
      → want ≡ n - length xs
      → drop n (xs ++ ys) ≡ drop n xs ++ drop want ys
  all_left n xs ys want h = drop-append n xs ys ∙ ap (λ k. drop n xs ++ drop k ys) (sym h)

  top_up-Pulled :
      (e : Env) (s : SystemSubscriber t) (r : Run)
      → let n = batch_size_for_mode r.f in
        let out = (dequeue (called_all t r.trace s).ring (pos n)).1 in
        InOrder t (called_all t r.trace s)
        → Pulled e s r (top_up (closed t e s) n out (log (dequeued n out) r))
  unfolding Pulled
  top_up-Pulled e s r v =
      let n = batch_size_for_mode r.f in
      let s0 = called_all t r.trace s in
      let xs = contents s0.ring in
      let ys = held_wal t s0.wal in
      let out = (dequeue s0.ring (pos n)).1 in
      let want = n - length out in
      let (out_is, ring_left) = dequeued-all n v.0 in
      let room : want ≡ n - length xs = ap (λ l. n - length l) out_is ∙ missing n xs in
      let (logged, batch_is) = top_up-pulled (closed t e s) n out (log (dequeued n out) r) in
      let more = drained-all t drains s0.wal want v.1 in
      let rest = left_in_wal t drains s0.wal want v.1 in
      rw (logged) (
        sym batch_is ∙ ap₂ (λ a b. a ++ b) out_is more ∙ sym (all_taken n xs ys want room),
        ap₂ (λ a b. a ++ b) ring_left rest ∙ sym (all_left n xs ys want room),
        ((dequeue_refines (pos n) v.0).0, wal_drain-Sound t s0.wal want v.1),
        top_up-f (closed t e s) n out (log (dequeued n out) r),
      )

  pub pull_batch-Pulled :
      (e : Env) (s : SystemSubscriber t) (r : Run)
      → r.f.has_wal ≡ true
      → InOrder t (called_all t r.trace s)
      → Pulled e s r (pull_batch (closed t e s) r)
  unfolding pull_batch Pulled
  pull_batch-Pulled e s r wired v =
      let n = batch_size_for_mode r.f in
      let s0 = called_all t r.trace s in
      let xs = contents s0.ring in
      let ys = held_wal t s0.wal in
      let out = (dequeue s0.ring (pos n)).1 in
      let (out_is, ring_left) = dequeued-all n v.0 in
      let order = (dequeue_refines (pos n) v.0).0 in
      elim (Bool-cases (r.f.has_wal && ltb (length out) n)) [
        | inr full ↦
            let not_short : ltb (length out) n ≡ false = guard_off r.f.has_wal _ wired full in
            let none_missing = enough n xs (ap (λ l. ltb (length l) n) (sym out_is) ∙ not_short) in
            rw (full, pull_batch)
              (
                out_is
                    ∙ sym (append-nil (take n xs))
                    ∙ sym (all_taken n xs ys 0 (sym none_missing)),
                ap (λ l. l ++ ys) ring_left ∙ sym (all_left n xs ys 0 (sym none_missing)),
                (order, v.1),
                refl,
              )
        | inl short ↦ rw (short, pull_batch) (top_up-Pulled e s r v)
      ]
