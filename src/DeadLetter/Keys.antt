-- ===== src/DeadLetter/Keys.antt =====
-- The keys of internal/deadletter/deadletter.go over many Writes.
use mqtt2db_go.Prelude.{
  append-cancel, ℕ, suc, ◌+◌, ◌%◌, ◌^◌, ◌≤◌, ◌<◌, ◌≡◌, ◌≢◌, refl, sym, ap, subst, ◌∙◌, List, [],
  ◌∷◌, ◌++◌, append_assoc, Bytes, codes, length, arith, All, All-append,
}
use mqtt2db_go.Prelude.Decimal.{decimal, decimal_ℤ, decimal-All, decimal-injective}
use mqtt2db_go.Message.{Message, Time}
use mqtt2db_go.Subscriber.{unix_nano}
use mqtt2db_go.DeadLetter.{Libraries, Sink, PutObject, tenant_of, device_of, key_of}
use mqtt2db_go.DeadLetter.Writes.{
  Job, write_job, write_all, unwritable, taken, refused, write-Outcome, object_of,
}

abbrev dash : ℕ
dash = b'-'

abbrev NoDash : Bytes → Type 0
NoDash cs = All (λ c. c ≢ dash) cs

-- A text ends in a dash and a tail.
abbrev Ends : Bytes → Bytes → Type 0
Ends tail s = (front : Bytes) × (s ≡ front ++ dash ∷ tail)

Ends-append : (tail xs ys : Bytes) → Ends tail ys → Ends tail (xs ++ ys)
Ends-append tail xs ys (front, h) =
    (xs ++ front, ap (λ z. xs ++ z) h ∙ sym (append_assoc xs front (dash ∷ tail)))

NoDash-inside : (xs ys : Bytes) → NoDash (xs ++ dash ∷ ys) → ⊥
NoDash-inside [] ys h = h.0 refl
NoDash-inside (x ∷ xs) ys h = NoDash-inside xs ys h.1

-- Behind its last dash a text has one tail.
last_dash :
    (xs ys us vs : Bytes) → NoDash us → NoDash vs → xs ++ dash ∷ us ≡ ys ++ dash ∷ vs → us ≡ vs
last_dash [] [] us vs hu hv e = cc
last_dash [] (y ∷ ys) us vs hu hv e =
    let same : us ≡ ys ++ dash ∷ vs = cc in absurd (NoDash-inside ys vs (subst NoDash same hu))
last_dash (x ∷ xs) [] us vs hu hv e =
    let same : vs ≡ xs ++ dash ∷ us = cc in absurd (NoDash-inside xs us (subst NoDash same hv))
last_dash (x ∷ xs) (y ∷ ys) us vs hu hv e =
    let rest : xs ++ dash ∷ us ≡ ys ++ dash ∷ vs = cc in last_dash xs ys us vs hu hv rest

digits-NoDash : (cs : Bytes) → All (λ c. b'0' ≤ c) cs → NoDash cs
digits-NoDash [] h = tt
digits-NoDash (c ∷ cs) h = ((λ e. omega (arith, e, h.0)), digits-NoDash cs h.1)

tail-NoDash : (seq : ℕ) → NoDash (decimal seq ++ codes ".json")
tail-NoDash seq =
    All-append _ (decimal seq) (codes ".json") (digits-NoDash (decimal seq) (decimal-All seq)) (
      (λ e. omega (arith, e)),
      (
        (λ e. omega (arith, e)),
        ((λ e. omega (arith, e)), ((λ e. omega (arith, e)), ((λ e. omega (arith, e)), tt))),
      ),
    )

module _ (l : Libraries) where
  key_of-Ends :
      (msg : Message) (now : Time) (seq : ℕ)
      → Ends (decimal seq ++ codes ".json") (key_of l msg now seq)
  key_of-Ends msg now seq =
      let tail = decimal seq ++ codes ".json" in
      let behind = Ends-append tail in
      behind (codes "dead-letter/") _ (
        behind (l.date now) _ (
          behind (codes "/") _ (
            behind (tenant_of l msg) _ (
              behind (codes "/") _ (
                behind (device_of l msg) _ (
                  behind (codes "/") _
                    (behind (decimal_ℤ (unix_nano msg.received_at)) _ ([], refl))))))))

  key_of-seq :
      (msg msg' : Message) (now now' : Time) (a b : ℕ)
      → key_of l msg now a ≡ key_of l msg' now' b
      → a ≡ b
  key_of-seq msg msg' now now' a b h =
      let (front, e) = key_of-Ends msg now a in
      let (front', e') = key_of-Ends msg' now' b in
      let tails = last_dash front front' _ _ (tail-NoDash a) (tail-NoDash b) (sym e ∙ h ∙ e') in
      decimal-injective a b (append-cancel (decimal a) (decimal b) (codes ".json") tails)

  -- The keys of objects that were put after number `n`.
  abbrev Later : ℕ → List PutObject → Type 0
  Later n puts =
      All
        (λ (o : PutObject).
          (msg : Message) × (now : Time) × (seq : ℕ) × (n < seq) × (o.key ≡ key_of l msg now seq))
        puts

  abbrev pub Distinct : List PutObject → Type 0
  Distinct [] = Unit
  Distinct (o ∷ puts) = All (λ (o' : PutObject). o.key ≢ o'.key) puts × Distinct puts

  Later-trans : (n k : ℕ) (puts : List PutObject) → n ≤ k → Later k puts → Later n puts
  Later-trans n k [] le h = tt
  Later-trans n k (o ∷ puts) le h =
      let (msg, now, seq, after, same) = h.0 in
      ((msg, now, seq, omega (arith, after), same), Later-trans n k puts le h.1)

  -- A key that was given out is none of the later ones.
  fresh_key :
      (msg : Message) (now : Time) (seq : ℕ) (o : PutObject) (puts : List PutObject)
      → o.key ≡ key_of l msg now seq
      → Later seq puts
      → All (λ (o' : PutObject). o.key ≢ o'.key) puts
  fresh_key msg now seq o [] same h = tt
  fresh_key msg now seq o (o' ∷ puts) same h =
      let (msg', now', seq', after, same') = h.0 in
      (
        (λ e.
            let one = key_of-seq msg msg' now now' seq seq' (sym same ∙ e ∙ same') in
            omega (arith, one, after)),
        fresh_key msg now seq o puts same h.1,
      )

  next_seq : (n : ℕ) → n + 1 < 2 ^ 64 → (n + 1) % 2 ^ 64 ≡ n + 1
  next_seq n h = omega arith

  one_key :
      (s s' : Sink) (j : Job) (body : Bytes) (out later : List PutObject) (n : ℕ)
      → s.seq + suc n < 2 ^ 64
      → s'.seq ≡ (s.seq + 1) % 2 ^ 64
      → out ≡ object_of l s j body ∷ []
      → Distinct later × Later s'.seq later
      → Distinct (out ++ later) × Later s.seq (out ++ later)
  one_key s s' j body out later n room moved one (apart, after) =
      let step : s'.seq ≡ s.seq + 1 = moved ∙ next_seq s.seq (omega arith) in
      let o = object_of l s j body in
      let named : o.key ≡ key_of l j.msg j.now (s.seq + 1) =
        ap (key_of l j.msg j.now) (next_seq s.seq (omega arith)) in
      let later_than = subst (λ k. Later k later) step after in
      rw (one) (
        (fresh_key j.msg j.now (s.seq + 1) o later named later_than, apart),
        (
          (j.msg, j.now, s.seq + 1, omega arith, named),
          Later-trans s.seq (s.seq + 1) later (omega arith) later_than,
        ),
      )

  seq_bound :
      (s : Sink) (j : Job) (n : ℕ) → s.seq + suc n < 2 ^ 64 → (write_job l s j).0.seq + n < 2 ^ 64
  seq_bound s j n room = elim (write-Outcome l s j) [
    | unwritable a b c d e same ↦ omega (arith, same)
    | taken a b c d e f g moved ↦ omega (arith, moved)
    | refused a b c d e f g moved ↦ omega (arith, moved)
  ]

  write_all-keys :
      (jobs : List Job) (s : Sink)
      → s.seq + length jobs < 2 ^ 64
      → Distinct (write_all l s jobs).1 × Later s.seq (write_all l s jobs).1
  write_all-keys [] s room = (tt, tt)
  write_all-keys (j ∷ jobs) s room =
      let out = write_job l s j in
      let later = write_all-keys jobs out.0 (seq_bound s j (length jobs) room) in
      elim (write-Outcome l s j) [
        | unwritable a b nothing d e same ↦
            rw (nothing) (later.0, subst (λ k. Later k (write_all l out.0 jobs).1) same later.1)
        | taken body b c d one f g moved ↦
            one_key s out.0 j body out.2 _ (length jobs) room moved one later
        | refused body b c d one f g moved ↦
            one_key s out.0 j body out.2 _ (length jobs) room moved one later
      ]

  -- While the sequence number of the sink does not wrap around, the objects that any number of Writes put have
  -- different keys, whatever the messages and the clock: none overwrites another.
  pub write_all-Distinct :
      (s : Sink) (jobs : List Job) → s.seq + length jobs < 2 ^ 64 → Distinct (write_all l s jobs).1
  write_all-Distinct s jobs room = (write_all-keys jobs s room).0
