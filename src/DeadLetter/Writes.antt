-- ===== src/DeadLetter/Writes.antt =====
-- Write of internal/deadletter/deadletter.go, on every branch, and a sequence of writes.
use mqtt2db_go.Prelude.{
  ℕ, ◌+◌, ◌%◌, ◌^◌, ◌≡◌, refl, inl, inr, true, false, Bool-cases, Option-cases, List, [], ◌∷◌, ◌++◌,
  Option, none, some, Bytes, codes,
}
use mqtt2db_go.Prelude.Results.{Result, ok, err}
use mqtt2db_go.Message.{Message, Time}
use mqtt2db_go.DeadLetter.{
  Libraries, Sink, PutObject, WriteError, marshal_envelope, put, envelope_of, make_key, upload,
  write, key_of,
}

-- A message to write, with the text of its last error, the clock, and how long the upload takes.
pub record Job : Type 0 where
  pub msg : Message
  pub last_err : Option Bytes
  pub now : Time
  pub took : ℕ

module _ (l : Libraries) where
  abbrev pub write_job : Sink → Job → Sink × Result WriteError (Unit {0}) × List PutObject
  write_job s j = write l s j.msg j.last_err j.now j.took

  -- The object of a message, by the sequence number.
  abbrev pub object_of : Sink → Job → Bytes → PutObject
  object_of s j body = record {
    bucket = s.cfg.bucket;
    key = key_of l j.msg j.now ((s.seq + 1) % 2 ^ 64);
    body = body;
    content_type = codes "application/json";
  }

  -- What a Write does: no body and no object, or one object that the bucket takes, or refuses.
  pub data Outcome (s : Sink) (j : Job) (out : Sink × Result WriteError (Unit {0}) × List PutObject)
      : Type 0 where
    unwritable :
        l.marshal (envelope_of l j.msg j.last_err j.now) ≡ none
        → out.1 ≡ err marshal_envelope
        → out.2 ≡ []
        → out.0.m.written ≡ s.m.written
        → out.0.m.errors ≡ s.m.errors + 1
        → out.0.seq ≡ s.seq
        → Outcome s j out
    taken :
        (body : Bytes)
        → l.marshal (envelope_of l j.msg j.last_err j.now) ≡ some body
        → l.put_object (object_of s j body) ≡ true
        → out.1 ≡ ok tt
        → out.2 ≡ object_of s j body ∷ []
        → out.0.m.written ≡ s.m.written + 1
        → out.0.m.errors ≡ s.m.errors
        → out.0.seq ≡ (s.seq + 1) % 2 ^ 64
        → Outcome s j out
    refused :
        (body : Bytes)
        → l.marshal (envelope_of l j.msg j.last_err j.now) ≡ some body
        → l.put_object (object_of s j body) ≡ false
        → out.1 ≡ err put
        → out.2 ≡ object_of s j body ∷ []
        → out.0.m.written ≡ s.m.written
        → out.0.m.errors ≡ s.m.errors + 1
        → out.0.seq ≡ (s.seq + 1) % 2 ^ 64
        → Outcome s j out

  -- Write reports success when the bucket took one object, whose key has the next sequence number, and only then. A
  -- message that has no JSON puts no object and uses up no number. Each Write adds one to one of the two counters:
  -- Written on success, Errors on failure.
  pub write-Outcome : (s : Sink) (j : Job) → Outcome s j (write_job s j)
  unfolding write upload make_key
  write-Outcome s j = elim (Option-cases (l.marshal (envelope_of l j.msg j.last_err j.now))) [
    | inl no_json ↦ rw (no_json, write) (unwritable no_json refl refl refl refl refl)
    | inr (body, json) ↦ elim (Bool-cases (l.put_object (object_of s j body))) [
      | inl yes_put ↦
          rw (json, yes_put, write, upload) (taken body json yes_put refl refl refl refl refl)
      | inr not_put ↦
          rw (json, not_put, write, upload) (refused body json not_put refl refl refl refl refl)
    ]
  ]

  -- A sequence of writes, and the objects they put, oldest first.
  abbrev pub write_all : Sink → List Job → Sink × List PutObject
  write_all s [] = (s, [])
  write_all s (j ∷ jobs) =
      let (s', result, puts) = write_job s j in
      let (s'', later) = write_all s' jobs in (s'', puts ++ later)
