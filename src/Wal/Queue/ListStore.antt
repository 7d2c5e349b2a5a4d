-- ===== src/Wal/Queue/ListStore.antt =====
-- A store that keeps the promises of Badger, as a list of items, with a gob that writes the lengths of the fields first.
use mqtt2db_go.Prelude.{
  ◌≡◌, refl, sym, ap, ◌∙◌, true, false, List, [], ◌∷◌, ◌++◌, Option, none, some, Bytes, length,
  take, drop, take-length-append, drop-length-append,
}
use mqtt2db_go.Wal.{Badger, Item, WalRecord}
use mqtt2db_go.Wal.Queue.{IsLawful, without}

abbrev pub encode : WalRecord → Bytes
encode r =
    length r.tenant_id
    ∷ length r.device_uuid
    ∷ length r.topic
    ∷ length r.payload
    ∷ r.received_at
    ∷ (r.tenant_id ++ (r.device_uuid ++ (r.topic ++ (r.payload ++ r.dedup_key))))

abbrev pub decode : Bytes → Option WalRecord
decode (a ∷ b ∷ c ∷ d ∷ at ∷ rest) = some (record {
  tenant_id = take a rest;
  device_uuid = take b (drop a rest);
  topic = take c (drop b (drop a rest));
  payload = take d (drop c (drop b (drop a rest)));
  received_at = at;
  dedup_key = drop d (drop c (drop b (drop a rest)));
})
decode _ = none

decode-encode : (r : WalRecord) → decode (encode r) ≡ some r
decode-encode r =
    let t4 = r.payload ++ r.dedup_key in
    let t3 = r.topic ++ t4 in
    let t2 = r.device_uuid ++ t3 in
    rw
      (
        take-length-append r.tenant_id t2,
        drop-length-append r.tenant_id t2,
        take-length-append r.device_uuid t3,
        drop-length-append r.device_uuid t3,
        take-length-append r.topic t4,
        drop-length-append r.topic t4,
        take-length-append r.payload r.dedup_key,
        drop-length-append r.payload r.dedup_key,
      )
      refl

abbrev pub lawful : Badger
lawful = record {
  D = List Item;
  scan = λ d. d;
  set = λ d key value ttl.
      (d ++ record { key = key; value = some value; expired = false } ∷ [], true);
  delete = λ d keys. (without keys d, true);
  gob_encode = λ r. some (encode r);
  gob_decode = decode;
}

pub lawful-IsLawful : IsLawful lawful
lawful-IsLawful = record {
  gob = λ r bytes wrote. let same : encode r ≡ bytes = cc in ap decode (sym same) ∙ decode-encode r;
  set_last = λ d key value ttl last done. refl;
  set_fails = λ d key value ttl undone. cc;
  delete_takes = λ d keys done. refl;
  delete_fails = λ d keys undone. cc;
}
