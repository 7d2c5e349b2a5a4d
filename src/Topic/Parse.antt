-- ===== src/Topic/Parse.antt =====
-- ParseTopic of internal/subscriber/topic.go accepts exactly the topics t/{tenant}/d/{device}/evt/...
use mqtt2db_go.Prelude.{
  ◌≤◌, ◌<◌, ◌≡◌, refl, sym, ap, ◌∙◌, Bool, true, false, ◌&&◌, inl, inr, List, [], ◌∷◌, Bytes, codes,
  bytes_eq, bytes_eq_sound, arith, length, ltb, ◌==◌, Bool-cases, All, subst, Option, some, not,
  ◌||◌,
}
use mqtt2db_go.Prelude.Results.{ok}
use mqtt2db_go.Topic.{
  ParsedTopic, max_topic_len, max_tenant_len, split, all_tenant, tenant_re, parse_device,
  parse_tenant, parse_parts, parse_topic,
}
use mqtt2db_go.Topic.Split.{join, NoSlash, join-split, split-join}

-- A tenant: 1 to 64 letters, digits, dashes and underscores.
pub record IsTenant (tenant : Bytes) : Type 0 where
  pub nonempty : 0 < length tenant
  pub short : length tenant ≤ max_tenant_len
  pub slug : all_tenant tenant ≡ true

-- The parts of a topic of the pattern.
abbrev pub parts_of : Bytes → Bytes → List Bytes → List Bytes
parts_of tenant text rest = codes "t" ∷ tenant ∷ codes "d" ∷ text ∷ codes "evt" ∷ rest

tenant_test : Bytes → Bool
tenant_test tenant =
    length tenant == 0 || (ltb max_tenant_len (length tenant) || not (tenant_re tenant))

tenant_re-all : (tenant : Bytes) → 0 < length tenant → tenant_re tenant ≡ all_tenant tenant
tenant_re-all [] h = absurd (omega arith)
tenant_re-all (c ∷ cs) h = refl

tenant_test-false : (tenant : Bytes) → tenant_test tenant ≡ false → IsTenant tenant
unfolding tenant_test
tenant_test-false [] h = cc
tenant_test-false (c ∷ cs) h = ground arith

IsTenant-test : (tenant : Bytes) → IsTenant tenant → tenant_test tenant ≡ false
unfolding tenant_test
IsTenant-test [] v = absurd (omega (arith, v.nonempty))
IsTenant-test (c ∷ cs) v = ground arith

all_tenant-NoSlash : (tenant : Bytes) → all_tenant tenant ≡ true → NoSlash tenant
all_tenant-NoSlash [] h = tt
all_tenant-NoSlash (c ∷ cs) h = (λ e. ground arith, all_tenant-NoSlash cs (ground arith))

module _ (parse_uuid : Bytes → Option Bytes) where
  -- What a list of parts that parses is made of.
  record Parsed (parts : List Bytes) (p : ParsedTopic) : Type 0 where
    text : Bytes
    rest : List Bytes
    shape : parts ≡ parts_of p.tenant text rest
    tenant : IsTenant p.tenant
    device : parse_uuid text ≡ some p.device

  parse_device_lem :
      (tenant text : Bytes) (p : ParsedTopic)
      → parse_device parse_uuid tenant text ≡ ok p
      → (p.tenant ≡ tenant) × (parse_uuid text ≡ some p.device)
  parse_device_lem tenant text p h = ground arith

  parse_tenant_lem :
      (tenant text : Bytes) (p : ParsedTopic)
      → parse_tenant parse_uuid tenant text ≡ ok p
      → (p.tenant ≡ tenant) × IsTenant tenant × (parse_uuid text ≡ some p.device)
  unfolding tenant_test
  parse_tenant_lem tenant text p h = elim (Bool-cases (tenant_test tenant)) [
    | inl bad ↦ let no_way = rw bad at h in cc
    | inr good ↦
        let done = parse_device_lem tenant text p (rw good at h) in
        (done.0, tenant_test-false tenant good, done.1)
  ]

  parse_parts_lem :
      (parts : List Bytes) (p : ParsedTopic) → parse_parts parse_uuid parts ≡ ok p → Parsed parts p
  parse_parts_lem [] p h = cc
  parse_parts_lem (a ∷ []) p h = cc
  parse_parts_lem (a ∷ b ∷ []) p h = cc
  parse_parts_lem (a ∷ b ∷ c ∷ []) p h = cc
  parse_parts_lem (a ∷ b ∷ c ∷ d ∷ []) p h = cc
  parse_parts_lem (a ∷ b ∷ c ∷ d ∷ e ∷ rest) p h =
      elim (Bool-cases
        (bytes_eq a (codes "t") && (bytes_eq c (codes "d") && bytes_eq e (codes "evt")))) [
          | inr other_shape ↦ let no_way = rw other_shape at h in cc
          | inl pattern_fits ↦
              let inner = parse_tenant_lem b d p (rw pattern_fits at h) in
              let ea : bytes_eq a (codes "t") ≡ true = ground arith in
              let ec : bytes_eq c (codes "d") ≡ true = ground arith in
              let ee : bytes_eq e (codes "evt") ≡ true = ground arith in
              let a' = bytes_eq_sound a (codes "t") ea in
              let c' = bytes_eq_sound c (codes "d") ec in
              let e' = bytes_eq_sound e (codes "evt") ee in
              record {
                text = d;
                rest = rest;
                shape = λ i. a' i ∷ sym inner.0 i ∷ c' i ∷ d ∷ e' i ∷ rest;
                tenant = subst IsTenant (sym inner.0) inner.1;
                device = inner.2;
              }
        ]

  -- A topic that parses is t/{tenant}/d/{text}/evt, perhaps with more behind a slash; its tenant is
  -- a slug of at most 64 bytes, uuid.Parse reads the device in the text, and the topic is at most
  -- 1024 bytes long.
  pub parse_topic_sound :
      (topic : Bytes) (p : ParsedTopic)
      → parse_topic parse_uuid topic ≡ ok p
      → (text : Bytes) × (rest : List Bytes) × (topic ≡ join (parts_of p.tenant text rest))
        × IsTenant p.tenant
        × (parse_uuid text ≡ some p.device)
        × (length topic ≤ max_topic_len)
  unfolding parse_topic
  parse_topic_sound topic p h = elim (Bool-cases (ltb max_topic_len (length topic))) [
    | inl long ↦ let no_way = rw long at h in cc
    | inr fits ↦
        let done = parse_parts_lem (split topic) p (rw fits at h) in
        (
          done.text,
          done.rest,
          sym (join-split topic) ∙ ap join done.shape,
          done.tenant,
          done.device,
          ground arith,
        )
  ]

  -- Every topic of that pattern parses, to its tenant and the device that uuid.Parse reads.
  pub parse_topic_complete :
      (tenant text id : Bytes) (rest : List Bytes)
      → IsTenant tenant
      → NoSlash text
      → parse_uuid text ≡ some id
      → All NoSlash rest
      → length (join (parts_of tenant text rest)) ≤ max_topic_len
      → parse_topic parse_uuid (join (parts_of tenant text rest))
        ≡ ok (record { tenant = tenant; device = id })
  unfolding parse_topic tenant_test bytes_eq
  parse_topic_complete tenant text id rest v n u r l =
      let fits : ltb max_topic_len (length (join (parts_of tenant text rest))) ≡ false =
        ground arith in
      let parts = split-join (codes "t") (tenant ∷ codes "d" ∷ text ∷ codes "evt" ∷ rest) (
        (omega arith, tt),
        (
          all_tenant-NoSlash tenant v.slug,
          ((omega arith, tt), (n, ((omega arith, (omega arith, (omega arith, tt))), r))),
        ),
      ) in
      rw (fits, parts, IsTenant-test tenant v, u, parse_device)
