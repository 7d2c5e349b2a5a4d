-- ===== src/Topic/Tests.antt =====
-- ParseTopic on small topics.
use mqtt2db_go.Prelude.{
  ◌≤◌, ◌≡◌, refl, List, [], ◌∷◌, Option, none, some, Bytes, codes, bytes_eq, arith, length, ◌==◌,
  if◌then◌else◌,
}
use mqtt2db_go.Prelude.Results.{ok, err}
use mqtt2db_go.Topic.{
  ParsedTopic, parse_topic, max_topic_len, topic_err_structure, topic_err_tenant_invalid,
  topic_err_device_uuid, error_text,
}
use mqtt2db_go.Topic.Split.{join}
use mqtt2db_go.Topic.Parse.{IsTenant, parts_of, parse_topic_sound, parse_topic_complete}

-- A parser of identifiers that are two bytes.
abbrev two_bytes : Bytes → Option Bytes
two_bytes text = if length text == 2 then some text else none

abbrev acme : ParsedTopic
acme = record { tenant = codes "acme"; device = codes "ab" }

abbrev door : Bytes
door = codes "t/acme/d/ab/evt/door"

door_parses : parse_topic two_bytes door ≡ ok acme
unfolding parse_topic bytes_eq
door_parses = refl

bad_topics :
    (parse_topic two_bytes (codes "t/acme/d/ab")
      ≡ err (record { class = topic_err_structure; detail = [] }))
    × (parse_topic two_bytes (codes "t/a c/d/ab/evt")
        ≡ err (record { class = topic_err_tenant_invalid; detail = codes "a c" }))
    × (parse_topic two_bytes (codes "t/acme/d/abc/evt")
        ≡ err (record { class = topic_err_device_uuid; detail = codes "abc" }))
unfolding parse_topic bytes_eq
bad_topics = (refl, refl, refl)

error_texts :
    (error_text (record { class = topic_err_structure; detail = [] })
      ≡ codes "subscriber: bad topic: topic_structure")
    × (error_text (record { class = topic_err_tenant_invalid; detail = codes "a c" })
        ≡ codes "subscriber: bad topic: tenant_invalid: a c")
unfolding error_text
error_texts = (refl, refl)

parse_topic_sound_example :
    (text : Bytes) × (rest : List Bytes) × (door ≡ join (parts_of (codes "acme") text rest))
    × IsTenant (codes "acme")
    × (two_bytes text ≡ some (codes "ab"))
    × (length door ≤ max_topic_len)
parse_topic_sound_example = parse_topic_sound two_bytes door acme door_parses

acme-IsTenant : IsTenant (codes "acme")
acme-IsTenant = record { nonempty = omega arith; short = omega arith; slug = refl }

parse_topic_complete_example :
    parse_topic two_bytes (join (parts_of (codes "acme") (codes "ab") (codes "door" ∷ [])))
    ≡ ok acme
parse_topic_complete_example =
    parse_topic_complete two_bytes (codes "acme") (codes "ab") (codes "ab") (codes "door" ∷ [])
      acme-IsTenant (omega arith, ((omega arith), tt)) refl
      ((omega arith, ((omega arith), (omega arith, ((omega arith), tt)))), tt) (omega arith)
