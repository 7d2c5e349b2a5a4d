-- ===== src/Topic.antt =====
-- internal/subscriber/topic.go: ParseTopic. uuid.Parse is a parameter: it maps a text to the sixteen bytes, or
-- fails.
pub mod Split
pub mod Parse
mod Tests
use mqtt2db_go.Prelude.{
  ℕ, ◌≤◌, Bool, true, false, not, ◌&&◌, ◌||◌, List, [], ◌∷◌, ◌++◌, Option, none, some, Bytes, codes,
  bytes_eq, length, ltb, leb, ◌==◌, if◌then◌else◌,
}
use mqtt2db_go.Prelude.Decimal.{decimal}
use mqtt2db_go.Prelude.Results.{Result, ok, err}

abbrev pub topic_err_too_long : Bytes
topic_err_too_long = codes "topic_too_long"

abbrev pub topic_err_structure : Bytes
topic_err_structure = codes "topic_structure"

abbrev pub topic_err_tenant_invalid : Bytes
topic_err_tenant_invalid = codes "tenant_invalid"

abbrev pub topic_err_device_uuid : Bytes
topic_err_device_uuid = codes "device_uuid_invalid"

abbrev pub max_topic_len : ℕ
max_topic_len = 1024

abbrev pub max_tenant_len : ℕ
max_tenant_len = 64

pub record TopicParseError : Type 0 where
  pub class : Bytes
  pub detail : Bytes

pub record ParsedTopic : Type 0 where
  pub tenant : Bytes
  pub device : Bytes

-- TopicParseError.Error
unfoldable pub error_text : TopicParseError → Bytes
error_text e =
    if length e.detail == 0
    then codes "subscriber: bad topic: " ++ e.class
    else codes "subscriber: bad topic: " ++ (e.class ++ (codes ": " ++ e.detail))

abbrev pub slash : ℕ
slash = b'/'

abbrev pub cons_head : ℕ → List Bytes → List Bytes
cons_head c [] = (c ∷ []) ∷ []
cons_head c (p ∷ ps) = (c ∷ p) ∷ ps

-- strings.Split(topic, "/")
unfoldable pub split : Bytes → List Bytes
split [] = [] ∷ []
split (c ∷ s) = let rest = split s in if c == slash then [] ∷ rest else cons_head c rest

-- One character of `[a-zA-Z0-9_-]`.
abbrev pub tenant_char : ℕ → Bool
tenant_char c =
    (leb b'a' c && leb c b'z')
    || ((leb b'A' c && leb c b'Z') || ((leb b'0' c && leb c b'9') || (c == b'_' || c == b'-')))

abbrev pub all_tenant : Bytes → Bool
all_tenant [] = true
all_tenant (c ∷ cs) = tenant_char c && all_tenant cs

-- tenantRE: `^[a-zA-Z0-9_-]+$`
abbrev pub tenant_re : Bytes → Bool
tenant_re [] = false
tenant_re (c ∷ cs) = all_tenant (c ∷ cs)

module _ (parse_uuid : Bytes → Option Bytes) where
  abbrev pub parse_device : Bytes → Bytes → Result TopicParseError ParsedTopic
  parse_device tenant text = elim (parse_uuid text) [
    | none ↦ err (record { class = topic_err_device_uuid; detail = text })
    | some id ↦ ok (record { tenant = tenant; device = id })
  ]

  abbrev pub parse_tenant : Bytes → Bytes → Result TopicParseError ParsedTopic
  parse_tenant tenant text =
      if length tenant == 0 || (ltb max_tenant_len (length tenant) || not (tenant_re tenant))
      then err (record { class = topic_err_tenant_invalid; detail = tenant })
      else parse_device tenant text

  abbrev pub bad_structure : Result TopicParseError ParsedTopic
  bad_structure = err (record { class = topic_err_structure; detail = [] })

  -- The tests on `parts`: at least five, and three of them fixed.
  abbrev pub parse_parts : List Bytes → Result TopicParseError ParsedTopic
  parse_parts (p0 ∷ p1 ∷ p2 ∷ p3 ∷ p4 ∷ rest) =
      if bytes_eq p0 (codes "t") && (bytes_eq p2 (codes "d") && bytes_eq p4 (codes "evt"))
      then parse_tenant p1 p3
      else bad_structure
  parse_parts _ = bad_structure

  unfoldable pub parse_topic : Bytes → Result TopicParseError ParsedTopic
  unfolding split
  parse_topic topic =
      if ltb max_topic_len (length topic)
      then err
          (record { class = topic_err_too_long; detail = codes "len=" ++ decimal (length topic) })
      else parse_parts (split topic)
