-- ===== src/Config/Durations.antt =====
-- internal/config/duration.go. time.ParseDuration and Duration.String are parameters.
use mqtt2db_go.Prelude.{Bool, not, Option, none, some, Bytes, if◌then◌else◌}
use mqtt2db_go.Prelude.Int.{ℤ, pos}
use mqtt2db_go.Prelude.Results.{Result, ok, err}
use mqtt2db_go.Config.{is_empty}

pub record Durations : Type 0 where
  pub parse : Bytes → Option ℤ
  pub print : ℤ → Bytes

pub data DurationError : Type 0 where
  no_scalar parse_duration : DurationError

abbrev pub parsed : Option ℤ → Result DurationError ℤ
parsed none = err parse_duration
parsed (some d) = ok d

-- The node: whether it is a scalar, and its value. The empty value is zero.
unfoldable pub unmarshal_yaml : Durations → Bool → Bytes → Result DurationError ℤ
unmarshal_yaml t is_scalar value =
    if not is_scalar
    then err no_scalar
    else if is_empty value
    then ok (pos 0)
    else parsed (t.parse value)

unfoldable pub marshal_yaml : Durations → ℤ → Bytes
marshal_yaml t d = t.print d
