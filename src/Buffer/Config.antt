-- ===== src/Buffer/Config.antt =====
-- New of internal/buffer/buffer.go: the checks of its Config, and the ring it makes.
use mqtt2db_go.Prelude.{
  ℕ, zero, suc, ◌+◌, ◌%◌, ◌^◌, get_or, ◌≤◌, ◌<◌, ◌≡◌, Bool, true, false, ◌||◌, Option, none, some,
  [], arith, replicate, length-replicate, if◌then◌else◌, refl,
}
use mqtt2db_go.Prelude.Int.{ℤ, pos, leb_ℤ, pos_part}
use mqtt2db_go.Prelude.Results.{Result, ok, err}
use mqtt2db_go.Message.{zero_message}
use mqtt2db_go.Buffer.{Ring, Metrics}
use mqtt2db_go.Buffer.Valid.{IsValid, contents, Zeroed}
use mqtt2db_go.Buffer.Window.{window}

-- float64, which Go's compiler implements: comparison, and `int(float64(n) * x)` for a count `n`.
-- A comparison with a NaN is false, also with itself. The laws are those of IEEE 754 rounding: a product
-- with a larger factor is not smaller, and a count up to 2 ^ 53 is converted exactly.
pub record Float64 : Type 1 where
  pub F : Type 0
  pub zero : F
  pub one : F
  pub le : F → F → Bool
  pub scale : ℕ → F → ℕ
  pub le_total : (a b : F) → le a a ≡ true → le b b ≡ true → le a b ≡ false → le b a ≡ true
  pub scale_mono : (n : ℕ) (a b : F) → le a b ≡ true → scale n a ≤ scale n b
  pub scale_one : (n : ℕ) (a : F) → n ≤ 2 ^ 53 → le a one ≡ true → scale n a ≤ n

pub data NewError : Type 0 where
  bad_max_messages bad_max_bytes bad_spill bad_pause spill_above_pause no_metrics : NewError

module _ (float : Float64) where
  open float use {F, le, scale}

  pub record Config : Type 0 where
    pub max_messages : ℤ
    pub max_bytes : ℤ
    pub spill_threshold : F
    pub pause_threshold : F

  -- The tests on one threshold, `x <= 0 || x >= 1`.
  abbrev pub out_of_range : F → Bool
  out_of_range x = le x float.zero || le float.one x

  abbrev pub fresh : Config → Metrics → Ring
  fresh cfg m =
      let n = pos_part cfg.max_messages in
      let b = pos_part cfg.max_bytes in
      record {
        max_messages = n;
        max_bytes = b;
        head = 0;
        size = 0;
        bytes = 0;
        slots = replicate n zero_message;
        spill_count = scale n cfg.spill_threshold;
        pause_count = scale n cfg.pause_threshold;
        spill_bytes = scale b cfg.spill_threshold;
        pause_bytes = scale b cfg.pause_threshold;
        m = record m { capacity = n };
      }

  unfoldable pub new : Config → Option Metrics → Result NewError Ring
  new cfg m =
      if leb_ℤ cfg.max_messages (pos 0)
      then err bad_max_messages
      else if leb_ℤ cfg.max_bytes (pos 0)
      then err bad_max_bytes
      else if out_of_range cfg.spill_threshold
      then err bad_spill
      else if out_of_range cfg.pause_threshold
      then err bad_pause
      else if le cfg.pause_threshold cfg.spill_threshold
      then err spill_above_pause
      else elim m [ none ↦ err no_metrics | some gauges ↦ ok (fresh cfg gauges) ]

get_or-replicate : (n i : ℕ) → get_or (replicate n zero_message) i zero_message ≡ zero_message
get_or-replicate zero i = refl
get_or-replicate (suc n) zero = refl
get_or-replicate (suc n) (suc i) = get_or-replicate n i

replicate-Zeroed : (n k h : ℕ) → Zeroed (window (replicate n zero_message) n h k)
replicate-Zeroed n zero h = tt
replicate-Zeroed n (suc k) h = (get_or-replicate n (h % n), replicate-Zeroed n k (h + 1))

-- The thresholds in order: spill at most pause at most the capacity.
pub record Ordered (r : Ring) : Type 0 where
  pub spill_count_le : r.spill_count ≤ r.pause_count
  pub pause_count_le : r.pause_count ≤ r.max_messages
  pub spill_bytes_le : r.spill_bytes ≤ r.pause_bytes
  pub pause_bytes_le : r.pause_bytes ≤ r.max_bytes

module _ (float : Float64) (cfg : Config float) (gauges : Metrics) where
  open float use {le}
  open cfg use {max_messages, max_bytes, spill_threshold, pause_threshold}

  -- What the checks of New establish of an accepted configuration.
  pub checked :
      {r : Ring}
      → new float cfg (some gauges) ≡ ok r
      → (r ≡ fresh float cfg gauges)
        × (0 < pos_part max_messages)
        × (le float.one pause_threshold ≡ false)
        × (le pause_threshold spill_threshold ≡ false)
  unfolding new
  checked e = ground arith

  pub fresh-IsValid :
      0 < pos_part max_messages
      → pos_part max_messages ≤ 2 ^ 62
      → pos_part max_bytes < 2 ^ 63
      → IsValid (fresh float cfg gauges)
  fresh-IsValid p small int64 = record {
    storage = length-replicate (pos_part max_messages) zero_message;
    small = small;
    head_in = p;
    size_in = omega arith;
    int64 = int64;
    counted = refl;
    within = omega arith;
    zeroed = replicate-Zeroed (pos_part max_messages) _ _;
  }

-- A ring that New makes is valid and empty, and its thresholds are in order: spill at most pause at most capacity,
-- in messages and in bytes. The configured sizes are an int64 that float64 holds exactly, and the thresholds are not NaN.
pub new_lem :
    (float : Float64) (cfg : Config float) (gauges : Metrics) {r : Ring}
    → pos_part cfg.max_messages ≤ 2 ^ 53
    → pos_part cfg.max_bytes ≤ 2 ^ 53
    → float.le float.one float.one ≡ true
    → float.le cfg.spill_threshold cfg.spill_threshold ≡ true
    → float.le cfg.pause_threshold cfg.pause_threshold ≡ true
    → new float cfg (some gauges) ≡ ok r
    → IsValid r × (contents r ≡ []) × Ordered r
new_lem float cfg gauges {r} m b u s p e =
    let c = checked float cfg gauges e in
    let below : float.le cfg.pause_threshold float.one ≡ true =
      float.le_total float.one cfg.pause_threshold u p c.2 in
    let in_order : float.le cfg.spill_threshold cfg.pause_threshold ≡ true =
      float.le_total cfg.pause_threshold cfg.spill_threshold p s c.3 in
    rw c.0 (
      fresh-IsValid float cfg gauges c.1 (omega arith) (omega arith),
      refl,
      record {
        spill_count_le = float.scale_mono (pos_part cfg.max_messages) _ _ in_order;
        pause_count_le = float.scale_one (pos_part cfg.max_messages) _ m below;
        spill_bytes_le = float.scale_mono (pos_part cfg.max_bytes) _ _ in_order;
        pause_bytes_le = float.scale_one (pos_part cfg.max_bytes) _ b below;
      },
    )

-- The checks let a NaN through: every comparison of New with it is false. Whatever the other threshold in (0, 1),
-- a ring is made with a spill threshold that is not a number.
pub new-nan :
    (float : Float64) (cfg : Config float) (gauges : Metrics)
    → 0 < pos_part cfg.max_messages
    → 0 < pos_part cfg.max_bytes
    → ((x : float.F) → float.le cfg.spill_threshold x ≡ false)
    → ((x : float.F) → float.le x cfg.spill_threshold ≡ false)
    → out_of_range float cfg.pause_threshold ≡ false
    → new float cfg (some gauges) ≡ ok (fresh float cfg gauges)
unfolding new
new-nan float cfg gauges m b below above inside =
    ground (
      arith,
      below float.zero,
      above float.one,
      above cfg.pause_threshold,
      below cfg.pause_threshold,
    )
