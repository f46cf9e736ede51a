-- ===== src/Vsphere/Checkpoint.antt =====
-- pkg/vsphere/checkpoint.go: the checkpoint, its configuration and the JSON form of that.
-- A duration is its number of nanoseconds. How durations are written as text and how the JSON
-- object is written as bytes is the parameter `Formats`.
pub mod Config
pub mod Tests
use sources_for_knative.Base.{
  ℕ, ◌*◌, ◌^◌, String, ℤ, pos, ltb_ℤ, ◌≤ℤ◌, ◌≡◌, Option, none, some, Bool, ◌==◌, int_eq, string_eq,
  ◌≢◌, if◌then◌else◌,
}

abbrev pub second : ℕ
second = 1_000_000_000

abbrev pub checkpoint_default_age : ℤ
checkpoint_default_age = pos (300 * second)

abbrev pub checkpoint_default_period : ℤ
checkpoint_default_period = pos (10 * second)

-- An instant is its number of nanoseconds since Go's zero time, so `IsZero` is a test against 0.
pub record Checkpoint : Type 0 where
  pub vcenter : String
  pub last_event_key : ℤ
  pub last_event_type : String
  pub last_event_key_timestamp : ℤ
  pub created_timestamp : ℤ

pub record CheckpointConfig : Type 0 where
  pub max_age : ℤ
  pub period : ℤ

-- The struct with two texts that stands between the configuration and JSON.
pub record Intervals : Type 0 where
  pub max_age : String
  pub period : String

pub record Formats : Type 1 where
  -- The bytes of a JSON document
  pub Bytes : Type 0
  -- `time.ParseDuration` and `Duration.String`
  pub parse_duration : String → Option ℤ
  pub print_duration : ℤ → String
  -- `json.Unmarshal` and `json.Marshal` at the struct above
  pub decode : Bytes → Option Intervals
  pub encode : Intervals → Bytes

-- What the Go documentation says of these functions.
pub record IsFaithful (f : Formats) : Type 0 where
  pub parse-print : (d : ℤ) → f.parse_duration (f.print_duration d) ≡ some d
  pub print_not_empty : (d : ℤ) → f.print_duration d ≢ ""
  pub decode-encode : (i : Intervals) → f.decode (f.encode i) ≡ some i

pub data Error : Type 0 where
  invalid_interval bad_json bad_duration : Error

pub data Result {ℓ} (A : Type ℓ) : Type ℓ where
  ok : A → Result A
  err : Error → Result A

module _ (f : Formats) where
  -- `MarshalJSON`
  pub marshal_json : CheckpointConfig → Result f.Bytes
  marshal_json c =
      if ltb_ℤ c.max_age (pos 0)
      then err invalid_interval
      else if ltb_ℤ c.period (pos 0)
      then err invalid_interval
      else ok (
          f.encode
            (record { max_age = f.print_duration c.max_age; period = f.print_duration c.period }))

  parsed : Option ℤ → Result ℤ
  parsed none = err bad_duration
  parsed (some v) = if ltb_ℤ v (pos 0) then err invalid_interval else ok v

  -- The value of one of the two fields.
  read_interval : ℤ → String → Result ℤ
  unfolding parsed
  read_interval default text = if text == "" then ok default else parsed (f.parse_duration text)

  set_period : Result ℤ → CheckpointConfig → Option Error × CheckpointConfig
  set_period (err e) c = (some e, c)
  set_period (ok v) c = (none, record c { period = v })

  set_max_age : Result ℤ → String → CheckpointConfig → Option Error × CheckpointConfig
  unfolding set_period
  set_max_age (err e) period c = (some e, c)
  set_max_age (ok v) period c =
      set_period (read_interval checkpoint_default_period period) (record c { max_age = v })

  set_intervals : Option Intervals → CheckpointConfig → Option Error × CheckpointConfig
  unfolding set_max_age
  set_intervals none c = (some bad_json, c)
  set_intervals (some i) c = set_max_age (read_interval checkpoint_default_age i.max_age) i.period c

  -- `UnmarshalJSON` writes into the configuration that it is called on.
  pub unmarshal_json : f.Bytes → CheckpointConfig → Option Error × CheckpointConfig
  unfolding set_intervals
  unmarshal_json bytes c = set_intervals (f.decode bytes) c

  finish_config : Option Error × CheckpointConfig → Result CheckpointConfig
  finish_config (some e, c) = err e
  finish_config (none, c) =
      ok (if c.period == pos 0 then record c { period = checkpoint_default_period } else c)

  pub new_checkpoint_config : f.Bytes → Result CheckpointConfig
  unfolding finish_config
  new_checkpoint_config config =
      finish_config (unmarshal_json config (record { max_age = pos 0; period = pos 0 }))
