-- ===== src/Helm/Time.antt =====
-- pkg/helm/time.go: the wrapper around the standard library's time.
pub mod RoundTrip
use cluster_api_provider_vcl.Base.{ℕ, String, Bool, true, ◌==◌, Option}
use cluster_api_provider_vcl.Base.Tests.{if◌then◌else◌}
use cluster_api_provider_vcl.Runtime.{Error, Result, ok, Exec}

-- The standard library's times, with its durations and locations, over Go's integers `I`. A failed
-- parse has a value too. A call that a pointer receives may change the time.
pub record StdTime (T D L I : Type 0) : Type 0 where
  pub is_zero : T → Bool
  pub marshal_json : T → Result String
  pub unmarshal_json : String → Exec T (Unit {0})
  pub parse : (layout value : String) → T × Option Error
  pub parse_in_location : (layout value : String) → L → T × Option Error
  pub date : (year month day hour min sec nsec : I) → L → T
  pub unix : (sec nsec : I) → T
  pub add : T → D → T
  pub add_date : T → (years months days : I) → T
  pub after : T → T → Bool
  pub before : T → T → Bool
  pub equal : T → T → Bool
  pub in_location : T → L → T
  pub local : T → T
  pub round : T → D → T
  pub sub : T → T → D
  pub truncate : T → D → T
  pub utc : T → T

pub record Time (T : Type 0) : Type 0 where
  pub time : T

unfoldable pub now : {W T : Type 0} → (W → T × W) → W → Time T × W
now std_now w = let (t, w') = std_now w in (record { time = t }, w')

abbrev pub empty_string : String
empty_string = "\"\""

module _ {T D L I : Type 0} (std : StdTime T D L I) where
  unfoldable pub marshal_json : Time T → Result String
  marshal_json t = if std.is_zero t.time then ok empty_string else std.marshal_json t.time

  unfoldable pub unmarshal_json : String → Exec (Time T) (Unit {0})
  unmarshal_json b t =
      if b == "null"
      then (ok tt, t)
      else if empty_string == b
      then (ok tt, t)
      else let (r, u) = std.unmarshal_json b t.time in (r, record { time = u })

  abbrev wrap_time : T × Option Error → Time T × Option Error
  wrap_time (t, e) = (record { time = t }, e)

  unfoldable pub parse : (layout value : String) → Time T × Option Error
  parse layout value = wrap_time (std.parse layout value)

  unfoldable pub parse_in_location : (layout value : String) → L → Time T × Option Error
  parse_in_location layout value l = wrap_time (std.parse_in_location layout value l)

  unfoldable pub date : (year month day hour min sec nsec : I) → L → Time T
  date year month day hour min sec nsec l = record {
    time = std.date year month day hour min sec nsec l;
  }

  unfoldable pub unix : (sec nsec : I) → Time T
  unix sec nsec = record { time = std.unix sec nsec }

  unfoldable pub add_date : Time T → (years months days : I) → Time T
  add_date t years months days = record { time = std.add_date t.time years months days }

  unfoldable pub add : Time T → D → Time T
  add t d = record { time = std.add t.time d }

  unfoldable pub after : Time T → Time T → Bool
  after t u = std.after t.time u.time

  unfoldable pub before : Time T → Time T → Bool
  before t u = std.before t.time u.time

  unfoldable pub equal : Time T → Time T → Bool
  equal t u = std.equal t.time u.time

  unfoldable pub in_location : Time T → L → Time T
  in_location t l = record { time = std.in_location t.time l }

  unfoldable pub local : Time T → Time T
  local t = record { time = std.local t.time }

  unfoldable pub round : Time T → D → Time T
  round t d = record { time = std.round t.time d }

  unfoldable pub sub : Time T → Time T → D
  sub t u = std.sub t.time u.time

  unfoldable pub truncate : Time T → D → Time T
  truncate t d = record { time = std.truncate t.time d }

  unfoldable pub utc : Time T → Time T
  utc t = record { time = std.utc t.time }
