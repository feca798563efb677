-- ===== src/Tests/OfEncodings.antt =====
-- The theorem on the texts of times, on two times.
use Prim.Native.String.{String}
use cluster_api_provider_vcl.Base.{
  ℕ, ◌≡◌, refl, ◌==◌, arith, Bool, false, true, not, ◌&&◌, ◌||◌, none, ◌⊎◌,
}
use cluster_api_provider_vcl.Base.Tests.{if◌then◌else◌}
use cluster_api_provider_vcl.Runtime.{ok}
use cluster_api_provider_vcl.Helm.Time.{StdTime, Time, marshal_json, unmarshal_json}
use cluster_api_provider_vcl.Helm.Time.RoundTrip.{IsMarshalling, unmarshal_json-marshal_json}

-- Two times, of which one is zero.
abbrev two_times : StdTime Bool ℕ ℕ ℕ
two_times = record {
  is_zero = λ t. not t;
  marshal_json = λ t. ok (if t then "\"2024\"" else "\"0001\"");
  unmarshal_json = λ b t. (ok tt, b == "\"2024\"");
  parse = λ layout value. (false, none);
  parse_in_location = λ layout value l. (false, none);
  date = λ year month day hour min sec nsec l. true;
  unix = λ sec nsec. true;
  add = λ t d. t;
  add_date = λ t years months days. t;
  after = λ t u. t && not u;
  before = λ t u. not t && u;
  equal = λ t u. (t && u) || (not t && not u);
  in_location = λ t l. t;
  local = λ t. t;
  round = λ t d. t;
  sub = λ t u. 0;
  truncate = λ t d. t;
  utc = λ t. t;
}

two_times_reads :
    (t old : Bool) (b : String)
    → two_times.marshal_json t ≡ ok b
    → (u : Bool) × (two_times.unmarshal_json b old ≡ (ok tt, u)) × (two_times.equal u t ≡ true)
two_times_reads true old b h = let e : "\"2024\"" ≡ b = ground arith in (true, rw (← e) refl, refl)
two_times_reads false old b h =
    let e : "\"0001\"" ≡ b = ground arith in (false, rw (← e) refl, refl)

two_times-IsMarshalling : IsMarshalling two_times
two_times-IsMarshalling = record {
  not_null = not_null;
  not_empty = not_empty;
  reads = two_times_reads;
}
  where
    not_null : (t : Bool) (b : String) → two_times.marshal_json t ≡ ok b → (b == "null") ≡ false
    not_null true b h = let e : "\"2024\"" ≡ b = ground arith in rw (← e) refl
    not_null false b h = let e : "\"0001\"" ≡ b = ground arith in rw (← e) refl

    not_empty : (t : Bool) (b : String) → two_times.marshal_json t ≡ ok b → ("\"\"" == b) ≡ false
    not_empty true b h = let e : "\"2024\"" ≡ b = ground arith in rw (← e) refl
    not_empty false b h = let e : "\"0001\"" ≡ b = ground arith in rw (← e) refl

abbrev time : Bool → Time Bool
time t = record { time = t }

marshalled : marshal_json two_times (time true) ≡ ok "\"2024\""
unfolding marshal_json
marshalled = refl

unmarshal_json-marshal_json_example :
    ((two_times.is_zero true ≡ true)
      × (◌≡◌ {A = String} "\"2024\"" "\"\"")
      × (unmarshal_json two_times "\"2024\"" (time false) ≡ (ok tt, time false)))
    ⊎ ((two_times.is_zero true ≡ false)
        × ((u : Time Bool) × (unmarshal_json two_times "\"2024\"" (time false) ≡ (ok tt, u))
            × (two_times.equal u.time true ≡ true)))
unmarshal_json-marshal_json_example =
    unmarshal_json-marshal_json two_times two_times-IsMarshalling (time true) (time false)
      "\"2024\"" marshalled
