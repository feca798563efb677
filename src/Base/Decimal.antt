-- ===== src/Base/Decimal.antt =====
-- `%d` of a number that is not negative.
use Prim.Native.Nat.{ℕ, zero, suc, ◌/◌, ◌%◌}
use Prim.Native.String.{String, ◌++◌}
use cluster_api_provider_vcl.Base.Tests.{if◌then◌else◌, nat_eq}

digit : ℕ → String
digit d =
    if nat_eq d 0
    then "0"
    else if nat_eq d 1
    then "1"
    else if nat_eq d 2
    then "2"
    else if nat_eq d 3
    then "3"
    else if nat_eq d 4
    then "4"
    else if nat_eq d 5
    then "5"
    else if nat_eq d 6
    then "6"
    else if nat_eq d 7
    then "7"
    else if nat_eq d 8
    then "8"
    else "9"

digits : ℕ → ℕ → String
digits zero n = ""
digits (suc f) n =
    let more = digits f (n / 10) in if nat_eq (n / 10) 0 then digit n else more ++ digit (n % 10)

-- A number has at most as many digits as its value plus one.
unfoldable pub decimal : ℕ → String
unfolding digits digit
decimal n = digits (suc n) n
