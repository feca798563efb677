-- ===== src/Base/Slashes.antt =====
-- `strings.Split`, `TrimSuffix`, `TrimPrefix` and `TrimRight` at slashes, and the slice `s[1:]`.
use Prim.Native.Char.{Char, code}
use Prim.Native.String.{String}
use text.Mathlib.Text.{◌==◌}
use mathlib.Core.Bool.{Bool, ◌&&◌}
use mathlib.Core.List.{List, [], ◌∷◌}
use cluster_api_provider_vcl.Base.Tests.{if◌then◌else◌, nat_eq}

abbrev is_slash : Char → Bool
is_slash c = nat_eq (code c) b'/'

abbrev add_first : Char → List String → List String
add_first c [] = []
add_first c (p ∷ ps) = String.◌∷◌ c p ∷ ps

unfoldable pub split_slashes : String → List String
split_slashes String.[] = "" ∷ []
split_slashes (String.◌∷◌ c s) =
    let rest = split_slashes s in if is_slash c then "" ∷ rest else add_first c rest

-- without one slash at the end
unfoldable pub trim_suffix : String → String
trim_suffix String.[] = ""
trim_suffix (String.◌∷◌ c String.[]) = if is_slash c then "" else String.◌∷◌ c String.[]
trim_suffix (String.◌∷◌ c (String.◌∷◌ d s)) = String.◌∷◌ c (trim_suffix (String.◌∷◌ d s))

-- without one slash at the start
unfoldable pub trim_prefix : String → String
trim_prefix String.[] = ""
trim_prefix (String.◌∷◌ c s) = if is_slash c then s else String.◌∷◌ c s

-- without any slash at the end
unfoldable pub trim_right : String → String
trim_right String.[] = ""
trim_right (String.◌∷◌ c s) =
    let rest = trim_right s in if is_slash c && (rest == "") then "" else String.◌∷◌ c rest

unfoldable pub drop_first : String → String
drop_first String.[] = ""
drop_first (String.◌∷◌ c s) = s
