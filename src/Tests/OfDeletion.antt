-- ===== src/Tests/OfDeletion.antt =====
-- The theorems on the releases that are picked and on what a deletion leaves.
use mathlib.Core.List.{Mem}
use cluster_api_provider_vcl.Base.{ℕ, suc, ◌≡◌, refl, String, List, [], ◌∷◌, ◌==◌}
use cluster_api_provider_vcl.Runtime.{
  ok, err, errorf, Exec, is_not_found, pure, raise, lift, attempt, continue, ◌>>=◌, wrap_result,
}
use cluster_api_provider_vcl.Kube.{World, Secret}
use cluster_api_provider_vcl.Helm.Secrets.{
  decode_release, add_decoded, decode_all, lookup_string, Release, Codec, latest_of, list, get,
  selector_of, found_latest, is_short, has_magic_gzip, lacks_metadata,
}
use cluster_api_provider_vcl.Helm.Secrets.Released.{IsRelease}
use cluster_api_provider_vcl.Helm.Secrets.Listed.{decode_all-IsRelease}
use cluster_api_provider_vcl.Base.Lists.{All}
use cluster_api_provider_vcl.Helm.Secrets.Picks.{Picks, get-Picks}
use cluster_api_provider_vcl.Controllers.Chart.{delete_helm_chart, reply_release}
use cluster_api_provider_vcl.Base.Tests.{is_some, if◌then◌else◌}
use cluster_api_provider_vcl.Controllers.Reconcile.{delete_resources, ignore_not_found}
use cluster_api_provider_vcl.Controllers.Reconcile.Resources.{
  ReleaseGone, ClaimGone, delete_resources-Gone,
}
use cluster_api_provider_vcl.Tests.Fixtures.{
  test_world, test_helm, test_codec, test_helper, decoded_of,
}

abbrev release_secret : Secret
release_secret = record {
  name = "sh.helm.release.v1.a.v1";
  namespace = "b";
  labels = ("owner", "helm") ∷ [];
  data_entries = ("release", "AQID") ∷ [];
}

abbrev damaged_secret : Secret
damaged_secret = record release_secret { data_entries = [] }

abbrev listing : List (String × String) → String → Exec ℕ (List Secret)
listing labels namespace w = (ok (release_secret ∷ []), w)

abbrev installed_world : World ℕ String
installed_world = record test_world { list_secrets = listing }

abbrev decoded_release : Release
decoded_release = record { decoded = decoded_of 1; secret = release_secret }

abbrev first : List ℕ → ℕ
first [] = 0
first (x ∷ xs) = x

abbrev newer_secret : Secret
newer_secret = record release_secret { data_entries = ("release", "BAUG") ∷ [] }

-- Texts of two releases, whose version is the first of their bytes; no other text decodes.
abbrev version_codec : Codec
version_codec = record test_codec {
  base64_decode = λ text.
      if text == "AQID"
      then ok (1 ∷ 2 ∷ 3 ∷ [])
      else if text == "BAUG"
      then ok (4 ∷ 5 ∷ 6 ∷ [])
      else err (errorf "illegal base64 data");
  unmarshal = λ b. if has_magic_gzip b then err (errorf "gzip") else ok (decoded_of (first b));
}

abbrev three_secrets : List Secret
three_secrets = damaged_secret ∷ release_secret ∷ newer_secret ∷ []

decode_all-IsRelease_example :
    All
      (λ r. Mem r.secret three_secrets × IsRelease version_codec r)
      (decode_all version_codec three_secrets)
    × ((r : Release)
        → Mem r.secret three_secrets
        → IsRelease version_codec r
        → Mem r (decode_all version_codec three_secrets))
decode_all-IsRelease_example = decode_all-IsRelease version_codec three_secrets

abbrev three_listing : List (String × String) → String → Exec ℕ (List Secret)
three_listing labels namespace w = (ok three_secrets, suc w)

get-Picks_example :
    Picks version_codec "a"
      (three_listing (("name", "a") ∷ ("owner", "helm") ∷ []) "b" 7).0
      (get three_listing version_codec "a" "b" 7).0
    × ((get three_listing version_codec "a" "b" 7).1
        ≡ (three_listing (("name", "a") ∷ ("owner", "helm") ∷ []) "b" 7).1)
get-Picks_example = get-Picks three_listing version_codec "a" "b" 7

newer_picked :
    get three_listing version_codec "a" "b" 7
    ≡ (ok (record { decoded = decoded_of 4; secret = newer_secret }), 8)
unfolding get list found_latest latest_of decode_all add_decoded decode_release lookup_string
    is_short has_magic_gzip lacks_metadata is_some selector_of ◌>>=◌ continue pure raise wrap_result
newer_picked = refl

deleted_all :
    delete_resources installed_world test_helm test_codec test_helper
      (record { namespace = "b"; name = "a" })
      "a"
      7
    ≡ (ok tt, 7)
unfolding delete_resources delete_helm_chart reply_release get list found_latest latest_of
    decode_all add_decoded decode_release lookup_string is_short has_magic_gzip lacks_metadata
    is_some selector_of ignore_not_found is_not_found ◌>>=◌ continue pure raise lift attempt
    wrap_result
deleted_all = refl

delete_resources-Gone_example :
    (u : ℕ) × ReleaseGone installed_world test_helm test_codec test_helper
      (record { namespace = "b"; name = "a" })
      "a"
      7
      u
    × ClaimGone installed_world test_helm test_codec test_helper
        (record { namespace = "b"; name = "a" })
        "a"
        u
        7
delete_resources-Gone_example =
    delete_resources-Gone installed_world test_helm test_codec test_helper
      (record { namespace = "b"; name = "a" }) "a" 7 7 deleted_all
