-- ===== src/Helm/Secrets.antt =====
-- pkg/helm/secrets.go: the releases that helm keeps in secrets.
pub mod Latest
pub mod Decoded
pub mod Clients
pub mod Released
pub mod Split
pub mod Listed
pub mod Picks
use Prim.Native.String.{◌++◌ as append}
use cluster_api_provider_vcl.Base.{
  ℕ, zero, suc, String, Bool, true, false, not, ◌&&◌, ◌||◌, Option, none, some, List, [], ◌∷◌, ◌++◌,
  ◌==◌,
}
use cluster_api_provider_vcl.Base.Tests.{if◌then◌else◌, ltb, nat_eq, is_some}
use cluster_api_provider_vcl.Base.Lists.{length}
use cluster_api_provider_vcl.Runtime.{
  Error, Reason, Result, ok, err, Exec, errorf, ◌>>=◌, pure, raise, and_then, wrap_result,
}
use cluster_api_provider_vcl.Kube.{Secret}
use cluster_api_provider_vcl.Helm.Time.{Time}
use cluster_api_provider_vcl.Helm.Metadata.{Metadata}

abbrev pub Bytes : Type 0
Bytes = List ℕ

-- The times are nanoseconds, as those of the conditions are.
pub record Info : Type 0 where
  pub first_deployed : Time ℕ
  pub last_deployed : Time ℕ
  pub deleted : Time ℕ
  pub description : String
  pub status : String
  pub notes : String

pub record MetadataChart : Type 0 where
  pub metadata : Option Metadata

-- What `json.Unmarshal` fills in: a release without its secret. The values of the chart, which no
-- code looks at, are left out.
pub record DecodedRelease : Type 0 where
  pub name : String
  pub info : Option Info
  pub chart : Option MetadataChart
  pub version : ℕ
  pub namespace : String

pub record Release : Type 0 where
  pub decoded : DecodedRelease
  pub open decoded use *
  pub secret : Secret

-- The decoders of the standard library.
pub record Codec : Type 0 where
  pub base64_decode : String → Result Bytes
  pub gunzip : Bytes → Result Bytes
  pub text_of : Bytes → String
  pub unmarshal : Bytes → Result DecodedRelease

-- The value of a key of a Go map with string values, "" if it has none.
unfoldable pub lookup_string : String → List (String × String) → String
lookup_string k [] = ""
lookup_string k ((j, v) ∷ m) = if j == k then v else lookup_string k m

-- `len(b) < 3`, and the test of the first three bytes.
unfoldable pub is_short : Bytes → Bool
is_short (x ∷ y ∷ z ∷ rest) = false
is_short _ = true

unfoldable pub has_magic_gzip : Bytes → Bool
has_magic_gzip (x ∷ y ∷ z ∷ rest) = nat_eq x 0x1f && nat_eq y 0x8b && nat_eq z 0x08
has_magic_gzip _ = false

unfoldable pub decode_release : Codec → Secret → String → Result Release
unfolding is_short has_magic_gzip
decode_release c secret text = and_then (c.base64_decode text) λ b.
    if is_short b
    then err (errorf (append "unexpected secret content: " text))
    else and_then (if has_magic_gzip b then c.gunzip b else ok b) λ b2.
      and_then
        (wrap_result (append "error decoding " (append (c.text_of b2) ": ")) (c.unmarshal b2))
        λ r. ok (record { decoded = r; secret = secret })

-- `rls.Chart == nil || rls.Chart.Metadata == nil || rls.Info == nil`
unfoldable pub lacks_metadata : DecodedRelease → Bool
lacks_metadata d = elim d.chart [
  | none ↦ true
  | some chart ↦ not (is_some chart.metadata) || not (is_some d.info)
]

-- What does not decode, and what has no metadata, is passed over.
unfoldable pub add_decoded : Result Release → List Release → List Release
add_decoded (err e) rs = rs
add_decoded (ok r) rs = if lacks_metadata r.decoded then rs else r ∷ rs

-- The loop of `List`.
unfoldable pub decode_all : Codec → List Secret → List Release
unfolding decode_release lookup_string add_decoded
decode_all c [] = []
decode_all c (item ∷ items) =
    add_decoded (decode_release c item (lookup_string "release" item.data_entries))
      (decode_all c items)

-- The loop of `Get`, over the latest release so far.
unfoldable pub latest_of : Option Release → List Release → Option Release
latest_of latest [] = latest
latest_of none (r ∷ rs) = latest_of (some r) rs
latest_of (some l) (r ∷ rs) = latest_of (some (if ltb l.version r.version then r else l)) rs

-- The labels of a selector that is nil are those of the one that selects everything.
unfoldable pub selector_of : Option (List (String × String)) → List (String × String)
selector_of none = []
selector_of (some labels) = labels

-- `kerrors.NewNotFound`
abbrev pub no_secret : (name : String) → Error
no_secret name = record {
  reason = Reason.not_found;
  message = append "Secret \"" (append name "\" not found");
}

module _ {W : Type 0} (list_secrets : List (String × String) → String → Exec W (List Secret))
    (codec : Codec) where
  -- `List` with the labels that the selector is built from.
  unfoldable pub list : Option (List (String × String)) → String → Exec W (List Release)
  unfolding ◌>>=◌ decode_all selector_of
  list labels namespace = do
    items ← list_secrets (selector_of labels ++ ("owner", "helm") ∷ []) namespace
    pure (decode_all codec items)

  -- The answer by the latest release.
  unfoldable pub found_latest : (name : String) → Option Release → Exec W Release
  found_latest name none = raise (no_secret name)
  found_latest name (some r) = pure r

  -- `Get`: the release with the highest version, the first of them if it occurs twice.
  unfoldable pub get : (name namespace : String) → Exec W Release
  unfolding list latest_of found_latest
  get name namespace = do
    releases ← list (some (("name", name) ∷ [])) namespace
    found_latest name (latest_of none releases)
