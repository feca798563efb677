-- ===== src/Helm/Secrets/Listed.antt =====
-- The releases that `List` answers, by what a release is.
use mathlib.Core.List.{Mem}
use cluster_api_provider_vcl.Base.{List}
use cluster_api_provider_vcl.Base.Lists.{All, All-imp}
use cluster_api_provider_vcl.Kube.{Secret}
use cluster_api_provider_vcl.Helm.Secrets.{Release, Codec, decode_all}
use cluster_api_provider_vcl.Helm.Secrets.Decoded.{IsDecoded, decode_all-IsDecoded, mem-decode_all}
use cluster_api_provider_vcl.Helm.Secrets.Released.{
  IsRelease, IsRelease-IsDecoded, IsDecoded-IsRelease,
}

-- What `List` makes of the secrets that the server listed are releases, each of one of these
-- secrets, and no release of one of these secrets is passed over. A release is here what the entry
-- `release` of its secret holds: at least three bytes in base64, unzipped just if they begin as a
-- gzip file does, that are the JSON of a release whose chart has metadata and which has an info.
pub decode_all-IsRelease :
    (c : Codec) (items : List Secret)
    → All (λ r. Mem r.secret items × IsRelease c r) (decode_all c items)
      × ((r : Release) → Mem r.secret items → IsRelease c r → Mem r (decode_all c items))
decode_all-IsRelease c items = (
  All-imp (λ r. Mem r.secret items × IsDecoded c r) (λ r. Mem r.secret items × IsRelease c r)
      (decode_all c items) (λ r (m, d). (m, IsDecoded-IsRelease c r d))
      (decode_all-IsDecoded c items),
  λ r m h. mem-decode_all c r (IsRelease-IsDecoded c r h) items m,
)
