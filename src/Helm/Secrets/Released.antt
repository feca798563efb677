-- ===== src/Helm/Secrets/Released.antt =====
-- What a release is, told without the tests of `List`.
use Prim.Native.String.{◌++◌ as append}
use cluster_api_provider_vcl.Kube.{Secret}
use cluster_api_provider_vcl.Base.{
  ◌≤◌, ◌≡◌, ◌∙◌, refl, sym, ap, String, true, false, some, [], ◌∷◌, arith, inl, inr, ◌⊎◌,
}
use cluster_api_provider_vcl.Base.Tests.{if◌then◌else◌, is_some, Bool-cases, Option-cases}
use cluster_api_provider_vcl.Base.Lists.{length}
use cluster_api_provider_vcl.Runtime.{Result-cases, ok, err, errorf, wrap, wrap_result}
use cluster_api_provider_vcl.Helm.Metadata.{Metadata}
use cluster_api_provider_vcl.Helm.Secrets.{
  Bytes, Info, MetadataChart, DecodedRelease, Release, Codec, lookup_string, is_short,
  has_magic_gzip, lacks_metadata, decode_release,
}
use cluster_api_provider_vcl.Helm.Secrets.Decoded.{IsDecoded}

-- The bytes begin as a gzip file does.
abbrev pub IsZipped : Bytes → Type 0
IsZipped b = (rest : Bytes) × (b ≡ 0x1f ∷ 0x8b ∷ 0x08 ∷ rest)

-- There are the metadata of the chart and the info.
pub record HasParts (d : DecodedRelease) : Type 0 where
  pub chart : MetadataChart
  pub metadata : Metadata
  pub info : Info
  pub has_chart : d.chart ≡ some chart
  pub has_metadata : chart.metadata ≡ some metadata
  pub has_info : d.info ≡ some info

-- The entry `release` of the secret is at least three bytes in base64, which are unzipped just if
-- they begin as a gzip file does, and are the JSON of a release with the parts that are used.
pub record IsRelease (c : Codec) (r : Release) : Type 0 where
  pub content : Bytes
  pub plain : Bytes
  pub carried : c.base64_decode (lookup_string "release" r.secret.data_entries) ≡ ok content
  pub long : 3 ≤ length content
  pub opened :
      (IsZipped content × (c.gunzip content ≡ ok plain))
      ⊎ ((¬ IsZipped content) × (content ≡ plain))
  pub read : c.unmarshal plain ≡ ok r.decoded
  pub parts : HasParts r.decoded

is_short-false : (b : Bytes) → 3 ≤ length b → is_short b ≡ false
unfolding is_short
is_short-false [] h = ground arith
is_short-false (x ∷ []) h = ground arith
is_short-false (x ∷ y ∷ []) h = ground arith
is_short-false (x ∷ y ∷ z ∷ b) h = refl

le-length : (b : Bytes) → is_short b ≡ false → 3 ≤ length b
unfolding is_short
le-length [] h = ground arith
le-length (x ∷ []) h = ground arith
le-length (x ∷ y ∷ []) h = ground arith
le-length (x ∷ y ∷ z ∷ b) h = omega arith

has_magic_gzip-IsZipped : (b : Bytes) → IsZipped b → has_magic_gzip b ≡ true
unfolding has_magic_gzip
has_magic_gzip-IsZipped b (rest, p) = rw p refl

IsZipped-has_magic_gzip : (b : Bytes) → has_magic_gzip b ≡ true → IsZipped b
unfolding has_magic_gzip
IsZipped-has_magic_gzip [] h = ground arith
IsZipped-has_magic_gzip (x ∷ []) h = ground arith
IsZipped-has_magic_gzip (x ∷ y ∷ []) h = ground arith
IsZipped-has_magic_gzip (x ∷ y ∷ z ∷ b) h =
    let p : x ≡ 0x1f = ground arith in
    let q : y ≡ 0x8b = ground arith in let r : z ≡ 0x08 = ground arith in (b, cc)

lacks_metadata-HasParts : (d : DecodedRelease) → HasParts d → lacks_metadata d ≡ false
unfolding lacks_metadata is_some
lacks_metadata-HasParts d h = rw (h.has_chart, h.has_metadata, h.has_info) refl

HasParts-lacks_metadata : (d : DecodedRelease) → lacks_metadata d ≡ false → HasParts d
unfolding lacks_metadata is_some
HasParts-lacks_metadata d h = elim (Option-cases d.chart) [
  | inl p ↦ ground arith
  | inr (chart, p) ↦ elim (Option-cases chart.metadata) [
    | inl q ↦ ground arith
    | inr (metadata, q) ↦ elim (Option-cases d.info) [
      | inl t ↦ ground arith
      | inr (info, t) ↦ record {
        chart = chart;
        metadata = metadata;
        info = info;
        has_chart = p;
        has_metadata = q;
        has_info = t;
      }
    ]
  ]
]

-- A release is decoded from the data of its secret and not passed over.
pub IsRelease-IsDecoded : (c : Codec) (r : Release) → IsRelease c r → IsDecoded c r
unfolding decode_release wrap_result
IsRelease-IsDecoded c r h =
    let short = is_short-false h.content h.long in
    record {
      decodes = elim h.opened [
        | inl (z, p) ↦ rw (h.carried, short, has_magic_gzip-IsZipped h.content z, p, h.read) refl
        | inr (z, p) ↦ elim (Bool-cases (has_magic_gzip h.content)) [
          | inl q ↦ absurd (z (IsZipped-has_magic_gzip h.content q))
          | inr q ↦ rw (h.carried, short, q, p, h.read) refl
        ]
      ];
      metadata = lacks_metadata-HasParts r.decoded h.parts;
    }

not-IsZipped : (b : Bytes) → has_magic_gzip b ≡ false → ¬ IsZipped b
not-IsZipped b q z = let t = has_magic_gzip-IsZipped b z in ground arith

-- The steps of a decoding that succeeds.
decode_release-steps :
    (c : Codec) (s : Secret) (text : String) (r : Release)
    → decode_release c s text ≡ ok r
    → (b : Bytes) × (b2 : Bytes) × (c.base64_decode text ≡ ok b)
      × (is_short b ≡ false)
      × ((if has_magic_gzip b then c.gunzip b else ok b) ≡ ok b2)
      × (c.unmarshal b2 ≡ ok r.decoded)
unfolding decode_release wrap_result
decode_release-steps c s text r h = elim (Result-cases (c.base64_decode text)) [
  | inl (e, p) ↦
      let z : decode_release c s text ≡ err e = rw p refl in let y = sym z ∙ h in ground arith
  | inr (b, p) ↦ elim (Bool-cases (is_short b)) [
    | inl q ↦
        let z : decode_release c s text ≡ err (errorf (append "unexpected secret content: " text)) =
          rw (p, q) refl in
        let y = sym z ∙ h in ground arith
    | inr q ↦ elim (Result-cases (if has_magic_gzip b then c.gunzip b else ok b)) [
      | inl (e, t) ↦
          let z : decode_release c s text ≡ err e = rw (p, q, t) refl in
          let y = sym z ∙ h in ground arith
      | inr (b2, t) ↦ elim (Result-cases (c.unmarshal b2)) [
        | inl (e, u) ↦
            let z : decode_release c s text
                ≡ err (wrap (append "error decoding " (append (c.text_of b2) ": ")) e) =
              rw (p, q, t, u) refl in
            let y = sym z ∙ h in ground arith
        | inr (d, u) ↦
            let z : decode_release c s text ≡ ok (record { decoded = d; secret = s }) =
              rw (p, q, t, u) refl in
            let y = sym z ∙ h in
            let same : d ≡ r.decoded = ground arith in (b, b2, p, q, t, u ∙ ap ok same)
      ]
    ]
  ]
]

opened_of :
    (c : Codec) (b b2 : Bytes)
    → (if has_magic_gzip b then c.gunzip b else ok b) ≡ ok b2
    → (IsZipped b × (c.gunzip b ≡ ok b2)) ⊎ ((¬ IsZipped b) × (b ≡ b2))
opened_of c b b2 h = elim (Bool-cases (has_magic_gzip b)) [
  | inl q ↦ inl (IsZipped-has_magic_gzip b q, ground arith)
  | inr q ↦ inr (not-IsZipped b q, ground arith)
]

-- What is decoded and not passed over is a release.
pub IsDecoded-IsRelease : (c : Codec) (r : Release) → IsDecoded c r → IsRelease c r
IsDecoded-IsRelease c r h =
    let (b, b2, p, q, t, u) =
      decode_release-steps c r.secret (lookup_string "release" r.secret.data_entries) r h.decodes in
    record {
      content = b;
      plain = b2;
      carried = p;
      long = le-length b q;
      opened = opened_of c b b2 t;
      read = u;
      parts = HasParts-lacks_metadata r.decoded h.metadata;
    }
