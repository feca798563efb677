-- ===== src/Helm/Secrets/Decoded.antt =====
-- What the releases that `List` answers are.
use Prim.Native.String.{◌++◌ as append}
use mathlib.Core.Logic.{∥∥₁_prop}
use mathlib.Core.Path.{subst}
use mathlib.Core.Logic.Or
use mathlib.Core.List.{Mem, mem-cons_self, mem-cons_of_mem, mem-cons, not-mem-nil}
use cluster_api_provider_vcl.Base.{
  ◌≡◌, ◌∙◌, refl, sym, String, false, List, [], ◌∷◌, arith, inl, inr, ◌⊎◌,
}
use cluster_api_provider_vcl.Base.Tests.{if◌then◌else◌, Bool-cases}
use cluster_api_provider_vcl.Base.Lists.{All, All-imp}
use cluster_api_provider_vcl.Runtime.{Error, Result, Result-cases, ok, err, errorf, wrap_result}
use cluster_api_provider_vcl.Kube.{Secret}
use cluster_api_provider_vcl.Helm.Secrets.{
  DecodedRelease, Release, Codec, lookup_string, is_short, has_magic_gzip, lacks_metadata,
  decode_release, add_decoded, decode_all,
}

-- The release is decoded from the data of its own secret, and has the parts that are used.
pub record IsDecoded (c : Codec) (r : Release) : Type 0 where
  pub decodes : decode_release c r.secret (lookup_string "release" r.secret.data_entries) ≡ ok r
  pub metadata : lacks_metadata r.decoded ≡ false

-- What is decoded keeps its secret.
decode_release-secret :
    (c : Codec) (s : Secret) (text : String)
    → ((e : Error) × (decode_release c s text ≡ err e))
      ⊎ ((d : DecodedRelease) × (decode_release c s text ≡ ok (record { decoded = d; secret = s })))
unfolding decode_release
decode_release-secret c s text = elim (Result-cases (c.base64_decode text)) [
  | inl (e, p) ↦ inl (e, rw p refl)
  | inr (b, p) ↦ elim (Bool-cases (is_short b)) [
    | inl q ↦ inl (errorf (append "unexpected secret content: " text), rw (p, q) refl)
    | inr q ↦ elim (Result-cases (if has_magic_gzip b then c.gunzip b else ok b)) [
      | inl (e, t) ↦ inl (e, rw (p, q, t) refl)
      | inr (b2, t) ↦
          elim (Result-cases (
            wrap_result (append "error decoding " (append (c.text_of b2) ": ")) (c.unmarshal b2))) [
              | inl (e, u) ↦ inl (e, rw (p, q, t, u) refl)
              | inr (d, u) ↦ inr (d, rw (p, q, t, u) refl)
            ]
    ]
  ]
]

pub decode_release-same_secret :
    (c : Codec) (s : Secret) (r : Release)
    → decode_release c s (lookup_string "release" s.data_entries) ≡ ok r
    → s ≡ r.secret
decode_release-same_secret c s r p =
    elim (decode_release-secret c s (lookup_string "release" s.data_entries)) [
      | inl (e, q) ↦ let z = sym q ∙ p in ground arith
      | inr (d, q) ↦ let z = sym q ∙ p in ground arith
    ]

listed_before :
    (c : Codec) (s : Secret) (items : List Secret) (rs : List Release)
    → All (λ r. Mem r.secret items × IsDecoded c r) rs
    → All (λ r. Mem r.secret (s ∷ items) × IsDecoded c r) rs
listed_before c s items rs =
    All-imp (λ r. Mem r.secret items × IsDecoded c r)
      (λ r. Mem r.secret (s ∷ items) × IsDecoded c r) rs λ r (m, d). (mem-cons_of_mem s m, d)

add_decoded-IsDecoded :
    (c : Codec) (s : Secret) (q : Result Release) (items : List Secret) (rs : List Release)
    → decode_release c s (lookup_string "release" s.data_entries) ≡ q
    → All (λ r. Mem r.secret items × IsDecoded c r) rs
    → All (λ r. Mem r.secret (s ∷ items) × IsDecoded c r) (add_decoded q rs)
unfolding add_decoded
add_decoded-IsDecoded c s (err e) items rs p h = listed_before c s items rs h
add_decoded-IsDecoded c s (ok r) items rs p h =
    let rest = listed_before c s items rs h in
    let t = decode_release-same_secret c s r p in
    elim (Bool-cases (lacks_metadata r.decoded)) [
      | inl q ↦ rw q rest
      | inr q ↦ rw q (
        (
          subst (λ x. Mem x (s ∷ items)) t mem-cons_self,
          record {
            decodes =
                subst (λ x. decode_release c x (lookup_string "release" x.data_entries) ≡ ok r) t p;
            metadata = q;
          },
        ),
        rest,
      )
    ]

-- Each release that is listed is decoded from the data of its own secret, which the server listed,
-- and has the metadata of its chart and its info.
pub decode_all-IsDecoded :
    (c : Codec) (items : List Secret)
    → All (λ r. Mem r.secret items × IsDecoded c r) (decode_all c items)
unfolding decode_all
decode_all-IsDecoded c [] = tt
decode_all-IsDecoded c (item ∷ items) =
    add_decoded-IsDecoded c item (decode_release c item (lookup_string "release" item.data_entries))
      items (decode_all c items) refl (decode_all-IsDecoded c items)

add_decoded-head :
    (c : Codec) (r : Release) (rs : List Release)
    → IsDecoded c r
    → Mem r
        (add_decoded (decode_release c r.secret (lookup_string "release" r.secret.data_entries)) rs)
unfolding add_decoded
add_decoded-head c r rs d = rw (d.decodes, d.metadata) mem-cons_self

add_decoded-tail :
    (q : Result Release) (r : Release) (rs : List Release) → Mem r rs → Mem r (add_decoded q rs)
unfolding add_decoded
add_decoded-tail (err e) r rs m = m
add_decoded-tail (ok s) r rs m = elim (Bool-cases (lacks_metadata s.decoded)) [
  | inl q ↦ rw q m
  | inr q ↦ rw q (mem-cons_of_mem s m)
]

-- No release is passed over whose secret was listed, that is decoded from the data of this secret,
-- and that has the metadata of its chart and its info.
pub mem-decode_all :
    (c : Codec) (r : Release)
    → IsDecoded c r
    → (items : List Secret) → Mem r.secret items
    → Mem r (decode_all c items)
unfolding decode_all
mem-decode_all c r d [] m = absurd (not-mem-nil m)
mem-decode_all c r d (item ∷ items) m =
    Or.elim ∥∥₁_prop (mem-cons.0 m)
      (λ e.
        subst
          (λ s. Mem r (
            add_decoded (decode_release c s (lookup_string "release" s.data_entries))
              (decode_all c items)))
          e (add_decoded-head c r (decode_all c items) d))
      (λ t.
        add_decoded-tail (decode_release c item (lookup_string "release" item.data_entries)) r
          (decode_all c items) (mem-decode_all c r d items t))
