-- ===== src/Helm/Secrets/Split.antt =====
-- Which secret of a list a decoded release comes from.
use mathlib.Core.Path.{subst}
use cluster_api_provider_vcl.Base.{
  ◌≡◌, ◌∙◌, refl, sym, ap, false, List, [], ◌∷◌, ◌++◌, arith, inl, inr, ◌⊎◌,
}
use cluster_api_provider_vcl.Base.Tests.{Bool-cases}
use cluster_api_provider_vcl.Runtime.{Result, ok, err}
use cluster_api_provider_vcl.Kube.{Secret}
use cluster_api_provider_vcl.Helm.Secrets.{
  Release, Codec, lookup_string, lacks_metadata, decode_release, add_decoded, decode_all,
}
use cluster_api_provider_vcl.Helm.Secrets.Decoded.{IsDecoded, decode_release-same_secret}

-- The secrets before that of the release, and those after it, with their own releases.
pub record IsSplit (c : Codec) (r : Release) (items : List Secret) (b a : List Release)
    : Type 0 where
  pub before : List Secret
  pub after : List Secret
  pub split : items ≡ before ++ r.secret ∷ after
  pub decodes : IsDecoded c r
  pub earlier : decode_all c before ≡ b
  pub later : decode_all c after ≡ a

-- An answer adds nothing, or its release.
added :
    (q : Result Release)
    → ((rs : List Release) → add_decoded q rs ≡ rs)
      ⊎ ((r : Release) × (q ≡ ok r)
          × (lacks_metadata r.decoded ≡ false)
          × ((rs : List Release) → add_decoded q rs ≡ r ∷ rs))
unfolding add_decoded
added (err e) = inl λ rs. refl
added (ok r) = elim (Bool-cases (lacks_metadata r.decoded)) [
  | inl p ↦ inl λ rs. rw p refl
  | inr p ↦ inr (r, refl, p, λ rs. rw p refl)
]

-- The secret in front is passed over.
IsSplit-skip :
    (c : Codec) (r : Release) (item : Secret) (items : List Secret) (b a : List Release)
    → ((rs : List Release)
        → add_decoded (decode_release c item (lookup_string "release" item.data_entries)) rs ≡ rs)
    → IsSplit c r items b a
    → IsSplit c r (item ∷ items) b a
unfolding decode_all
IsSplit-skip c r item items b a e h = record {
  before = item ∷ h.before;
  after = h.after;
  split = ap (◌∷◌ item) h.split;
  decodes = h.decodes;
  earlier = e (decode_all c h.before) ∙ h.earlier;
  later = h.later;
}

-- The secret in front is that of a release before.
IsSplit-cons :
    (c : Codec) (r s : Release) (item : Secret) (items : List Secret) (b a : List Release)
    → ((rs : List Release)
        → add_decoded (decode_release c item (lookup_string "release" item.data_entries)) rs
          ≡ s ∷ rs)
    → IsSplit c r items b a
    → IsSplit c r (item ∷ items) (s ∷ b) a
unfolding decode_all
IsSplit-cons c r s item items b a e h = record {
  before = item ∷ h.before;
  after = h.after;
  split = ap (◌∷◌ item) h.split;
  decodes = h.decodes;
  earlier = e (decode_all c h.before) ∙ ap (◌∷◌ s) h.earlier;
  later = h.later;
}

-- The secret in front is that of the release.
IsSplit-first :
    (c : Codec) (r : Release) (item : Secret) (items : List Secret)
    → decode_release c item (lookup_string "release" item.data_entries) ≡ ok r
    → lacks_metadata r.decoded ≡ false
    → IsSplit c r (item ∷ items) [] (decode_all c items)
unfolding decode_all
IsSplit-first c r item items p q =
    let t = decode_release-same_secret c item r p in
    record {
      before = [];
      after = items;
      split = ap (λ s. s ∷ items) t;
      decodes = record {
        decodes =
            subst (λ x. decode_release c x (lookup_string "release" x.data_entries) ≡ ok r) t p;
        metadata = q;
      };
      earlier = refl;
      later = refl;
    }

-- The secret in front has a release, which is that of the split or one before.
IsSplit-found :
    (c : Codec) (r s : Release) (item : Secret) (items : List Secret) (b a : List Release)
    → decode_release c item (lookup_string "release" item.data_entries) ≡ ok s
    → lacks_metadata s.decoded ≡ false
    → ((rs : List Release)
        → add_decoded (decode_release c item (lookup_string "release" item.data_entries)) rs
          ≡ s ∷ rs)
    → ((b' : List Release) → decode_all c items ≡ b' ++ r ∷ a → IsSplit c r items b' a)
    → s ∷ decode_all c items ≡ b ++ r ∷ a
    → IsSplit c r (item ∷ items) b a
IsSplit-found c r s item items [] a p q e rest h =
    let same : s ≡ r = ground arith in
    let others : decode_all c items ≡ a = ground arith in
    let found =
      IsSplit-first c r item items (p ∙ ap ok same)
        (ap (λ x. lacks_metadata x.decoded) (sym same) ∙ q) in
    subst (λ x. IsSplit c r (item ∷ items) [] x) others found
IsSplit-found c r s item items (x ∷ b) a p q e rest h =
    let same : s ≡ x = ground arith in
    let others : decode_all c items ≡ b ++ r ∷ a = ground arith in
    subst (λ y. IsSplit c r (item ∷ items) (y ∷ b) a) same
      (IsSplit-cons c r s item items b a e (rest b others))

-- A split of the releases comes from one of the secrets.
pub decode_all-IsSplit :
    (c : Codec) (r : Release) (items : List Secret) (b a : List Release)
    → decode_all c items ≡ b ++ r ∷ a
    → IsSplit c r items b a
unfolding decode_all
decode_all-IsSplit c r [] [] a h = ground arith
decode_all-IsSplit c r [] (s ∷ b) a h = ground arith
decode_all-IsSplit c r (item ∷ items) b a h =
    elim (added (decode_release c item (lookup_string "release" item.data_entries))) [
      | inl e ↦
          IsSplit-skip c r item items b a e
            (decode_all-IsSplit c r items b a (sym (e (decode_all c items)) ∙ h))
      | inr (s, p, q, e) ↦
          IsSplit-found c r s item items b a p q e (λ b'. decode_all-IsSplit c r items b' a)
            (sym (e (decode_all c items)) ∙ h)
    ]
