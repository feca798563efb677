-- ===== src/Helm/Secrets/Latest.antt =====
-- The release that `Get` picks.
use cluster_api_provider_vcl.Base.{
  ◌≤◌, ◌<◌, ◌≡◌, refl, ap, none, some, List, [], ◌∷◌, ◌++◌, arith, inl, inr, ◌⊎◌,
}
use cluster_api_provider_vcl.Base.Tests.{ltb, Bool-cases}
use cluster_api_provider_vcl.Base.Lists.{All}
use cluster_api_provider_vcl.Helm.Secrets.{Release, latest_of}

-- The pick splits the list: versions before it are smaller, versions after it are not greater.
pub record IsLatest (r : Release) (rs : List Release) : Type 0 where
  pub before : List Release
  pub after : List Release
  pub split : rs ≡ before ++ r ∷ after
  pub older : All (λ x. x.version < r.version) before
  pub newest : All (λ x. x.version ≤ r.version) after

latest_total :
    (l : Release) (rs : List Release)
    → (r : Release) × (latest_of (some l) rs ≡ some r) × (l.version ≤ r.version)
unfolding latest_of
latest_total l [] = (l, refl, omega arith)
latest_total l (x ∷ rs) = elim (Bool-cases (ltb l.version x.version)) [
  | inl e ↦ let (r, p, q) = latest_total x rs in (r, rw e p, ground arith)
  | inr e ↦ let (r, p, q) = latest_total l rs in (r, rw e p, q)
]

-- A release that is not newer than the first may stand behind it.
IsLatest-insert :
    (r l x : Release) (rs before after : List Release)
    → x.version ≤ l.version
    → l ∷ rs ≡ before ++ r ∷ after
    → All (λ y. y.version < r.version) before
    → All (λ y. y.version ≤ r.version) after
    → IsLatest r (l ∷ x ∷ rs)
IsLatest-insert r l x rs [] after h e o n = record {
  before = [];
  after = x ∷ after;
  split = cc;
  older = tt;
  newest = (ground arith, n);
}
IsLatest-insert r l x rs (b ∷ bs) after h e o n = record {
  before = l ∷ x ∷ bs;
  after = after;
  split = cc;
  older = (ground arith, (ground arith, o.1));
  newest = n;
}

latest_of-IsLatest-some :
    (l r : Release) (rs : List Release) → latest_of (some l) rs ≡ some r → IsLatest r (l ∷ rs)
unfolding latest_of
latest_of-IsLatest-some l r [] e = record {
  before = [];
  after = [];
  split = cc;
  older = tt;
  newest = tt;
}
latest_of-IsLatest-some l r (x ∷ rs) e = elim (Bool-cases (ltb l.version x.version)) [
  | inl h ↦
      let e' : latest_of (some x) rs ≡ some r = rw (h, latest_of) at e in
      let i = latest_of-IsLatest-some x r rs e' in
      let (y, p, q) = latest_total x rs in
      record {
        before = l ∷ i.before;
        after = i.after;
        split = ap (◌∷◌ l) i.split;
        older = (ground arith, i.older);
        newest = i.newest;
      }
  | inr h ↦
      let i = latest_of-IsLatest-some l r rs (rw (h, latest_of) at e) in
      IsLatest-insert r l x rs i.before i.after (ground arith) i.split i.older i.newest
]

-- `Get` picks the first of the releases with the highest version, and nothing only where there
-- is no release.
pub latest_of-IsLatest :
    (rs : List Release)
    → ((rs ≡ []) × (latest_of none rs ≡ none))
      ⊎ ((r : Release) × (latest_of none rs ≡ some r) × IsLatest r rs)
unfolding latest_of
latest_of-IsLatest [] = inl (refl, refl)
latest_of-IsLatest (l ∷ rs) =
    let (r, p, q) = latest_total l rs in inr (r, p, latest_of-IsLatest-some l r rs p)
