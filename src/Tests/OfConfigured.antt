-- ===== src/Tests/OfConfigured.antt =====
-- The theorem on the configuration of the helm client, on a system with two temporary files.
use mathlib.Core.Path.{subst⁻¹}
use cluster_api_provider_vcl.Base.{
  ℕ, suc, ◌≡◌, ◌≢◌, refl, String, Bool, true, false, ◌&&◌, ◌||◌, Option, none, some, List, [], ◌∷◌,
  ◌==◌, arith, eq_iff, inl, inr,
}
use cluster_api_provider_vcl.Base.Tests.{if◌then◌else◌, Bool-cases}
use cluster_api_provider_vcl.Runtime.{Result, ok, err, errorf}
use cluster_api_provider_vcl.Runtime.Steady.{IsSteady}
use cluster_api_provider_vcl.Kube.{HelmClient}
use cluster_api_provider_vcl.Helm.Options.{UpgradeOptions, no_upgrade_options}
use cluster_api_provider_vcl.Helm.Client.{System, helm_client}
use cluster_api_provider_vcl.Helm.Client.Configured.{Passes, here, later, HasConfig, Kept, Files}
use cluster_api_provider_vcl.Helm.Client.Configured.Methods.{helm_client-configured}

pub record Disk : Type 0 where
  pub first : Option String
  pub second : Option String
  pub misled : ℕ

abbrev pub content : Disk → String → Option String
content d g = if g == "/tmp/1" then d.first else if g == "/tmp/2" then d.second else none

abbrev is_config : Option String → Bool
is_config none = false
is_config (some text) = text == "kubeconfig"

abbrev starts_configured : Disk → List String → Bool
starts_configured d [] = false
starts_configured d (file ∷ args) = is_config (content d file)

abbrev is_configured : Disk → List String → Bool
is_configured d [] = false
is_configured d (arg ∷ args) =
    (arg == "--kubeconfig" && starts_configured d args) || is_configured d args

abbrev create_file : Option String → Option String → ℕ → Result String × Disk
create_file none b n = (ok "/tmp/1", record { first = some ""; second = b; misled = n })
create_file (some a) none n = (ok "/tmp/2", record { first = some a; second = some ""; misled = n })
create_file (some a) (some b) n =
    (err (errorf "no more files"), record { first = some a; second = some b; misled = n })

abbrev write_file : String → String → Disk → Disk
write_file file text d =
    if file == "/tmp/1"
    then record d { first = some text }
    else if file == "/tmp/2"
    then record d { second = some text }
    else d

abbrev pub two_files : System Disk
two_files = record {
  create_temp = λ d. create_file d.first d.second d.misled;
  write = λ file text d.
      if file == "/tmp/1" || file == "/tmp/2"
      then (ok tt, write_file file text d)
      else (err (errorf "no such file"), d);
  remove = λ file d. d;
  stat = λ file d. (ok tt, d);
  run = λ path args d.
      (("", ok tt), if is_configured d args then d else record d { misled = suc d.misled });
  wait_rounds = 1200;
}

Passes-configured :
    (d : Disk) (args : List String)
    → Passes (HasConfig (ok "kubeconfig") content d) args
    → is_configured d args ≡ true
Passes-configured d _ (here file rest (text, e, h)) =
    let t : text ≡ "kubeconfig" = ground arith in ground (arith, eq_iff text "kubeconfig")
Passes-configured d _ (later arg args p) = ground (arith, Passes-configured d args p)

create_file-Kept :
    (a b : Option String) (n : ℕ)
    → Kept
        (λ d. d.misled)
        n
        (λ file d.
          (g text : String)
          → content (record { first = a; second = b; misled = n }) g ≡ some text
          → (content d g ≡ some text) × (file ≢ g))
        (create_file a b n)
create_file-Kept none b n =
    (refl, λ g text h. (ground (arith, eq_iff g "/tmp/1"), λ e. ground (arith, eq_iff g "/tmp/1")))
create_file-Kept (some a) none n = (
  refl,
  λ g text h. (
    ground (arith, eq_iff g "/tmp/1", eq_iff g "/tmp/2"),
    λ e.
        let z : none ≡ some text =
          subst⁻¹
            (λ x. content (record { first = some a; second = none; misled = n }) x ≡ some text) e
            h in
        ground arith,
  ),
)
create_file-Kept (some a) (some b) n = refl

write_file-Kept :
    (file text : String) (d : Disk)
    → Kept
        (λ d. d.misled)
        d.misled
        (λ _ d'.
          (content d' file ≡ some text)
          × ((g other : String) → file ≢ g → content d g ≡ some other → content d' g ≡ some other))
        (two_files.write file text d)
write_file-Kept file text d = elim (Bool-cases (file == "/tmp/1")) [
  | inl p ↦ rw p (
    refl,
    (
      ground (arith, p),
      λ g other n h. ground (arith, p, n, h, eq_iff g "/tmp/1", eq_iff file "/tmp/1"),
    ),
  )
  | inr p ↦ elim (Bool-cases (file == "/tmp/2")) [
    | inl q ↦
        rw (p, q)
          (
            refl,
            (
              ground (arith, p, q),
              λ g other n h.
                  ground
                    (arith, p, q, n, h, eq_iff g "/tmp/2", eq_iff file "/tmp/2", eq_iff g "/tmp/1"),
            ),
          )
    | inr q ↦ rw (p, q) refl
  ]
]

pub two_files-Files : Files two_files (ok "kubeconfig") content (λ d. d.misled)
two_files-Files = record {
  create_temp = λ d. create_file-Kept d.first d.second d.misled;
  write = write_file-Kept;
  stat = λ file d. (refl, λ g text h. h);
  remove = λ file d. refl;
  run = λ path args d p. rw (Passes-configured d args p) refl;
}

abbrev configured_client : HelmClient Disk
configured_client = helm_client two_files false "./helm" (ok "kubeconfig")

abbrev valued : UpgradeOptions
valued = record no_upgrade_options {
  chart = "vcluster";
  repo = "https://charts.loft.sh";
  values = "sync: {}";
}

helm_client-configured_example :
    IsSteady (λ (d : Disk). d.misled) (configured_client.install "a" "b" valued)
    × IsSteady (λ (d : Disk). d.misled) (configured_client.upgrade "a" "b" valued)
    × IsSteady (λ (d : Disk). d.misled) (configured_client.rollback "a" "b" "2")
    × IsSteady (λ (d : Disk). d.misled) (configured_client.delete "a" "b")
    × IsSteady (λ (d : Disk). d.misled) (configured_client.exists "a" "b")
helm_client-configured_example =
    helm_client-configured two_files (ok "kubeconfig") content (λ d. d.misled) two_files-Files false
      "./helm" "a" "b" "2" valued
