-- ===== src/Helm/Client/Configured.antt =====
-- The configuration with which the client runs the binary.
pub mod Made
pub mod Methods
use cluster_api_provider_vcl.Base.{
  ℕ, zero, suc, ◌≡◌, ◌≢◌, ◌∙◌, refl, String, Bool, Option, some, List, [], ◌∷◌, ◌++◌, ◌==◌, not,
  inl, inr,
}
use cluster_api_provider_vcl.Base.Tests.{if◌then◌else◌, Bool-cases}
use cluster_api_provider_vcl.Runtime.{
  Result, ok, err, Exec, is_not_found, lift, continue, ◌>>=◌, wrap_error,
}
use cluster_api_provider_vcl.Helm.Options.{UpgradeOptions}
use cluster_api_provider_vcl.Helm.Client.{
  System, keep_written, write_created, write_temp, look, wait_for, write_kube_config, removing,
  with_file, exec, first_args, run_with, run, install, upgrade, rollback, delete, release_exists,
  helm_client,
}
use cluster_api_provider_vcl.Helm.Args.{chart_args, last_args}
use cluster_api_provider_vcl.Runtime.Steady.{IsSteady}

-- The arguments have the flag of the kubeconfig, followed by a file as it should be.
pub data Passes (Right : String → Type 0) : List String → Type 0 where
  here :
      (file : String) (rest : List String)
      → Right file
      → Passes Right ("--kubeconfig" ∷ file ∷ rest)
  later : (arg : String) (args : List String) → Passes Right args → Passes Right (arg ∷ args)

module _ {Right : String → Type 0} where
  pub Passes-append : (args more : List String) → Passes Right args → Passes Right (args ++ more)
  Passes-append _ more (here file rest h) = here file (rest ++ more) h
  Passes-append _ more (later arg args p) = later arg (args ++ more) (Passes-append args more p)

  pub Passes-prefix : (first args : List String) → Passes Right args → Passes Right (first ++ args)
  Passes-prefix [] args p = p
  Passes-prefix (arg ∷ first) args p = later arg (first ++ args) (Passes-prefix first args p)

pub Passes-imp :
    {P Q : String → Type 0} (args : List String)
    → ((file : String) → P file → Q file)
    → Passes P args
    → Passes Q args
Passes-imp _ f (here file rest h) = here file rest (f file h)
Passes-imp _ f (later arg args p) = later arg args (Passes-imp args f p)

module _ {W : Type 0} (misled : W → ℕ) where
  -- A call leaves the count, and if it succeeds its answer and the world are as `Q` says.
  abbrev pub Kept : {A : Type 0} → ℕ → (A → W → Type 0) → Result A × W → Type 0
  Kept n Q (ok a, w) = (misled w ≡ n) × Q a w
  Kept n Q (err e, w) = misled w ≡ n

-- The file has the configuration of the client.
abbrev pub HasConfig :
    {W : Type 0} → Result String → (W → String → Option String) → W → String → Type 0
HasConfig config content w file =
    (text : String) × (config ≡ ok text) × (content w file ≡ some text)

-- What the operating system does to the files, and to the number of commands that were run without
-- a file that has the configuration: a temporary file is a new one, and a file that was written
-- has the text.
pub record Files {W : Type 0} (s : System W) (config : Result String)
    (content : W → String → Option String) (misled : W → ℕ) : Type 0 where
  pub create_temp :
      (w : W)
      → Kept misled
          (misled w)
          (λ file w'.
            (g text : String) → content w g ≡ some text → (content w' g ≡ some text) × (file ≢ g))
          (s.create_temp w)
  pub write :
      (file text : String) (w : W)
      → Kept misled
          (misled w)
          (λ _ w'.
            (content w' file ≡ some text)
            × ((g other : String)
                → file ≢ g
                → content w g ≡ some other
                → content w' g ≡ some other))
          (s.write file text w)
  pub stat :
      (file : String) (w : W)
      → (misled (s.stat file w).1 ≡ misled w)
        × ((g text : String) → content w g ≡ some text → content (s.stat file w).1 g ≡ some text)
  pub remove : (file : String) (w : W) → misled (s.remove file w) ≡ misled w
  pub run :
      (path : String) (args : List String) (w : W)
      → Passes (HasConfig config content w) args
      → misled (s.run path args w).1 ≡ misled w
