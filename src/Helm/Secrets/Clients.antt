-- ===== src/Helm/Secrets/Clients.antt =====
-- The two clients that `Secrets` wraps.
use cluster_api_provider_vcl.Base.{String, Option, none, some, List}
use cluster_api_provider_vcl.Runtime.{Error, Exec, ok, err, Result}
use cluster_api_provider_vcl.Kube.{Secret}

-- The pointer and the error that an update returns.
pub record Updated : Type 0 where
  pub secret : Option Secret
  pub error : Option Error

-- The client of controller-runtime writes the answer of the server into the object.
pub record KubeClient (W : Type 0) : Type 0 where
  pub update : Secret → W → (Secret × Result (Unit {0})) × W
  pub list : List (String × String) → String → Exec W (List Secret)

pub record ClientSet (W : Type 0) : Type 0 where
  pub update : (namespace : String) → Secret → W → Updated × W
  pub list : (namespace : String) → List (String × String) → Exec W (List Secret)

-- `NewSecrets` and `NewSecretsClientSet` set one of the two.
pub data Secrets (W : Type 0) : Type 0 where
  new_secrets : KubeClient W → Secrets W
  new_secrets_client_set : ClientSet W → Secrets W

error_of : Result (Unit {0}) → Option Error
error_of (ok _) = none
error_of (err e) = some e

module _ {W : Type 0} where
  unfoldable pub update_secret : Secrets W → Secret → W → Updated × W
  unfolding error_of
  update_secret (new_secrets_client_set c) secret w = c.update secret.namespace secret w
  update_secret (new_secrets c) secret w =
      let ((secret', r), w') = c.update secret w in
      (record { secret = some secret'; error = error_of r }, w')

  -- The call of `List`.
  unfoldable pub list_secrets : Secrets W → List (String × String) → String → Exec W (List Secret)
  list_secrets (new_secrets_client_set c) labels namespace = c.list namespace labels
  list_secrets (new_secrets c) labels namespace = c.list labels namespace
