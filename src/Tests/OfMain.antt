-- ===== src/Tests/OfMain.antt =====
-- The start of the program, with libraries that count the
-- starts.
use cluster_api_provider_vcl.Base.{ℕ, suc, ◌≡◌, refl, false, none, [], ◌∷◌}
use cluster_api_provider_vcl.Runtime.{ok, err, errorf}
use cluster_api_provider_vcl.Kube.Config.{RestConfig}
use cluster_api_provider_vcl.Helm.Client.{System}
use cluster_api_provider_vcl.Helm.Secrets.Clients.{KubeClient}
use cluster_api_provider_vcl.Main.{Libraries, default_flags, manager_options, namespaces_of, main}
use cluster_api_provider_vcl.Main.Started.{IsQuiet, Ends, main-Ends}

abbrev rest_config : RestConfig
rest_config = record {
  host = "https://10.96.0.1:443";
  insecure = false;
  server_name = "kubernetes.default";
  ca_file = "/var/run/ca.crt";
  ca_data = none;
  cert_file = "";
  cert_data = none;
  key_file = "";
  key_data = none;
  bearer_token = "token";
  bearer_token_file = "/var/run/token";
  username = "";
  password = "";
  impersonate = record { username = ""; uid = ""; groups = []; extra = [] };
  auth_provider = none;
  exec_provider = none;
}

abbrev client : KubeClient ℕ
client = record {
  update = λ secret n. ((secret, ok tt), n);
  list = λ labels namespace n. (ok [], n);
}

-- The state is the number of starts.
abbrev libraries : Libraries ℕ
libraries = record {
  parse = λ flags args. record flags { namespace = "vcluster" };
  get_config = λ n. (ok rest_config, n);
  new_manager = λ config options n. (ok (config, client), n);
  raw_config = λ c. ok c;
  write_config = λ c. ok c.current_context;
  new_logger = λ n. (ok tt, n);
  registration = record {
    new_discovery_client = λ config n. (ok tt, n);
    server_resources = λ group_version n. (ok ("Cluster" ∷ []), n);
    complete = λ r n. (ok tt, n);
  };
  add_healthz_check = λ name n. (ok tt, n);
  add_readyz_check = λ name n. (err (errorf "no such check"), n);
  start = λ n. (ok tt, suc n);
}

abbrev system : System ℕ
system = record {
  create_temp = λ n. (ok "/tmp/1", n);
  write = λ file text n. (ok tt, n);
  remove = λ file n. n;
  stat = λ file n. (ok tt, n);
  run = λ path args n. (("", ok tt), n);
  wait_rounds = 1200;
}

libraries-IsQuiet : IsQuiet libraries system (λ n. n)
libraries-IsQuiet = record {
  get_config = λ n. refl;
  new_manager = λ config options n. refl;
  new_logger = λ n. refl;
  new_discovery_client = λ config n. refl;
  server_resources = λ group_version n. refl;
  complete = λ r n. refl;
  add_healthz_check = λ name n. refl;
  add_readyz_check = λ name n. refl;
}

main-Ends_example :
    Ends libraries system (λ n. n) 0 (main libraries system ("--namespace" ∷ "vcluster" ∷ []) 0)
main-Ends_example =
    main-Ends libraries system (λ n. n) libraries-IsQuiet ("--namespace" ∷ "vcluster" ∷ []) 0

options-namespace :
    (manager_options (record default_flags { namespace = "vcluster" })).default_namespaces
    ≡ "vcluster" ∷ []
unfolding manager_options namespaces_of
options-namespace = refl
