-- ===== src/Tests/Starts.antt =====
-- The theorems on the start of the process, with a launcher in memory.
use osls_operator.Base.{◌≡◌, refl, ◌⊎◌, true, String, List, [], ◌∷◌, some, contains}
use osls_operator.Platform.{Call}
use osls_operator.Platform.Exec.{returns}
use osls_operator.Main.Launch.{Progress, goes_on, exits}
use osls_operator.Main.Flags.{Flags, declared}
use osls_operator.Main.Manager.{manager_options, with_authentication_and_authorization}
use osls_operator.Main.Start.{Launcher, process}
use osls_operator.Main.Boots.{Ran, process-Boots}
use osls_operator.Main.Secure.{MinTls13, Http1Only, Gives, manager_options_secure}
use osls_operator.Tests.Store.{memory}

-- The number of calls is all that the state keeps.
abbrev counts : {A : Type 0} → A → Call (List String) A
counts a s = (returns a, "call" ∷ s)

-- Flags that nobody has declared end the process.
abbrev unknown_flag : String → String → Progress (Unit {0})
unknown_flag name value = exits 2

abbrev launcher : Launcher memory
launcher = record {
  State = List String;
  Manager = Unit;
  get_env_var = λ name default. default;
  add_client_go_to_scheme = counts tt;
  add_olm_to_scheme = counts tt;
  add_to_scheme = λ builder. counts tt;
  accepts_flag = unknown_flag;
  get_config_or_die = λ s. (goes_on tt, s);
  new_manager = λ options. counts tt;
  complete = λ manager setup. counts tt;
  add_healthz_check = λ manager name. counts tt;
  add_readyz_check = λ manager name. counts tt;
  start = λ manager. counts tt;
}

abbrev args : List (String × String)
args = ("leader-elect", "true") ∷ ("metrics-bind-address", ":8443") ∷ []

abbrev given : Flags
given = record declared { metrics_addr = ":8443"; enable_leader_election = true }

process-Boots_example :
    let r = process memory launcher args (record { state = []; stages = [] }) in
    Ran memory launcher args [] r.1.stages r.0
process-Boots_example = process-Boots memory launcher args []

manager_options_secure_example :
    let o = manager_options given ("openstack" ∷ []) in
    MinTls13 o.webhook_tls_opts
    × MinTls13 o.metrics.tls_opts
    × ((Http1Only o.webhook_tls_opts × Http1Only o.metrics.tls_opts) ⊎ Gives "enable-http2" args)
    × (((o.metrics.secure_serving ≡ true)
          × (o.metrics.filter_provider ≡ some with_authentication_and_authorization))
        ⊎ Gives "metrics-secure" args)
    × ((x : String) → contains o.cache_default_namespaces x ≡ contains ("openstack" ∷ []) x)
unfolding osls_operator.Main.Flags.parse_flags
manager_options_secure_example =
    manager_options_secure unknown_flag args given ("openstack" ∷ []) refl
