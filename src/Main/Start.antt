-- ===== src/Main/Start.antt =====
-- cmd/main.go: `init` and `main`; api/v1beta1: what is registered with the scheme.
use osls_operator.Base.{String, List, [], ◌∷◌}
use osls_operator.Api.{OpenStackLightspeedDefaults}
use osls_operator.Platform.{Platform, Call}
use osls_operator.Main.{get_watch_namespaces, setup_defaults}
use osls_operator.Main.Launch.{
  Progress, Launch, ◌>>=◌, ◌>>◌, result_progress, settle, or_die, must, stage, enter,
}
use osls_operator.Main.Flags.{Flags, declared, parse_flags}
use osls_operator.Main.Manager.{ManagerOptions, manager_options, ControllerSetup, controller_setup}

-- `scheme.Builder`, with the types that are registered
pub record SchemeBuilder : Type 0 where
  pub group : String
  pub version : String
  pub types : List String

-- `GroupVersion` and `SchemeBuilder` of api/v1beta1, after its `init`
abbrev pub scheme_builder : SchemeBuilder
scheme_builder = record {
  group = "lightspeed.openstack.org";
  version = "v1beta1";
  types = "OpenStackLightspeed" ∷ "OpenStackLightspeedList" ∷ [];
}

-- The libraries that the process starts with: the packages of the schemes, the flags of zap and of
-- controller-runtime, the manager of controller-runtime and `util.GetEnvVar`.
pub record Launcher (P : Platform) : Type 1 where
  pub State : Type 0
  pub Manager : Type 0
  pub get_env_var : String → String → String
  pub add_client_go_to_scheme : Call State Unit
  pub add_olm_to_scheme : Call State Unit
  pub add_to_scheme : SchemeBuilder → Call State Unit
  pub accepts_flag : String → String → Progress (Unit {0})
  pub get_config_or_die : State → Progress (Unit {0}) × State
  pub new_manager : ManagerOptions → Call State Manager
  -- the builder of a controller, and its `Complete`
  pub complete : Manager → ControllerSetup P → Call State Unit
  pub add_healthz_check : Manager → String → Call State Unit
  pub add_readyz_check : Manager → String → Call State Unit
  pub start : Manager → Call State Unit

-- The calls of `main` that change the process, with what they are given.
pub data Stage (P : Platform) : Type 0 where
  making_manager : ManagerOptions → Stage P
  defaults_set : OpenStackLightspeedDefaults → Stage P
  registering : ControllerSetup P → Stage P
  adding_healthz adding_readyz : String → Stage P
  starting : Stage P

module _ (P : Platform) (L : Launcher P) where
  abbrev pub Step : Type 0 → Type 0
  Step = Launch L.State (Stage P)

  -- `init`
  unfoldable pub init : Step (Unit {0})
  init = do
    must L.add_client_go_to_scheme
    must L.add_olm_to_scheme
    must (L.add_to_scheme scheme_builder)

  -- `SetupWithManager`, of a reconciler that reads these defaults
  unfoldable pub setup_with_manager : OpenStackLightspeedDefaults → L.Manager → Step (Unit {0})
  unfolding controller_setup
  setup_with_manager defaults manager =
      let setup = controller_setup P defaults in
      stage (registering setup) (L.complete manager setup)

  -- `main`, with its manager
  unfoldable pub run_manager : L.Manager → Step (Unit {0})
  unfolding setup_with_manager setup_defaults
  run_manager manager = do
    let defaults = setup_defaults L.get_env_var
    enter (defaults_set defaults)
    setup_with_manager defaults manager
    stage (adding_healthz "healthz") (L.add_healthz_check manager "healthz")
    stage (adding_readyz "readyz") (L.add_readyz_check manager "readyz")
    stage starting (L.start manager)

  -- `main`, with the options of its manager
  unfoldable pub launch : ManagerOptions → Step (Unit {0})
  unfolding run_manager
  launch options = do
    or_die L.get_config_or_die
    manager ← stage (making_manager options) (L.new_manager options)
    run_manager manager

  -- `main`, with the flags
  unfoldable pub watch : Flags → Step (Unit {0})
  unfolding get_watch_namespaces manager_options launch
  watch flags = do
    namespaces ← settle (result_progress (get_watch_namespaces P))
    launch (manager_options flags namespaces)

  -- `main`, with the arguments of the command line
  unfoldable pub main : List (String × String) → Step (Unit {0})
  unfolding parse_flags watch
  main args = do flags ← settle (parse_flags L.accepts_flag args declared); watch flags

  -- The process: `init`, and then `main`.
  unfoldable pub process : List (String × String) → Step (Unit {0})
  unfolding init main
  process args = do init; main args
