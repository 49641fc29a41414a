-- ===== src/Main/Manager.antt =====
-- cmd/main.go: what is handed to the manager of controller-runtime; and
-- openstacklightspeed_controller.go: `SetupWithManager`, what is registered with it.
use osls_operator.Base.{String, Bool, Option, none, some, List, [], ◌∷◌, ℕ, contains, if◌then◌else◌}
use osls_operator.Api.{OpenStackLightspeedDefaults}
use osls_operator.Api.Kubernetes.{ObjectKey, ReconcileResult}
use osls_operator.Platform.{Platform}
use osls_operator.Platform.Exec.{Exec}
use osls_operator.Controller.Notify.{notify_all_openstack_lightspeeds}
use osls_operator.Controller.Reconcile.{reconcile}
use osls_operator.Main.Flags.{Flags}

-- `tls.Config`, as far as it is set
pub record TlsConfig : Type 0 where
  pub min_version : ℕ
  pub next_protos : List String

-- `tls.VersionTLS13`
abbrev pub version_tls13 : ℕ
version_tls13 = 772

-- The function that is appended to `tlsOpts`.
unfoldable pub restrict_tls : Bool → TlsConfig → TlsConfig
restrict_tls enable_http2 c =
    let restricted = record c { min_version = version_tls13 } in
    if enable_http2 then restricted else record restricted { next_protos = "http/1.1" ∷ [] }

-- `filters.WithAuthenticationAndAuthorization`, the one filter that is used
pub data FilterProvider : Type 0 where
  with_authentication_and_authorization : FilterProvider

-- `metricsserver.Options`
pub record MetricsOptions : Type 0 where
  pub bind_address : String
  pub secure_serving : Bool
  pub tls_opts : List (TlsConfig → TlsConfig)
  pub filter_provider : Option FilterProvider

abbrev pub tls_opts_of : Flags → List (TlsConfig → TlsConfig)
tls_opts_of flags = restrict_tls flags.enable_http2 ∷ []

-- `metricsServerOptions`
unfoldable pub metrics_server_options : Flags → MetricsOptions
metrics_server_options flags = record {
  bind_address = flags.metrics_addr;
  secure_serving = flags.secure_metrics;
  tls_opts = tls_opts_of flags;
  filter_provider =
      if flags.secure_metrics then some with_authentication_and_authorization else none;
}

-- `defaultNamespaces`, a map to `cache.Config{}` only, as its keys
unfoldable pub default_namespaces : List String → List String → List String
default_namespaces [] keys = keys
default_namespaces (namespace ∷ namespaces) keys =
    default_namespaces namespaces (if contains keys namespace then keys else namespace ∷ keys)

-- `ctrl.Options`, and the options of the webhook server in it
pub record ManagerOptions : Type 0 where
  pub metrics : MetricsOptions
  pub webhook_tls_opts : List (TlsConfig → TlsConfig)
  pub health_probe_bind_address : String
  pub leader_election : Bool
  pub leader_election_id : String
  pub cache_default_namespaces : List String

unfoldable pub manager_options : Flags → List String → ManagerOptions
unfolding metrics_server_options default_namespaces
manager_options flags namespaces = record {
  metrics = metrics_server_options flags;
  webhook_tls_opts = tls_opts_of flags;
  health_probe_bind_address = flags.probe_addr;
  leader_election = flags.enable_leader_election;
  leader_election_id = "c83b0a4f.lightspeed.openstack.org";
  cache_default_namespaces = default_namespaces namespaces [];
}

-- A kind of objects: group, version and kind.
pub record GroupVersionKind : Type 0 where
  pub group : String
  pub version : String
  pub kind : String

-- `predicate.ResourceVersionChangedPredicate`, the one that is used
pub data Predicate : Type 0 where
  resource_version_changed : Predicate

module _ (P : Platform) where
  -- `Watches`, with `EnqueueRequestsFromMapFunc`: the function from the namespace of an object.
  pub record Watch : Type 0 where
    pub object : GroupVersionKind
    pub requests : String → Exec P.State (List ObjectKey)
    pub predicate : Predicate

  -- What the builder of a controller is given.
  pub record ControllerSetup : Type 0 where
    pub for_object : GroupVersionKind
    pub owns : List GroupVersionKind
    pub watches : List Watch
    pub reconciler : ObjectKey → Exec P.State ReconcileResult

  abbrev pub olm_kind : String → GroupVersionKind
  olm_kind kind = record { group = "operators.coreos.com"; version = "v1alpha1"; kind = kind }

  -- What `SetupWithManager` hands to the builder.
  unfoldable pub controller_setup : OpenStackLightspeedDefaults → ControllerSetup
  controller_setup defaults = record {
    for_object = record {
      group = "lightspeed.openstack.org";
      version = "v1beta1";
      kind = "OpenStackLightspeed";
    };
    owns = olm_kind "ClusterServiceVersion" ∷ olm_kind "Subscription" ∷ [];
    watches =
        record {
          object = olm_kind "InstallPlan";
          requests = notify_all_openstack_lightspeeds P;
          predicate = resource_version_changed;
        }
        ∷ record {
          object = record {
            group = "config.openshift.io";
            version = "v1";
            kind = "ClusterVersion";
          };
          requests = notify_all_openstack_lightspeeds P;
          predicate = resource_version_changed;
        }
        ∷ [];
    reconciler = reconcile P defaults;
  }
