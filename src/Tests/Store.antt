-- ===== src/Tests/Store.antt =====
-- The platform of the tests, and what is in it.
use osls_operator.Base.{String, true, false, none, some, [], ◌∷◌, if◌then◌else◌, not_found}
use osls_operator.Base.Int.{pos}
use osls_operator.Json.{str, object, Fields, end, field}
use osls_operator.Api.{OpenStackLightspeed, OpenStackLightspeedDefaults}
use osls_operator.Api.Kubernetes.{Subscription, ClusterServiceVersion, InstallPlan}
use osls_operator.OlsInstall.Subscription.{new_meta}
use osls_operator.Platform.{Platform}
use osls_operator.Platform.Exec.{returns, World}
use osls_operator.Tests.Maps.{maps}
use osls_operator.Tests.Memory.{
  Cluster, conditions_lib, environment, has_text, drop_text, answers, find_subscription,
  save_subscription_in, save_config_in, rest, cluster_version,
}

abbrev pub memory : Platform
memory = record {
  uns = maps;
  conditions = conditions_lib;
  lookup_env = environment;
  finalizer = "openstack.org/lightspeed";
  add_finalizer = λ fs f. if has_text f fs then (fs, false) else (f ∷ fs, true);
  remove_finalizer = λ fs f. (drop_text f fs, has_text f fs);
  new_not_found = λ group resource name. record { reason = not_found; message = name };
  csv_phase_succeeded = "Succeeded";
  approval_manual = "Manual";
  State = Cluster;
  get_config = answers tt;
  new_client = answers tt;
  new_helper = λ i. answers tt;
  rand_int = answers 7;
  get_instance = λ key c. (returns c.stored, c);
  patch_instance = λ i c. (returns tt, record c { stored = i });
  list_instances = λ scope c. (returns (c.stored ∷ []), c);
  get_cluster_version = λ name. answers cluster_version;
  get_subscription = λ key c. (find_subscription c.subscription, c);
  create_or_update_subscription = λ s f c. save_subscription_in c s f c.subscription;
  list_csvs = λ namespace c. (returns c.csvs, c);
  update_csv = λ csv c. (returns tt, record c { csvs = csv ∷ rest c.csvs });
  delete_csv = λ csv c. (returns tt, record c { csvs = rest c.csvs });
  list_install_plans = λ namespace c. (returns c.plans, c);
  update_install_plan = λ plan c. (returns tt, record c { plans = plan ∷ rest c.plans });
  delete_install_plan = λ plan c. (returns tt, record c { plans = rest c.plans });
  list_olsconfigs = λ c. (returns c.configs, c);
  create_or_patch_olsconfig = λ o f c. save_config_in c o f c.configs;
  update_olsconfig = λ o c. (returns tt, record c { configs = o ∷ rest c.configs });
  delete_olsconfig = λ o c. (returns tt, record c { configs = rest c.configs });
}

abbrev pub defaults : OpenStackLightspeedDefaults
defaults = record { rag_image_url = "quay.io/rag"; max_tokens_for_response = pos 2048 }

abbrev pub live : OpenStackLightspeed
live = record {
  api_version = "lightspeed.openstack.org/v1beta1";
  kind = "OpenStackLightspeed";
  meta = record (new_meta "lightspeed" "openstack") {
    uid = "12345-abc";
    finalizers = "openstack.org/lightspeed" ∷ [];
  };
  spec = record {
    core = record {
      llm_endpoint = "https://llm.example";
      llm_endpoint_type = "openai";
      model_name = "gpt";
      llm_credentials = "llm-secret";
      tls_ca_cert_bundle = "ca-bundle";
      max_tokens_for_response = pos 0;
      catalog_source_namespace = "openshift-marketplace";
      catalog_source_name = "redhat-operators";
      llm_project_id = "project";
      llm_deployment_name = "";
      llm_api_version = "";
      feedback_disabled = true;
      transcripts_disabled = false;
    };
    rag_image = "";
    enable_ocp_rag = true;
    ocp_rag_version_override = "";
  };
  status = record { conditions = []; observed_generation = pos 0; active_ocp_rag_version = "" };
}

abbrev pub deleted : OpenStackLightspeed
deleted = record live { meta = record live.meta { deletion_timestamp = some "2026-01-01" } }

abbrev pub owned_csv : ClusterServiceVersion
owned_csv = record {
  meta = record (new_meta "lightspeed-operator.v1.0.0" "openstack") {
    owner_references =
        record {
          api_version = "lightspeed.openstack.org/v1beta1";
          kind = "OpenStackLightspeed";
          name = "lightspeed";
          uid = "12345-abc";
          controller = some true;
          block_owner_deletion = some true;
        }
        ∷ [];
  };
  phase = "Succeeded";
}

-- A CSV of somebody else's installation.
abbrev pub existing_csv : ClusterServiceVersion
existing_csv = record {
  meta = new_meta "lightspeed-operator.v0.9.0" "openshift-lightspeed";
  phase = "Succeeded";
}

abbrev pub plan : InstallPlan
plan = record {
  meta = new_meta "install-1" "openstack";
  cluster_service_version_names = "lightspeed-operator.v1.0.0" ∷ [];
  approved = false;
}

abbrev pub subscription : Subscription
subscription = record {
  meta = new_meta "lightspeed-operator-12345" "openstack";
  spec = none;
  install_plan_ref = some "install-1";
}

abbrev pub labelled : String → Fields
labelled owner =
    field "metadata"
      (object
        (field "labels" (object (field "openstack.org/lightspeed-owner-id" (str owner) end)) end))
      end

abbrev pub installed : OpenStackLightspeed → Cluster
installed i = record {
  stored = i;
  subscription = some subscription;
  csvs = owned_csv ∷ [];
  plans = plan ∷ [];
  configs = labelled "12345-abc" ∷ [];
}

abbrev pub start : Cluster → OpenStackLightspeed → World Cluster
start c i = record { cluster = c; trace = []; instance = i }
