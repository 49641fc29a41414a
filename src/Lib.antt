-- ===== src/Lib.antt =====
-- The OpenStack Lightspeed operator: a Kubernetes operator that installs the OpenShift Lightspeed
-- (OLS) operator through OLM and configures it, with one OLSConfig, for OpenStack.
--
-- The parts, and the files that model them (paths from the repository's root):
--   api/v1beta1 (the resource OpenStackLightspeed, its defaults and conditions)
--     Api, Api/Conditions; the fields of Kubernetes and OLM types that are used: Api/Kubernetes
--   internal/controller/ocp_version.go
--     OcpVersion (ParseMajorMinorVersion, the names of a version, ResolveOCPVersion),
--     OcpVersion/Scan (the regular expression as a scanner), OcpVersion/Detect (DetectOCPVersion);
--     proofs in OcpVersion/Parse, Again, Names and Resolve
--   internal/controller/funcs.go
--     Shared (IsOwnedBy, GetRawClient), SystemPrompt (the embedded system_prompt.txt),
--     OlsConfig/Get (GetOLSConfig), Remove (RemoveOLSConfig), Rag (BuildRAGConfigs), Patch
--     (PatchOLSConfig), Ready (IsOLSConfigReady, OLSConfigPing), Labels (maps of labels);
--     proofs in OlsConfig/Removal, Writes, Patched, Labelled, Sources and Pinged
--   internal/controller/ols_install.go
--     OlsInstall/Version, Csv, Plan, Subscription and Operator, one for each object of OLM and
--     Operator for EnsureOLSOperatorInstalled and UninstallInstanceOwnedOLSOperator;
--     proofs in OlsInstall/Reads, Selected, Success, Installing, Uninstalling, Answers,
--     Uninstalled, Order, Framed, Saved, Existing and Found
--   internal/controller/openstacklightspeed_controller.go
--     Controller/Reconcile (Reconcile), Version (resolveOCPVersion), Delete (reconcileDelete),
--     Notify (NotifyAllOpenStackLightspeeds), Status (writes to the instance in memory);
--     proofs in Controller/Run, Live, Removing, First, Takes, Deleting, Persist, Resolving,
--     Ends, Requests and Defaults; SetupWithManager in Main/Manager and Main/Start
--   cmd/main.go, and SetupDefaults, IsReady and the scheme builder of api/v1beta1
--     Main (getWatchNamespaces, SetupDefaults, IsReady), Main/Flags (the flags), Main/Manager (the
--     options of the manager), Main/Start (init and main), Main/Launch (a process that goes on,
--     exits or crashes); proofs in Main/Namespaces, Tasks, Registers,
--     Boots and Secure
-- Five trees are about whole runs of Reconcile: Cycle is an abstract state machine of the writes
-- and results of a run, which Reconcile refines, method by method; Readiness relates IsReady to
-- what the run has done, under the laws that Readiness/Laws names; Settled has the runs for a live
-- instance on a cluster that answers well (Settled/Laws), with one rule for each way to build a
-- method (Settled/Rules), and Leaving those for a deleted one (Leaving/Laws); History has runs in
-- any order, with notifications and what others do to the cluster between them.
-- Base holds the shared names, Go's errors and strings; Json the content of an unstructured
-- object; Tests a cluster in memory and the listed theorems at concrete inputs.
--
-- How the parts interact: `reconcile` gets the instance, and with a deferred patch of it runs
-- `reconcile_body`: the conditions, `resolve_version`, and then `reconcile_delete` (which calls
-- `remove_olsconfig` and `uninstall_instance_owned_ols_operator`) or `reconcile_live` (the
-- finalizer, the defaults, `ensure_ols_operator_installed`, the OLSConfig by `patch_olsconfig`,
-- and `is_olsconfig_ready`). A Go method is a function of the state that returns a value, returns
-- an error or panics (Platform/Exec); `if err != nil { return … }` is its bind, `try` is a call
-- whose error is looked at. The state is the cluster, the instance in memory, and the trace of the
-- calls that write to the cluster, which is bookkeeping for the theorems: no code reads it.
--
-- What the operator calls and does not implement is a parameter, the record `Platform`: the API
-- server through controller-runtime, controllerutil, the condition and helper packages of
-- lib-common, the unstructured package, the environment and random numbers. Between two calls the
-- cluster may change in any way: a call maps any state to any answer and any state. CreateOrUpdate
-- and CreateOrPatch are given their mutate functions. The start of the process has such a record
-- too, `Launcher` in Main/Start. What the theorems on PatchOLSConfig need of the unstructured
-- package is `IsLawful` (OlsConfig/Writes), and what Readiness needs of the condition package is
-- `IsLawful` (Readiness/Laws); both are proved of an implementation in Tests.
--
-- Bounds and fuel: strconv.FormatInt runs on fuel 20, and Base/Decimal reads back every number
-- below 2^63; all other recursion is structural.
--
-- What the model leaves out or simplifies: logging, contexts and schemes; a nil slice or map is an
-- empty one, so that PatchOLSConfig's test of nil conditions is one of empty conditions; maps are
-- association lists; the slice of a UID to five bytes is one to five characters (UIDs are ASCII);
-- an error is its message and its reason; the command line is taken apart into names and values
-- before `flag.Parse`, and the map of namespaces, whose values are all the same, is its keys. The
-- deep copies are generated, GetLogger only logs, and the manifests hold no program logic: they are
-- not modelled.
pub mod Base
pub mod Json
pub mod Api
pub mod Platform
pub mod Shared
pub mod OcpVersion
pub mod OlsConfig
pub mod OlsInstall
pub mod SystemPrompt
pub mod Controller
pub mod Cycle
pub mod Settled
pub mod Leaving
pub mod Readiness
pub mod History
pub mod Main
pub mod Tests
