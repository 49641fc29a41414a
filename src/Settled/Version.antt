-- ===== src/Settled/Version.antt =====
-- `resolveOCPVersion`, where all is in place.
use osls_operator.Base.{
  String, ◌<>◌, ◌≡◌, refl, Bool, true, false, Option, some, [], ◌∷◌, Result, ok, err,
}
use osls_operator.Api.{OpenStackLightspeed}
use osls_operator.Api.Conditions.{Condition}
use osls_operator.Api.Kubernetes.{ObjectMeta}
use osls_operator.Shared.{get_raw_client}
use osls_operator.Platform.{Platform}
use osls_operator.Platform.Exec.{◌>>◌, pure, call, lift, context}
use osls_operator.Platform.Trace.{Any}
use osls_operator.OcpVersion.{parse_major_minor_version}
use osls_operator.OcpVersion.Detect.{parse_found, detect_ocp_version}
use osls_operator.Controller.Status.{set_condition, mark_true, set_active_version}
use osls_operator.Controller.Version.{
  ocp_rag_resolved, on_resolved, on_detected, detect_and_resolve, resolve_version,
}
use osls_operator.Settled.Rules.{
  Answers, Yields, Goes-pure, Goes-lift, Yields-call, Goes-try, Goes-bind, Goes-context,
  Yields-get_instance, Yields-modify_instance,
}
use osls_operator.Settled.Laws.{HasVersion}

module _ (P : Platform) (meta : ObjectMeta) (Good : P.State → Type 0) where
  pub set_condition-Yields : (c : Condition) → Yields Good meta [] Any (set_condition P c)
  set_condition-Yields c = Yields-modify_instance Good meta _ λ j e. e

  pub mark_true-Yields :
      (type message : String) → Yields Good meta [] Any (mark_true P type message)
  mark_true-Yields type message = Yields-modify_instance Good meta _ λ j e. e

  set_active_version-Yields : (v : String) → Yields Good meta [] Any (set_active_version P v)
  set_active_version-Yields v = Yields-modify_instance Good meta _ λ j e. e

module _ (P : Platform) (meta : ObjectMeta) (Good : P.State → Type 0)
    (get_config : Answers Good Any P.get_config) (new_client : Answers Good Any P.new_client) where
  pub get_raw_client-Yields : Yields Good meta [] Any (get_raw_client P)
  unfolding get_raw_client
  get_raw_client-Yields =
      Goes-bind (call P.get_config) _ (Yields-call Good meta _ get_config)
        λ _ _. Yields-call Good meta P.new_client new_client

module _ (P : Platform) (meta : ObjectMeta) (Good : P.State → Type 0)
    (get_config : Answers Good Any P.get_config) (new_client : Answers Good Any P.new_client)
    (get_cluster_version : Answers Good (HasVersion P) (P.get_cluster_version "version")) where
  parse_found-Yields :
      (found : Option String)
      → (text : String) × (version : String) × (found ≡ some text)
        × (parse_major_minor_version text ≡ ok version)
      → Yields Good meta [] Any (parse_found P found)
  unfolding parse_found
  parse_found-Yields found (text, version, is, parsed) = rw is (
      Goes-context ("failed to parse version " <> text) (lift (parse_major_minor_version text))
        (Goes-lift _ version parsed tt))

  detect-Yields : Yields Good meta [] Any (detect_ocp_version P)
  unfolding detect_ocp_version
  detect-Yields =
      Goes-bind (context "failed to get raw client" (get_raw_client P)) _
        (Goes-context "failed to get raw client" _
          (get_raw_client-Yields P meta Good get_config new_client))
        λ _ _.
          Goes-bind
            (context "failed to get ClusterVersion" (call (P.get_cluster_version "version"))) _
            (Goes-context "failed to get ClusterVersion" _
              (Yields-call Good meta (P.get_cluster_version "version") get_cluster_version))
            λ cluster_version (text, version, found, parsed).
              Goes-bind {R = λ (x : Option String). x ≡ some text}
                (context "failed to extract version from ClusterVersion" (
                  lift
                    (P.uns.nested_string cluster_version ("status" ∷ "desired" ∷ "version" ∷ []))))
                (parse_found P)
                (Goes-context "failed to extract version from ClusterVersion" _
                  (Goes-lift _ (some text) found refl))
                λ x is. parse_found-Yields x (text, version, is, parsed)

  on_resolved-Yields :
      (detected : String) (r : Result (String × Bool))
      → Yields Good meta [] Any (on_resolved P detected r)
  unfolding on_resolved
  on_resolved-Yields detected (err e) =
      Goes-bind _ _ (set_condition-Yields P meta Good _)
        λ _ _. Goes-bind _ _ (set_active_version-Yields P meta Good "") λ _ _. Goes-pure "" tt
  on_resolved-Yields detected (ok (active, fallback)) =
      let condition = ocp_rag_resolved P detected fallback active in
      Goes-bind (set_active_version P active) (λ _. set_condition P condition >> pure active)
        (set_active_version-Yields P meta Good active)
        λ _ _. Goes-bind _ _ (set_condition-Yields P meta Good condition) λ _ _. Goes-pure active tt

  on_detected-Yields :
      (i : OpenStackLightspeed) (r : Result String) → Yields Good meta [] Any (on_detected P i r)
  unfolding on_detected
  on_detected-Yields i (ok detected) = on_resolved-Yields detected _
  on_detected-Yields i (err e) =
      Goes-bind _ _ (set_condition-Yields P meta Good _)
        λ _ _. Goes-bind _ _ (set_active_version-Yields P meta Good "") λ _ _. Goes-pure "" tt

  detect_and_resolve-Yields :
      (i : OpenStackLightspeed) (enabled : Bool)
      → Yields Good meta [] Any (detect_and_resolve P i enabled)
  unfolding detect_and_resolve
  detect_and_resolve-Yields i false =
      Goes-bind _ _ (mark_true-Yields P meta Good _ _)
        λ _ _. Goes-bind _ _ (set_active_version-Yields P meta Good "") λ _ _. Goes-pure "" tt
  detect_and_resolve-Yields i true =
      Goes-bind _ _ (Goes-try _ detect-Yields) λ r _. on_detected-Yields i r

  -- `resolveOCPVersion` returns.
  pub resolve_version-Yields : Yields Good meta [] Any (resolve_version P)
  unfolding resolve_version
  resolve_version-Yields =
      Goes-bind _ _ (Yields-get_instance Good meta)
        λ i _. detect_and_resolve-Yields i i.spec.enable_ocp_rag
