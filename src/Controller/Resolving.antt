-- ===== src/Controller/Resolving.antt =====
-- What `resolveOCPVersion` returns and what it leaves in the instance.
use osls_operator.Base.{
  ◌≡◌, refl, ap, ◌∙◌, arith, String, Bool, true, false, ◌⊎◌, inl, inr, Option, none, some, List, [],
  ◌∷◌, Result, ok, err, Error, Result-cases,
}
use osls_operator.Api.{OpenStackLightspeed, OpenStackLightspeedStatus}
use osls_operator.Json.{Fields}
use osls_operator.Shared.{get_raw_client}
use osls_operator.Platform.{Platform}
use osls_operator.Platform.Exec.{
  Outcome, returns, fails, panics, World, Event, resume, to_try, >>=-returns, wrap_outcome,
  of_result, context, call, lift,
}
use osls_operator.OcpVersion.{resolve_ocp_version, parse_major_minor_version}
use osls_operator.OcpVersion.Resolve.{resolve-parse-ne_err}
use osls_operator.OcpVersion.Detect.{parse_found, detect_ocp_version}
use osls_operator.Controller.Version.{on_resolved, on_detected, detect_and_resolve, resolve_version}

wrap-of_result :
    {A : Type 0} (text : String) (r : Result A) (a : A)
    → wrap_outcome text (of_result r) ≡ returns a
    → r ≡ ok a
wrap-of_result text (ok b) a h = ground arith
wrap-of_result text (err e) a h = absurd (ground arith)

module _ (P : Platform) where
  -- The trace is as it was, and of the instance only the status differs.
  abbrev pub StatusOnly : World P.State → World P.State → Type 0
  StatusOnly w v =
      (v.trace ≡ w.trace)
      × (status : OpenStackLightspeedStatus) × (v.instance ≡ record w.instance { status = status })

  pub detect-Reads :
      (w : World P.State)
      → ((detect_ocp_version P w).1.trace ≡ w.trace)
        × ((detect_ocp_version P w).1.instance ≡ w.instance)
  unfolding detect_ocp_version
  detect-Reads w = ground arith

  parse_found-parsed :
      (found : Option String) (w : World P.State) (d : String)
      → (parse_found P found w).0 ≡ returns d
      → (text : String) × (parse_major_minor_version text ≡ ok d)
  unfolding parse_found
  parse_found-parsed none w d h = absurd (ground arith)
  parse_found-parsed (some text) w d h =
      (text, wrap-of_result _ (parse_major_minor_version text) d h)

  abbrev version_field : Fields → Result (Option String)
  version_field cluster_version =
      P.uns.nested_string cluster_version ("status" ∷ "desired" ∷ "version" ∷ [])

  -- A detected version is what a text was parsed to.
  detect-parsed :
      (w : World P.State) (d : String)
      → (detect_ocp_version P w).0 ≡ returns d
      → (text : String) × (parse_major_minor_version text ≡ ok d)
  unfolding detect_ocp_version parse_found
  detect-parsed w d h =
      let (_, _, second) =
        >>=-returns (context "failed to get raw client" (get_raw_client P)) _ w h in
      let (cluster_version, _, third) =
        >>=-returns
          (context "failed to get ClusterVersion" (call (P.get_cluster_version "version"))) _ _
          (rw second at h) in
      let (found, _, last) =
        >>=-returns
          (context "failed to extract version from ClusterVersion"
            (lift (version_field cluster_version)))
          (parse_found P) _ (rw third at rw second at h) in
      parse_found-parsed found _ d (rw last at rw third at rw second at h)

  -- How the version to use comes about, for the cluster as the run finds it.
  pub data Settled (w : World P.State) (version : String) : Type 0 where
    disabled : w.instance.spec.enable_ocp_rag ≡ false → version ≡ "" → Settled w version
    undetected :
        (e : Error) → (detect_ocp_version P w).0 ≡ fails e → version ≡ "" → Settled w version
    resolved :
        (detected : String) (is_fallback : Bool)
        → (detect_ocp_version P w).0 ≡ returns detected
        → resolve_ocp_version detected w.instance.spec.ocp_rag_version_override true
          ≡ ok (version, is_fallback)
        → Settled w version

  -- The version is returned and in the status, and nothing but the status has changed.
  abbrev pub Records : World P.State → Outcome String × World P.State → Type 0
  Records w r =
      (version : String) × Settled w version
      × (r.0 ≡ returns version)
      × (r.1.instance.status.active_ocp_rag_version ≡ version)
      × StatusOnly w r.1

  on_resolved_lem :
      (w : World P.State) (detected active : String) (fallback : Bool)
      → ((on_resolved P detected (ok (active, fallback)) w).0 ≡ returns active)
        × ((on_resolved P detected
              (ok (active, fallback))
              w).1.instance.status.active_ocp_rag_version
            ≡ active)
        × StatusOnly w (on_resolved P detected (ok (active, fallback)) w).1
  unfolding on_resolved
  on_resolved_lem w detected active true = (refl, refl, (refl, _, refl))
  on_resolved_lem w detected active false = (refl, refl, (refl, _, refl))

  on_resolution :
      (w : World P.State) (detected : String) (r : Result (String × Bool)) (active : String)
      (fallback : Bool)
      → r ≡ ok (active, fallback)
      → ((on_resolved P detected r w).0 ≡ returns active)
        × ((on_resolved P detected r w).1.instance.status.active_ocp_rag_version ≡ active)
        × StatusOnly w (on_resolved P detected r w).1
  on_resolution w detected r active fallback e = rw e (on_resolved_lem w detected active fallback)

  StatusOnly-from :
      {s t u : List Event} {i j k : OpenStackLightspeed}
      → (t ≡ s) × (j ≡ i)
      → (u ≡ t) × (status : OpenStackLightspeedStatus) × (k ≡ record j { status = status })
      → (u ≡ s) × (status : OpenStackLightspeedStatus) × (k ≡ record i { status = status })
  StatusOnly-from (t, i) (grown, status, e) =
      (grown ∙ t, status, e ∙ ap (λ (x : OpenStackLightspeed). record x { status = status }) i)

  resolve-ok :
      (w : World P.State) (d override : String)
      → (detect_ocp_version P w).0 ≡ returns d
      → (v : String) × (f : Bool) × (resolve_ocp_version d override true ≡ ok (v, f))
  resolve-ok w d override e =
      let (text, parsed) = detect-parsed w d e in
      elim (Result-cases (resolve_ocp_version d override true)) [
        | inl ((v, f), is) ↦ (v, f, is)
        | inr (x, is) ↦ absurd (resolve-parse-ne_err text d override true x parsed is)
      ]

  -- The run panics and has written nothing, or it records a version.
  abbrev pub PanicsOrRecords : World P.State → Outcome String × World P.State → Type 0
  PanicsOrRecords w r = ((r.0 ≡ panics) × (r.1.trace ≡ w.trace)) ⊎ Records w r

  on_detected_lem :
      (w : World P.State) (o : Outcome String)
      → w.instance.spec.enable_ocp_rag ≡ true
      → (detect_ocp_version P w).0 ≡ o
      → PanicsOrRecords w (resume (on_detected P w.instance) (to_try o) (detect_ocp_version P w).1)
  unfolding on_detected
  on_detected_lem w panics on e = inl (refl, (detect-Reads w).0)
  on_detected_lem w (fails x) on e =
      inr ("", undetected x e refl, refl, refl, StatusOnly-from (detect-Reads w) (refl, _, refl))
  on_detected_lem w (returns d) on e =
      let (v, f, is) = resolve-ok w d w.instance.spec.ocp_rag_version_override e in
      let here : resolve_ocp_version d w.instance.spec.ocp_rag_version_override
            w.instance.spec.enable_ocp_rag
          ≡ ok (v, f) =
        rw on is in
      let (ret, active, only) = on_resolution (detect_ocp_version P w).1 d _ v f here in
      inr (v, resolved d f e is, ret, active, StatusOnly-from (detect-Reads w) only)

  by_enabled :
      (w : World P.State) (enabled : Bool)
      → w.instance.spec.enable_ocp_rag ≡ enabled
      → PanicsOrRecords w (detect_and_resolve P w.instance enabled w)
  unfolding detect_and_resolve
  by_enabled w true on = on_detected_lem w (detect_ocp_version P w).0 on refl
  by_enabled w false off = inr ("", disabled off refl, refl, refl, (refl, _, refl))

  -- `resolveOCPVersion` writes nothing to the cluster. Unless a call panics, it changes only
  -- the instance's status and leaves in it the version that it returns: the empty one where
  -- OCP RAG is disabled or the detection fails, and otherwise the one that `ResolveOCPVersion`
  -- makes of the detected version, which never is an error.
  pub resolve_version_lem : (w : World P.State) → PanicsOrRecords w (resolve_version P w)
  unfolding resolve_version
  resolve_version_lem w = by_enabled w w.instance.spec.enable_ocp_rag refl
