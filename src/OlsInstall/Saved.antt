-- ===== src/OlsInstall/Saved.antt =====
-- The mutate function of the Subscription.
use osls_operator.Base.{
  String, ◌<>◌, ◌≡◌, ◌≢◌, ◌⊎◌, refl, sym, ap, ◌∙◌, arith, ◌==◌, eq_iff, eq_refl, inl, inr, true,
  false, Bool-cases, [], ◌∷◌, some, Error, Result, ok, err, if◌then◌else◌,
}
use osls_operator.Api.{OpenStackLightspeed}
use osls_operator.Api.Kubernetes.{OwnerReference, Subscription, SubscriptionSpec}
use osls_operator.Shared.{is_owned_by}
use osls_operator.Base.Text.{differs}
use mathlib.Core.Option.{get_or}
use osls_operator.Platform.{Platform}
use osls_operator.Platform.Exec.{Outcome, returns-injective, returns, fails}
use osls_operator.OlsInstall.Version.{recommended_version, get_recommended_ols_version}
use osls_operator.OlsInstall.Subscription.{
  instance_owner_reference, starting_csv_name, write_starting_csv, put_spec, set_starting_csv_to,
  set_starting_csv, set_owner_references, subscription_spec, mutate_subscription,
}

module _ (P : Platform) (i : OpenStackLightspeed) where
  -- The specification that the operator wants, for a recommended version.
  abbrev pub wanted_spec : String → SubscriptionSpec
  wanted_spec version =
      if version == ""
      then subscription_spec P i
      else record (subscription_spec P i) { starting_csv = starting_csv_name version }

  -- A subscription with the specification and the owner that the operator wants.
  abbrev pub wanted : String → Subscription → Subscription
  wanted version s = record s {
    spec = some (wanted_spec version);
    meta = record s.meta { owner_references = instance_owner_reference i };
  }

  abbrev WantedOrError : Subscription → Result String → Outcome Subscription → Type 0
  WantedOrError s (ok version) o = o ≡ returns (wanted version s)
  WantedOrError s (err e) o = o ≡ fails e

  set_owner-lem :
      (s : Subscription) (r : Result String)
      → WantedOrError s r (
          set_owner_references
            (instance_owner_reference i)
            (set_starting_csv_to (record s { spec = some (subscription_spec P i) }) r))
  unfolding set_owner_references set_starting_csv_to put_spec write_starting_csv
  set_owner-lem s (err e) = refl
  set_owner-lem s (ok version) = elim (Bool-cases (version == "")) [
    | inl latest ↦ rw latest refl
    | inr given ↦ rw given refl
  ]

  mutate_subscription-wanted :
      (s : Subscription)
      → WantedOrError s (get_recommended_ols_version P) (mutate_subscription P i s)
  unfolding mutate_subscription set_starting_csv
  mutate_subscription-wanted s = set_owner-lem s (get_recommended_ols_version P)

  wanted-fixed : (v : String) (s t : Subscription) → wanted v s ≡ t → wanted v t ≡ t
  wanted-fixed v s t e = rw (sym e) refl

  settled :
      (s t : Subscription) (r : Result String)
      → r ≡ get_recommended_ols_version P
      → mutate_subscription P i s ≡ returns t
      → WantedOrError s r (mutate_subscription P i s)
      → WantedOrError t r (mutate_subscription P i t)
      → mutate_subscription P i t ≡ returns t
  settled s t (ok v) e h first second =
      second ∙ ap returns (wanted-fixed v s t (returns-injective (sym first ∙ h)))
  settled s t (err x) e h first second = absurd (ground arith)

  -- A subscription that the mutate function has returned is left as it is by another run of
  -- it.
  pub mutate_subscription_idempotent :
      (s t : Subscription)
      → mutate_subscription P i s ≡ returns t
      → mutate_subscription P i t ≡ returns t
  mutate_subscription_idempotent s t h =
      settled s t (get_recommended_ols_version P) refl h (mutate_subscription-wanted s)
        (mutate_subscription-wanted t)

  -- What OLM is asked for: the operator's package from the instance's catalog, to be approved by
  -- hand.
  pub record AsksFor (start : String) (spec : SubscriptionSpec) : Type 0 where
    pub channel : spec.channel ≡ "stable"
    pub approval : spec.install_plan_approval ≡ P.approval_manual
    pub source : spec.catalog_source ≡ i.spec.catalog_source_name
    pub source_namespace : spec.catalog_source_namespace ≡ i.spec.catalog_source_namespace
    pub operator_package : spec.package_name ≡ "lightspeed-operator"
    pub starts : spec.starting_csv ≡ start

  -- The subscription `t` is the instance's alone, and is `s` but for its specification and owners.
  pub record TakesOver (start : String) (s t : Subscription) : Type 0 where
    pub asks : (spec : SubscriptionSpec) × (t.spec ≡ some spec) × AsksFor start spec
    pub owned : is_owned_by t.meta i.meta ≡ true
    pub sole :
        (ref : OwnerReference) × (t.meta.owner_references ≡ ref ∷ [])
        × (ref.uid ≡ i.meta.uid)
        × (ref.api_version ≡ i.api_version)
        × (ref.kind ≡ i.kind)
        × (ref.name ≡ i.meta.name)
        × (ref.controller ≡ some true)
        × (ref.block_owner_deletion ≡ some true)
    pub kept : record t.meta { owner_references = s.meta.owner_references } ≡ s.meta
    pub plan : t.install_plan_ref ≡ s.install_plan_ref

  abbrev Saves : String → Subscription → Outcome Subscription → Type 0
  Saves start s o = (t : Subscription) × (o ≡ returns t) × TakesOver start s t

  -- By the text of OPENSHIFT_LIGHTSPEED_OPERATOR_VERSION, which is "" where it is not set.
  abbrev pub SavesFor : String → Subscription → Outcome Subscription → Type 0
  SavesFor text s o =
      ((text ≡ "") × ((e : Error) × (o ≡ fails e)))
      ⊎ (((text ≡ "latest") × Saves "" s o)
          ⊎ ((text ≢ "") × (text ≢ "latest") × Saves ("lightspeed-operator" <> (".v" <> text)) s o))

  wanted_takes :
      (version start : String) (s : Subscription)
      → AsksFor start (wanted_spec version)
      → TakesOver start s (wanted version s)
  unfolding instance_owner_reference is_owned_by
  wanted_takes version start s asks = record {
    asks = (wanted_spec version, refl, asks);
    owned = rw (eq_refl i.meta.uid) refl;
    sole = (_, refl, refl, refl, refl, refl, refl, refl);
    kept = refl;
    plan = refl;
  }

  latest_asks : AsksFor "" (wanted_spec "")
  latest_asks = record {
    channel = refl;
    approval = refl;
    source = refl;
    source_namespace = refl;
    operator_package = refl;
    starts = refl;
  }

  version_asks :
      (version : String)
      → (version == "") ≡ false
      → AsksFor ("lightspeed-operator" <> (".v" <> version)) (wanted_spec version)
  version_asks version e = rw e (record {
    channel = refl;
    approval = refl;
    source = refl;
    source_namespace = refl;
    operator_package = refl;
    starts = refl;
  })

  saves_for :
      (text : String) (s : Subscription)
      → WantedOrError s (recommended_version text) (mutate_subscription P i s)
      → SavesFor text s (mutate_subscription P i s)
  unfolding recommended_version
  saves_for text s o = elim (Bool-cases (text == "")) [
    | inl none_set ↦ inl ((eq_iff text "").0 none_set, (_, rw none_set at o))
    | inr e ↦ elim (Bool-cases (text == "latest")) [
      | inl l ↦ inr (
          inl (
            (eq_iff text "latest").0 l,
            (wanted "" s, (rw l at rw e at o), wanted_takes "" "" s latest_asks),
          ))
      | inr l ↦
          let start = "lightspeed-operator" <> (".v" <> text) in
          inr (
            inr (
              differs text "" e,
              differs text "latest" l,
              (wanted text s, (rw l at rw e at o), wanted_takes text start s (version_asks text e)),
            ))
    ]
  ]

  -- By the text of OPENSHIFT_LIGHTSPEED_OPERATOR_VERSION: where it is empty or not set, the mutate
  -- function of the Subscription fails. Otherwise, whatever subscription is in the cluster, it asks
  -- OLM for the operator's package in the channel "stable" of the instance's catalog source, with
  -- manual approval, and names the CSV of that version as the one to start from, or none for
  -- "latest"; it makes the instance the one owner, as the controller and blocking its deletion; and
  -- it leaves the rest of the subscription.
  pub mutate_subscription_lem :
      (s : Subscription)
      → SavesFor
          (get_or (P.lookup_env "OPENSHIFT_LIGHTSPEED_OPERATOR_VERSION") "")
          s
          (mutate_subscription P i s)
  unfolding get_recommended_ols_version
  mutate_subscription_lem s = saves_for _ s (mutate_subscription-wanted s)
