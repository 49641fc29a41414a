-- ===== src/Platform/Exec.antt =====
-- Methods of the operator: they act on the cluster and on the instance in memory, and return a
-- value, return an error or panic. The calls that write are recorded, the newest first.
use osls_operator.Base.{arith, ◌≡◌, refl, String, List, ◌∷◌, Error, Result, ok, err, wrap}
use osls_operator.Json.{Fields}
use osls_operator.Api.{OpenStackLightspeed}
use osls_operator.Api.Kubernetes.{Subscription, ClusterServiceVersion, InstallPlan}

pub data Outcome {ℓ} (A : Type ℓ) : Type ℓ where
  returns : A → Outcome A
  fails : Error → Outcome A
  panics : Outcome A

-- A call that writes to the cluster, with the object that is handed over.
pub data Event : Type 0 where
  saved_subscription : Subscription → Event
  updated_csv : ClusterServiceVersion → Event
  deleted_csv : ClusterServiceVersion → Event
  updated_install_plan : InstallPlan → Event
  deleted_install_plan : InstallPlan → Event
  patched_olsconfig : Fields → Event
  updated_olsconfig : Fields → Event
  deleted_olsconfig : Fields → Event
  patched_instance : OpenStackLightspeed → Event

pub record World (S : Type 0) : Type 0 where
  pub cluster : S
  pub trace : List Event
  pub instance : OpenStackLightspeed

abbrev pub Exec : Type 0 → Type 0 → Type 0
Exec S A = World S → Outcome A × World S

abbrev pub resume : {S A B : Type 0} → (A → Exec S B) → Outcome A → Exec S B
resume f (returns a) w = f a w
resume f (fails e) w = (fails e, w)
resume f panics w = (panics, w)

module _ {S A B : Type 0} where
  infixl 5 ◌>>=◌ ◌>>◌
  -- an error or a panic ends the method
  abbrev pub ◌>>=◌ : Exec S A → (A → Exec S B) → Exec S B
  ◌>>=◌ m f w = resume f (m w).0 (m w).1

  abbrev pub ◌>>◌ : Exec S A → Exec S B → Exec S B
  m >> k = m >>= λ _. k

module _ {A : Type 0} where
  abbrev pub of_result : Result A → Outcome A
  of_result (ok a) = returns a
  of_result (err e) = fails e

  abbrev pub to_try : Outcome A → Outcome (Result A)
  to_try (returns a) = returns (ok a)
  to_try (fails e) = returns (err e)
  to_try panics = panics

  abbrev pub wrap_outcome : String → Outcome A → Outcome A
  wrap_outcome text (fails e) = fails (wrap text e)
  wrap_outcome text (returns a) = returns a
  wrap_outcome text panics = panics

module _ {S A : Type 0} where
  abbrev pub pure : A → Exec S A
  pure a w = (returns a, w)

  abbrev pub fail : Error → Exec S A
  fail e w = (fails e, w)

  abbrev pub panic : Exec S A
  panic w = (panics, w)

  -- a function of type `(A, error)`, whose error is returned as it is
  abbrev pub lift : Result A → Exec S A
  lift r w = (of_result r, w)

  -- a value that is computed, and may panic
  abbrev pub run : Outcome A → Exec S A
  run o w = (o, w)

  -- `if err != nil { return …, fmt.Errorf("…: %w", err) }`
  abbrev pub context : String → Exec S A → Exec S A
  context text m w = (wrap_outcome text (m w).0, (m w).1)

  -- a call that reads
  abbrev pub call : (S → Outcome A × S) → Exec S A
  call k w = let (r, s) = k w.cluster in (r, record w { cluster = s })

  -- a call that writes
  abbrev pub write : Event → (S → Outcome A × S) → Exec S A
  write e k w = let (r, s) = k w.cluster in (r, record w { cluster = s; trace = e ∷ w.trace })

  -- `a, err := m`, where the error is looked at
  abbrev pub try : Exec S A → Exec S (Result A)
  try m w = (to_try (m w).0, (m w).1)

module _ {S : Type 0} where
  abbrev pub get_instance : Exec S OpenStackLightspeed
  get_instance w = (returns w.instance, w)

  abbrev pub modify_instance : (OpenStackLightspeed → OpenStackLightspeed) → Exec S (Unit {0})
  modify_instance f w = (returns tt, record w { instance = f w.instance })

module _ {S A B : Type 0} where
  resume-returns :
      (f : A → Exec S B) (o : Outcome A) (w : World S) {b : B}
      → (resume f o w).0 ≡ returns b
      → (a : A) × (o ≡ returns a) × (resume f o w ≡ f a w)
  resume-returns f (returns a) w h = (a, refl, refl)
  resume-returns f (fails e) w h = cc
  resume-returns f panics w h = cc

  -- A method that returns has gone through its first step, and then is the rest.
  pub >>=-returns :
      (m : Exec S A) (f : A → Exec S B) (w : World S) {b : B}
      → ((m >>= f) w).0 ≡ returns b
      → (a : A) × ((m w).0 ≡ returns a) × ((m >>= f) w ≡ f a (m w).1)
  >>=-returns m f w h = resume-returns f (m w).0 (m w).1 h

pub returns-injective : {A : Type 0} {a b : A} → returns a ≡ returns b → a ≡ b
returns-injective h = ground arith
