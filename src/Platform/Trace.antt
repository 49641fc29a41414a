-- ===== src/Platform/Trace.antt =====
-- What a method may write and what it may return: one rule for each way to build a method.
use osls_operator.Base.{
  ◌≡◌, refl, Bool, true, false, List, ◌∷◌, Error, Result, ok, err, if◌then◌else◌,
}
use osls_operator.Api.{OpenStackLightspeed}
use osls_operator.Platform.Exec.{
  Outcome, returns, fails, panics, Event, World, Exec, ◌>>=◌, pure, fail, panic, lift, run, call,
  write, try, get_instance, modify_instance, to_try, resume,
}

-- `R` holds of the value, if one is returned.
abbrev pub Returns : {A : Type 0} → (A → Type 0) → Outcome A → Type 0
Returns R (returns a) = R a
Returns R _ = Unit

-- The trace has grown by calls that satisfy `Q`, and by no other.
pub data Extends (Q : Event → Type 0) (before : List Event) : List Event → Type 0 where
  same : Extends Q before before
  wrote : {t : List Event} (e : Event) → Q e → Extends Q before t → Extends Q before (e ∷ t)

pub Extends-trans :
    {Q : Event → Type 0} {s t u : List Event} → Extends Q s t → Extends Q t u → Extends Q s u
Extends-trans a same = a
Extends-trans a (wrote e q b) = wrote e q (Extends-trans a b)

pub Extends-mono :
    {Q T : Event → Type 0} {s t : List Event}
    → ((e : Event) → Q e → T e)
    → Extends Q s t
    → Extends T s t
Extends-mono h same = same
Extends-mono h (wrote e q a) = wrote e (h e q) (Extends-mono h a)

pub Extends-start :
    {Q : Event → Type 0} {s t u : List Event} → t ≡ s → Extends Q t u → Extends Q s u
Extends-start e x = rw e at x

-- Every call that `m` records satisfies `Q`, and what it returns satisfies `R`.
pub record Ensures {S A : Type 0} (Q : Event → Type 0) (R : A → Type 0) (m : Exec S A)
    : Type 0 where
  pub writes : (w : World S) → Extends Q w.trace (m w).1.trace
  pub result : (w : World S) → Returns R (m w).0

-- `m` records nothing and leaves the instance in memory alone.
abbrev pub Reads : {S A : Type 0} → Exec S A → Type 0
Reads {S} m = (w : World S) → ((m w).1.trace ≡ w.trace) × ((m w).1.instance ≡ w.instance)

abbrev pub Any : {A : Type 0} → A → Type 0
Any a = Unit

-- After `try`: `R` of a value, and of an error nothing.
abbrev pub Tried : {A : Type 0} → (A → Type 0) → Result A → Type 0
Tried R (ok a) = R a
Tried R (err e) = Unit

Returns-try :
    {A : Type 0} (R : A → Type 0) (o : Outcome A) → Returns R o → Returns (Tried R) (to_try o)
Returns-try R (returns a) h = h
Returns-try R (fails e) h = tt
Returns-try R panics h = tt

module _ {S A : Type 0} {Q : Event → Type 0} {R : A → Type 0} where
  pub Ensures-of_Reads :
      (m : Exec S A) → Reads m → ((w : World S) → Returns R (m w).0) → Ensures Q R m
  Ensures-of_Reads m h r = record { writes = λ w. rw ((h w).0) same; result = r }

  pub Ensures-pure : (a : A) → R a → Ensures {S = S} Q R (pure a)
  Ensures-pure a r = record { writes = λ w. same; result = λ w. r }

  pub Ensures-fail : (e : Error) → Ensures {S = S} Q R (fail e)
  Ensures-fail e = record { writes = λ w. same; result = λ w. tt }

  pub Ensures-panic : Ensures {S = S} Q R panic
  Ensures-panic = record { writes = λ w. same; result = λ w. tt }

  pub Ensures-try : (m : Exec S A) → Ensures Q R m → Ensures Q (Tried R) (try m)
  Ensures-try m h = record { writes = h.writes; result = λ w. Returns-try R (m w).0 (h.result w) }

  pub Ensures-if :
      (b : Bool) (m n : Exec S A)
      → (b ≡ true → Ensures Q R m)
      → (b ≡ false → Ensures Q R n)
      → Ensures Q R (if b then m else n)
  Ensures-if true m n hm hn = hm refl
  Ensures-if false m n hm hn = hn refl

pub Returns-Any : {A : Type 0} (o : Outcome A) → Returns Any o
Returns-Any (returns a) = tt
Returns-Any (fails e) = tt
Returns-Any panics = tt

module _ {S A : Type 0} {Q : Event → Type 0} where
  pub Ensures-call : (k : S → Outcome A × S) → Ensures Q Any (call k)
  Ensures-call k = record { writes = λ w. same; result = λ w. Returns-Any (k w.cluster).0 }

  pub Ensures-write : (e : Event) (k : S → Outcome A × S) → Q e → Ensures Q Any (write e k)
  Ensures-write e k h = record {
    writes = λ w. wrote e h same;
    result = λ w. Returns-Any (k w.cluster).0;
  }

  pub Ensures-run : (o : Outcome A) → Ensures {S = S} Q (λ a. o ≡ returns a) (run o)
  Ensures-run (returns a) = record { writes = λ w. same; result = λ w. refl }
  Ensures-run (fails e) = record { writes = λ w. same; result = λ w. tt }
  Ensures-run panics = record { writes = λ w. same; result = λ w. tt }

  pub Ensures-lift : (r : Result A) → Ensures {S = S} Q (λ a. r ≡ ok a) (lift r)
  Ensures-lift (ok a) = record { writes = λ w. same; result = λ w. refl }
  Ensures-lift (err e) = record { writes = λ w. same; result = λ w. tt }

module _ {S A B : Type 0} {Q : Event → Type 0} {R : A → Type 0} {T : B → Type 0} (f : A → Exec S B)
    (hf : (a : A) → R a → Ensures Q T (f a)) where
  resume_writes :
      (o : Outcome A) (w : World S) → Returns R o → Extends Q w.trace (resume f o w).1.trace
  resume_writes (returns a) w r = (hf a r).writes w
  resume_writes (fails e) w r = same
  resume_writes panics w r = same

  resume_result : (o : Outcome A) (w : World S) → Returns R o → Returns T (resume f o w).0
  resume_result (returns a) w r = (hf a r).result w
  resume_result (fails e) w r = tt
  resume_result panics w r = tt

module _ {S A B : Type 0} {Q : Event → Type 0} {R : A → Type 0} {T : B → Type 0} where
  pub Ensures-bind :
      (m : Exec S A) (f : A → Exec S B)
      → Ensures Q R m
      → ((a : A) → R a → Ensures Q T (f a))
      → Ensures Q T (m >>= f)
  Ensures-bind m f hm hf = record {
    writes = λ w. Extends-trans (hm.writes w) (resume_writes f hf (m w).0 (m w).1 (hm.result w));
    result = λ w. resume_result f hf (m w).0 (m w).1 (hm.result w);
  }

pub Ensures-mono :
    {S A : Type 0} {Q T : Event → Type 0} {R : A → Type 0} (m : Exec S A)
    → ((e : Event) → Q e → T e)
    → Ensures Q R m
    → Ensures T R m
Ensures-mono m h e = record { writes = λ w. Extends-mono h (e.writes w); result = e.result }

module _ {S : Type 0} {Q : Event → Type 0} where
  pub Ensures-get_instance : Ensures {S = S} Q Any get_instance
  Ensures-get_instance = record { writes = λ w. same; result = λ w. tt }

  pub Ensures-modify_instance :
      (f : OpenStackLightspeed → OpenStackLightspeed) → Ensures {S = S} Q Any (modify_instance f)
  Ensures-modify_instance f = record { writes = λ w. same; result = λ w. tt }

pub ruleset trace_rules = (
  Ensures-pure, Ensures-fail, Ensures-panic, Ensures-lift, Ensures-run, Ensures-try, Ensures-if,
  Ensures-call, Ensures-write, Ensures-bind, Ensures-get_instance, Ensures-modify_instance,
  Returns-Any,
)
