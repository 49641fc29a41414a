-- ===== src/Settled/Rules.antt =====
-- Methods that go through: from a good world they return, what they return is known, so are the
-- kinds of their writes, and the world stays good. One rule for each way to build a method.
use mathlib.Core.List.{append_assoc}
use osls_operator.Base.{
  ◌≡◌, refl, sym, ap, arith, String, ◌∙◌, subst, List, [], ◌∷◌, ◌++◌, Result, ok, err,
}
use osls_operator.Api.{OpenStackLightspeed}
use osls_operator.Api.Kubernetes.{ObjectMeta}
use osls_operator.Platform.{Call}
use osls_operator.Platform.Exec.{
  Outcome, returns, fails, panics, returns-injective, Event, World, Exec, ◌>>=◌, resume, pure, lift,
  run, call, write, try, to_try, get_instance, modify_instance, wrap_outcome, context,
}
use osls_operator.Platform.Kinds.{Kind, kind_of, kinds}
use osls_operator.Platform.Trace.{Any}

-- A call that, in a cluster with `Before`, returns a value with `R` and leaves one with `After`.
abbrev pub Leads : {S A : Type 0} → (S → Type 0) → (A → Type 0) → (S → Type 0) → Call S A → Type 0
Leads {S} {A} Before R After k =
    (s : S) → Before s → (a : A) × (t : S) × (k s ≡ (returns a, t)) × R a × After t

-- A call that leaves a good cluster good.
abbrev pub Answers : {S A : Type 0} → (S → Type 0) → (A → Type 0) → Call S A → Type 0
Answers Good R k = Leads Good R Good k

-- After `try`: a value, with `R`.
abbrev pub Succeeds : {A : Type 0} → (A → Type 0) → Result A → Type 0
Succeeds R (ok a) = R a
Succeeds R (err e) = ⊥

-- What is known of the cluster and of the instance in memory.
abbrev pub Known : Type 0 → Type 1
Known S = S → OpenStackLightspeed → Type 0

-- A run from `w` has returned a value with `R`, with writes of these kinds, and `Post` holds.
pub record Yielded {S A : Type 0} (ks : List Kind) (R : A → Type 0) (Post : Known S) (w : World S)
    (r : Outcome A × World S) : Type 0 where
  pub value : A
  pub returned : r.0 ≡ returns value
  pub holds : R value
  pub good : Post r.1.cluster r.1.instance
  pub written : kinds r.1.trace ≡ ks ++ kinds w.trace

-- The method returns from wherever `Pre` holds.
pub record Goes {S A : Type 0} (Pre : Known S) (ks : List Kind) (R : A → Type 0) (Post : Known S)
    (m : Exec S A) : Type 0 where
  pub goes : (w : World S) → Pre w.cluster w.instance → Yielded ks R Post w (m w)

-- A call that returns from wherever `Pre` holds, whatever the instance in memory is.
abbrev pub Replies : {S A : Type 0} → Known S → (A → Type 0) → Known S → Call S A → Type 0
Replies {S} {A} Pre R Post k =
    (s : S) (j : OpenStackLightspeed)
    → Pre s j
    → (a : A) × (t : S) × (k s ≡ (returns a, t)) × R a × Post t j

module _ {S A : Type 0} {R : A → Type 0} {Pre : Known S} where
  pub Goes-pure : (a : A) → R a → Goes Pre [] R Pre (pure a)
  Goes-pure a h = record {
    goes = λ w g. record { value = a; returned = refl; holds = h; good = g; written = refl };
  }

  pub Goes-lift : (r : Result A) (a : A) → r ≡ ok a → R a → Goes Pre [] R Pre (lift r)
  Goes-lift r a e h = record {
    goes = λ w g. record { value = a; returned = rw e refl; holds = h; good = g; written = refl };
  }

  pub Goes-run : (o : Outcome A) (a : A) → o ≡ returns a → R a → Goes Pre [] R Pre (run o)
  Goes-run o a e h = record {
    goes = λ w g. record { value = a; returned = e; holds = h; good = g; written = refl };
  }

module _ {S A : Type 0} {R : A → Type 0} {Pre Post : Known S} where
  pub Goes-call : (k : Call S A) → Replies Pre R Post k → Goes Pre [] R Post (call k)
  Goes-call k replies = record {
    goes = λ w g.
        let (a, t, e, h, good) = replies w.cluster w.instance g in
        rw e (record { value = a; returned = refl; holds = h; good = good; written = refl });
  }

  pub Goes-write :
      (e : Event) (k : Call S A)
      → Replies Pre R Post k
      → Goes Pre (kind_of e ∷ []) R Post (write e k)
  Goes-write e k replies = record {
    goes = λ w g.
        let (a, t, is, h, good) = replies w.cluster w.instance g in
        rw is (record { value = a; returned = refl; holds = h; good = good; written = refl });
  }

  pub Goes-try :
      {ks : List Kind} (m : Exec S A) → Goes Pre ks R Post m → Goes Pre ks (Succeeds R) Post (try m)
  Goes-try m h = record {
    goes = λ w g.
        let y = h.goes w g in
        record {
          value = ok y.value;
          returned = ap to_try y.returned;
          holds = y.holds;
          good = y.good;
          written = y.written;
        };
  }

  pub Goes-context :
      {ks : List Kind} (text : String) (m : Exec S A)
      → Goes Pre ks R Post m
      → Goes Pre ks R Post (context text m)
  Goes-context text m h = record {
    goes = λ w g.
        let y = h.goes w g in
        record {
          value = y.value;
          returned = ap (wrap_outcome text) y.returned;
          holds = y.holds;
          good = y.good;
          written = y.written;
        };
  }

module _ {S A B : Type 0} {T : B → Type 0} {Post : Known S} where
  resume-Yielded :
      {ks : List Kind} (f : A → Exec S B) (o : Outcome A) (v : World S) (a : A)
      → o ≡ returns a
      → Yielded ks T Post v (f a v)
      → Yielded ks T Post v (resume f o v)
  resume-Yielded {ks} f (returns b) v a e y =
      subst (λ x. Yielded ks T Post v (f x v)) (sym (returns-injective e)) y
  resume-Yielded f (fails x) v a e y = absurd (ground arith)
  resume-Yielded f panics v a e y = absurd (ground arith)

  pub Goes-bind :
      {R : A → Type 0} {Pre Mid : Known S} {ks ls : List Kind} (m : Exec S A) (f : A → Exec S B)
      → Goes Pre ks R Mid m
      → ((a : A) → R a → Goes Mid ls T Post (f a))
      → Goes Pre (ls ++ ks) T Post (m >>= f)
  Goes-bind {ks} {ls} m f hm hf = record {
    goes = λ w g.
        let y = hm.goes w g in
        let z =
          resume-Yielded f (m w).0 (m w).1 y.value y.returned
            ((hf y.value y.holds).goes (m w).1 y.good) in
        record {
          value = z.value;
          returned = z.returned;
          holds = z.holds;
          good = z.good;
          written =
              z.written ∙ ap (λ t. ls ++ t) y.written ∙ sym (append_assoc ls ks (kinds w.trace));
        };
  }

module _ {S : Type 0} {Pre : Known S} where
  pub Goes-get_instance :
      (R : OpenStackLightspeed → Type 0)
      → ((s : S) (j : OpenStackLightspeed) → Pre s j → R j)
      → Goes Pre [] R Pre get_instance
  Goes-get_instance R h = record {
    goes = λ w g. record {
      value = w.instance;
      returned = refl;
      holds = h w.cluster w.instance g;
      good = g;
      written = refl;
    };
  }

module _ {S : Type 0} {Pre Post : Known S} where
  pub Goes-modify_instance :
      (f : OpenStackLightspeed → OpenStackLightspeed)
      → ((s : S) (j : OpenStackLightspeed) → Pre s j → Post s (f j))
      → Goes Pre [] Any Post (modify_instance f)
  Goes-modify_instance f h = record {
    goes = λ w g. record {
      value = tt;
      returned = refl;
      holds = tt;
      good = h w.cluster w.instance g;
      written = refl;
    };
  }

-- The cluster is good, and the instance in memory has this metadata.
abbrev pub At : {S : Type 0} → (S → Type 0) → ObjectMeta → Known S
At Good meta s j = Good s × (j.meta ≡ meta)

pub Leads-Replies :
    {S A : Type 0} {R : A → Type 0} (Before After : S → Type 0) (meta : ObjectMeta) (k : Call S A)
    → Leads Before R After k
    → Replies (At Before meta) R (At After meta) k
Leads-Replies Before After meta k leads s j g =
    let (a, t, e, h, good) = leads s g.0 in (a, t, e, h, (good, g.1))

module _ {S : Type 0} (Good : S → Type 0) (meta : ObjectMeta) where
  abbrev pub Yields : {A : Type 0} → List Kind → (A → Type 0) → Exec S A → Type 0
  Yields ks R m = Goes (At Good meta) ks R (At Good meta) m

  module _ {A : Type 0} {R : A → Type 0} where
    pub Yields-call : (k : Call S A) → Answers Good R k → Yields [] R (call k)
    Yields-call k answers = Goes-call k (Leads-Replies Good Good meta k answers)

    pub Yields-write :
        (e : Event) (k : Call S A) → Answers Good R k → Yields (kind_of e ∷ []) R (write e k)
    Yields-write e k answers = Goes-write e k (Leads-Replies Good Good meta k answers)

  pub Yields-get_instance : Yields [] (λ (j : OpenStackLightspeed). j.meta ≡ meta) get_instance
  Yields-get_instance = Goes-get_instance (λ j. j.meta ≡ meta) λ s j g. g.1

  pub Yields-modify_instance :
      (f : OpenStackLightspeed → OpenStackLightspeed)
      → ((j : OpenStackLightspeed) → j.meta ≡ meta → (f j).meta ≡ meta)
      → Yields [] Any (modify_instance f)
  Yields-modify_instance f keeps = Goes-modify_instance f λ s j g. (g.0, keeps j g.1)
