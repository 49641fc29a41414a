-- ===== src/Main/Registers.antt =====
-- The calls of `init`, and what they answer.
use osls_operator.Base.{◌≡◌, refl, ◌⊎◌, inl, inr, ℕ, arith, List, [], ◌∷◌, Error}
use osls_operator.Platform.{Platform, Call}
use osls_operator.Platform.Exec.{Outcome, returns, fails, panics}
use osls_operator.Main.Launch.{
  Progress, goes_on, exits, crashes, Process, ◌>>◌, proceed, crash_on_error, must,
}
use osls_operator.Main.Start.{Launcher, Stage, scheme_builder, Step, init}
use osls_operator.Main.Tasks.{Passes}

module _ (P : Platform) (L : Launcher P) where
  -- Calls that must go through, in their order: the first that does not crashes the process.
  pub data Must
      : List (Call L.State (Unit {0})) → L.State → Progress (Unit {0}) → L.State → Type 0 where
    all_went : {s : L.State} → Must [] s (goes_on tt) s
    fell :
        {s v : L.State} (k : Call L.State (Unit {0})) (rest : List (Call L.State (Unit {0})))
        → ((e : Error) × (k s ≡ (fails e, v))) ⊎ (k s ≡ (panics, v))
        → Must (k ∷ rest) s crashes v
    went :
        {s v u : L.State} {o : Progress (Unit {0})} (k : Call L.State (Unit {0}))
        (rest : List (Call L.State (Unit {0})))
        → Passes k s tt v
        → Must rest v o u
        → Must (k ∷ rest) s o u

  -- The calls of `init`.
  abbrev pub registrations : List (Call L.State (Unit {0}))
  registrations =
      L.add_client_go_to_scheme ∷ L.add_olm_to_scheme ∷ L.add_to_scheme scheme_builder ∷ []

  answered-Must :
      (k : Call L.State (Unit {0})) (rest : List (Call L.State (Unit {0})))
      (m : Step P L (Unit {0})) (p : Process L.State (Stage P)) (a : Outcome (Unit {0}))
      (s : L.State)
      → ((q : Process L.State (Stage P)) → Must rest q.state (m q).0 (m q).1.state)
      → k p.state ≡ (a, s)
      → let r = proceed (λ _. m) (crash_on_error a) (record p { state = s }) in
        Must (k ∷ rest) p.state r.0 r.1.state
  answered-Must k rest m p (returns _) s later e = went k rest e (later _)
  answered-Must k rest m p (fails x) s later e = fell k rest (inl (x, e))
  answered-Must k rest m p panics s later e = fell k rest (inr e)

  must_then :
      (k : Call L.State (Unit {0})) (rest : List (Call L.State (Unit {0})))
      (m : Step P L (Unit {0}))
      → ((q : Process L.State (Stage P)) → Must rest q.state (m q).0 (m q).1.state)
      → (p : Process L.State (Stage P))
      → let r = (must k >> m) p in Must (k ∷ rest) p.state r.0 r.1.state
  must_then k rest m later p = answered-Must k rest m p (k p.state).0 (k p.state).1 later refl

  ended-Must :
      (k : Call L.State (Unit {0})) (s : L.State) (a : Outcome (Unit {0})) (v : L.State)
      → k s ≡ (a, v)
      → Must (k ∷ []) s (crash_on_error a) v
  ended-Must k s (returns _) v e = went k [] e all_went
  ended-Must k s (fails x) v e = fell k [] (inl (x, e))
  ended-Must k s panics v e = fell k [] (inr e)

  pub never_exits :
      {ks : List (Call L.State (Unit {0}))} {s v : L.State} {n : ℕ} → Must ks s (exits n) v → ⊥
  never_exits (went k rest e m) = never_exits m

  pub init-Must :
      (p : Process L.State (Stage P))
      → Must registrations p.state (init P L p).0 (init P L p).1.state
  unfolding init
  init-Must p =
      must_then _ _ _
        (must_then _ _ _ λ q.
          let k = L.add_to_scheme scheme_builder in
          ended-Must k q.state (k q.state).0 (k q.state).1 refl)
        p

  pub init_stages : (p : Process L.State (Stage P)) → (init P L p).1.stages ≡ p.stages
  unfolding init
  init_stages p = ground arith
