-- ===== src/Main/Tasks.antt =====
-- The calls of `main` once it has its manager: what each answered, in the state that the call before
-- it left.
use osls_operator.Base.{◌≡◌, refl, ap, ◌⊎◌, inl, inr, List, [], ◌∷◌, Error}
use osls_operator.Platform.{Platform, Call}
use osls_operator.Platform.Exec.{Outcome, returns, fails, panics}
use osls_operator.Main.{setup_defaults}
use osls_operator.Main.Launch.{
  Progress, goes_on, exits, crashes, Process, ◌>>◌, proceed, exit_on_error, stage,
}
use osls_operator.Main.Manager.{controller_setup}
use osls_operator.Main.Start.{
  Launcher, Stage, defaults_set, registering, adding_healthz, adding_readyz, starting, Step,
  setup_with_manager, run_manager,
}

-- The call goes through.
abbrev pub Passes : {S A : Type 0} → Call S A → S → A → S → Type 0
Passes k s a t = k s ≡ (returns a, t)

-- The call ends the process: it fails, and the status is 1, or it panics.
abbrev pub Stops : {S A : Type 0} → Call S A → S → Progress (Unit {0}) → Type 0
Stops k s o =
    ((e : Error) × ((k s).0 ≡ fails e) × (o ≡ exits 1)) ⊎ (((k s).0 ≡ panics) × (o ≡ crashes))

module _ (P : Platform) (L : Launcher P) where
  abbrev pub Task : Type 0
  Task = Stage P × Call L.State (Unit {0})

  -- Tasks that are tried in their order: the stages before them, the tasks, the state, and then the
  -- stages, the newest first, and the end. A task is tried only after those before it have gone
  -- through, a task that does not go through ends the process, and it returns only after all.
  pub data Tried
      : List (Stage P) → List Task → L.State → List (Stage P) → Progress (Unit {0}) → Type 0 where
    all_passed : {t : List (Stage P)} {s : L.State} → Tried t [] s t (goes_on tt)
    stopped :
        {t : List (Stage P)} {s : L.State} {o : Progress (Unit {0})} (g : Stage P)
        (k : Call L.State (Unit {0})) (rest : List Task)
        → Stops k s o
        → Tried t ((g, k) ∷ rest) s (g ∷ t) o
    passed :
        {t u : List (Stage P)} {s v : L.State} {o : Progress (Unit {0})} (g : Stage P)
        (k : Call L.State (Unit {0})) (rest : List Task)
        → Passes k s tt v
        → Tried (g ∷ t) rest v u o
        → Tried t ((g, k) ∷ rest) s u o

  -- The tasks of `main`, once it has its manager.
  abbrev pub tasks : L.Manager → List Task
  tasks manager =
      let setup = controller_setup P (setup_defaults L.get_env_var) in
      (registering setup, L.complete manager setup)
      ∷ (adding_healthz "healthz", L.add_healthz_check manager "healthz")
      ∷ (adding_readyz "readyz", L.add_readyz_check manager "readyz")
      ∷ (starting, L.start manager)
      ∷ []

  answered_tries :
      (g : Stage P) (k : Call L.State (Unit {0})) (rest : List Task) (m : Step P L (Unit {0}))
      (p : Process L.State (Stage P)) (a : Outcome (Unit {0})) (s : L.State)
      → ((q : Process L.State (Stage P)) → Tried q.stages rest q.state (m q).1.stages (m q).0)
      → k p.state ≡ (a, s)
      → let r = proceed (λ _. m) (exit_on_error a) (record { state = s; stages = g ∷ p.stages }) in
        Tried p.stages ((g, k) ∷ rest) p.state r.1.stages r.0
  answered_tries g k rest m p (returns _) s later e = passed g k rest e (later _)
  answered_tries g k rest m p (fails x) s later e =
      stopped g k rest (inl (x, ap (λ r. r.0) e, refl))
  answered_tries g k rest m p panics s later e = stopped g k rest (inr (ap (λ r. r.0) e, refl))

  stage_tries :
      (g : Stage P) (k : Call L.State (Unit {0})) (rest : List Task) (m : Step P L (Unit {0}))
      → ((q : Process L.State (Stage P)) → Tried q.stages rest q.state (m q).1.stages (m q).0)
      → (p : Process L.State (Stage P))
      → let r = (stage g k >> m) p in Tried p.stages ((g, k) ∷ rest) p.state r.1.stages r.0
  stage_tries g k rest m later p =
      answered_tries g k rest m p (k p.state).0 (k p.state).1 later refl

  ended_tries :
      (g : Stage P) (k : Call L.State (Unit {0})) (p : Process L.State (Stage P))
      (a : Outcome (Unit {0})) (s : L.State)
      → k p.state ≡ (a, s)
      → Tried p.stages ((g, k) ∷ []) p.state (g ∷ p.stages) (exit_on_error a)
  ended_tries g k p (returns _) s e = passed g k [] e all_passed
  ended_tries g k p (fails x) s e = stopped g k [] (inl (x, ap (λ r. r.0) e, refl))
  ended_tries g k p panics s e = stopped g k [] (inr (ap (λ r. r.0) e, refl))

  last_tries :
      (g : Stage P) (k : Call L.State (Unit {0})) (p : Process L.State (Stage P))
      → let r = stage g k p in Tried p.stages ((g, k) ∷ []) p.state r.1.stages r.0
  last_tries g k p = ended_tries g k p (k p.state).0 (k p.state).1 refl

  pub run_manager_tries :
      (manager : L.Manager) (p : Process L.State (Stage P))
      → let r = run_manager P L manager p in
        Tried
          (defaults_set (setup_defaults L.get_env_var) ∷ p.stages)
          (tasks manager)
          p.state
          r.1.stages
          r.0
  unfolding run_manager setup_with_manager
  run_manager_tries manager p =
      stage_tries _ _ _ _
        (stage_tries _ _ _ _ (stage_tries _ _ _ _ (last_tries starting (L.start manager))))
        (record p { stages = defaults_set (setup_defaults L.get_env_var) ∷ p.stages })
