-- ===== src/Main/Boots.antt =====
-- How far the process gets, and why: what each of its calls answered, in the state that the call
-- before it left.
use osls_operator.Base.{
  ◌≡◌, refl, ap, subst, inl, inr, String, List, [], ◌∷◌, some, All, Error, Result, ok, err,
}
use osls_operator.Platform.{Platform}
use osls_operator.Platform.Exec.{Outcome, returns, fails, panics}
use osls_operator.Main.{get_watch_namespaces, setup_defaults}
use osls_operator.Main.Namespaces.{join, Free, get_watch_namespaces_lem}
use osls_operator.Main.Launch.{
  Progress, goes_on, exits, crashes, Process, proceed, result_progress, exit_on_error,
}
use osls_operator.Main.Flags.{Flags, declared, parse_flags}
use osls_operator.Main.Manager.{ManagerOptions, manager_options}
use osls_operator.Main.Start.{
  Launcher, Stage, making_manager, defaults_set, run_manager, launch, watch, main, init, process,
}
use osls_operator.Main.Tasks.{Passes, Stops, Tried, tasks, run_manager_tries}
use osls_operator.Main.Registers.{Must, registrations, never_exits, init-Must, init_stages}

-- The process ends as this step does, which does not go on.
abbrev pub Ends : {A : Type 0} → Progress A → Progress (Unit {0}) → Type 0
Ends (goes_on _) o = ⊥
Ends (exits n) o = o ≡ exits n
Ends crashes o = o ≡ crashes

module _ (P : Platform) (L : Launcher P) where
  -- The process gets to its manager in the state `s`.
  pub data Boots (options : ManagerOptions) (s : L.State)
      : List (Stage P) → Progress (Unit {0}) → Type 0 where
    unmade :
        {o : Progress (Unit {0})}
        → Stops (L.new_manager options) s o
        → Boots options s (making_manager options ∷ []) o
    made :
        {t : List (Stage P)} {o : Progress (Unit {0})} (manager : L.Manager) (v : L.State)
        → Passes (L.new_manager options) s manager v
        → Tried P L
            (defaults_set (setup_defaults L.get_env_var) ∷ making_manager options ∷ [])
            (tasks P L manager)
            v
            t
            o
        → Boots options s t o

  -- A process from the state `s`: the stages that it has entered, and its end.
  pub data Ran (args : List (String × String)) (s : L.State)
      : List (Stage P) → Progress (Unit {0}) → Type 0 where
    unregistered : {v : L.State} → Must P L (registrations P L) s crashes v → Ran args s [] crashes
    misused :
        {v : L.State} {o : Progress (Unit {0})}
        → Must P L (registrations P L) s (goes_on tt) v
        → Ends (parse_flags L.accepts_flag args declared) o
        → Ran args s [] o
    unwatched :
        {v : L.State} (flags : Flags) (e : Error)
        → Must P L (registrations P L) s (goes_on tt) v
        → parse_flags L.accepts_flag args declared ≡ goes_on flags
        → get_watch_namespaces P ≡ err e
        → Ran args s [] (exits 1)
    unconfigured :
        {v : L.State} {o : Progress (Unit {0})} (flags : Flags) (namespaces : List String)
        → Must P L (registrations P L) s (goes_on tt) v
        → parse_flags L.accepts_flag args declared ≡ goes_on flags
        → get_watch_namespaces P ≡ ok namespaces
        → Ends (L.get_config_or_die v).0 o
        → Ran args s [] o
    booted :
        {v u : L.State} {t : List (Stage P)} {o : Progress (Unit {0})} (flags : Flags)
        (namespaces : List String)
        → Must P L (registrations P L) s (goes_on tt) v
        → parse_flags L.accepts_flag args declared ≡ goes_on flags
        → P.lookup_env "WATCH_NAMESPACE" ≡ some (join "," namespaces)
        → All (Free ",") namespaces
        → L.get_config_or_die v ≡ (goes_on tt, u)
        → Boots (manager_options flags namespaces) u t o
        → Ran args s t o

  made-Boots :
      (options : ManagerOptions) (s : L.State) (m : Outcome L.Manager)
      (p : Process L.State (Stage P))
      → p.stages ≡ making_manager options ∷ []
      → L.new_manager options s ≡ (m, p.state)
      → let r = proceed (run_manager P L) (exit_on_error m) p in Boots options s r.1.stages r.0
  made-Boots options s (returns manager) p e n =
      let r = run_manager P L manager p in
      made manager p.state n (
        subst
          (λ before.
            Tried P L (defaults_set (setup_defaults L.get_env_var) ∷ before) (tasks P L manager)
              p.state r.1.stages r.0)
          e (run_manager_tries P L manager p))
  made-Boots options s (fails x) p e n = rw e (unmade (inl (x, ap (λ r. r.0) n, refl)))
  made-Boots options s panics p e n = rw e (unmade (inr (ap (λ r. r.0) n, refl)))

  module _ (args : List (String × String)) (s : L.State) where
    configured_runs :
        {v : L.State} (flags : Flags) (namespaces : List String) (c : Progress (Unit {0}))
        (p : Process L.State (Stage P))
        → Must P L (registrations P L) s (goes_on tt) v
        → parse_flags L.accepts_flag args declared ≡ goes_on flags
        → get_watch_namespaces P ≡ ok namespaces
        → L.get_config_or_die v ≡ (c, p.state)
        → p.stages ≡ []
        → let options = manager_options flags namespaces in
          let r =
            proceed
              (λ _ (q : Process L.State (Stage P)).
                let (m, t) = L.new_manager options q.state in
                proceed
                  (run_manager P L)
                  (exit_on_error m)
                  (record { state = t; stages = making_manager options ∷ q.stages }))
              c
              p in
          Ran args s r.1.stages r.0
    configured_runs flags namespaces (goes_on _) p inits f g c e =
        let options = manager_options flags namespaces in
        let (m, t) = L.new_manager options p.state in
        let (found, free) = get_watch_namespaces_lem P namespaces g in
        booted flags namespaces inits f found free c
          (made-Boots options p.state m _ (ap (λ x. making_manager options ∷ x) e) refl)
    configured_runs flags namespaces (exits n) p inits f g c e =
        rw e (unconfigured flags namespaces inits f g (rw c refl))
    configured_runs flags namespaces crashes p inits f g c e =
        rw e (unconfigured flags namespaces inits f g (rw c refl))

    watched_runs :
        (flags : Flags) (n : Result (List String)) (p : Process L.State (Stage P))
        → Must P L (registrations P L) s (goes_on tt) p.state
        → parse_flags L.accepts_flag args declared ≡ goes_on flags
        → get_watch_namespaces P ≡ n
        → p.stages ≡ []
        → let r = proceed (λ ns. launch P L (manager_options flags ns)) (result_progress n) p in
          Ran args s r.1.stages r.0
    unfolding launch
    watched_runs flags (ok ns) p inits f g e =
        let (c, v) = L.get_config_or_die p.state in
        configured_runs flags ns c (record p { state = v }) inits f g refl e
    watched_runs flags (err x) p inits f g e = rw e (unwatched flags x inits f g)

    parsed_runs :
        (o : Progress Flags) (p : Process L.State (Stage P))
        → Must P L (registrations P L) s (goes_on tt) p.state
        → parse_flags L.accepts_flag args declared ≡ o
        → p.stages ≡ []
        → let r = proceed (watch P L) o p in Ran args s r.1.stages r.0
    unfolding watch
    parsed_runs (goes_on flags) p inits f e =
        watched_runs flags (get_watch_namespaces P) p inits f refl e
    parsed_runs (exits n) p inits f e = rw e (misused inits (rw f refl))
    parsed_runs crashes p inits f e = rw e (misused inits (rw f refl))

    then_main :
        (o : Progress (Unit {0})) (p : Process L.State (Stage P))
        → Must P L (registrations P L) s o p.state
        → p.stages ≡ []
        → let r = proceed (λ _. main P L args) o p in Ran args s r.1.stages r.0
    unfolding main
    then_main (goes_on _) p inits e =
        parsed_runs (parse_flags L.accepts_flag args declared) p inits refl e
    then_main (exits n) p inits e = absurd (never_exits P L inits)
    then_main crashes p inits e = rw e (unregistered inits)

    -- What the process does is what its calls answer, each in the state that the one before it has
    -- left. It makes its manager only once the types are registered and the command line,
    -- WATCH_NAMESPACE and the client's configuration are read, with the options that these give;
    -- where one of them fails it ends before. It registers the controller, with the defaults set,
    -- then adds the health check and the ready check and starts the manager, and each of these only
    -- if the one before it has gone through: where one fails it exits with status 1, and where one
    -- panics it crashes. `main` returns only if all of them have gone through.
    pub process-Boots :
        let r = process P L args (record { state = s; stages = [] }) in Ran args s r.1.stages r.0
    unfolding process
    process-Boots =
        let p : Process L.State (Stage P) = record { state = s; stages = [] } in
        then_main (init P L p).0 (init P L p).1 (init-Must P L p) (init_stages P L p)
