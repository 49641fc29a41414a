-- ===== src/Main/Secure.antt =====
-- What the command line makes of the servers of the manager, and of its cache.
use osls_operator.Base.{
  ◌≡◌, refl, subst, eq_refl, ◌∙◌, arith, ◌⊎◌, inl, inr, Bool, true, false, Bool-cases, ◌||◌, ◌==◌,
  eq_iff, String, List, [], ◌∷◌, Option, some, contains, if◌then◌else◌,
}
use osls_operator.Main.Launch.{Progress, goes_on, exits, crashes}
use osls_operator.Main.Flags.{
  Flags, on_bool, other_flag, declared, parse_bool, set_flag, parse_flags, then_flags,
}
use osls_operator.Main.Manager.{
  TlsConfig, version_tls13, restrict_tls, metrics_server_options, default_namespaces,
  manager_options, with_authentication_and_authorization,
}

-- The command line has an argument with this name.
abbrev pub Gives : String → List (String × String) → Type 0
Gives name [] = ⊥
Gives name ((n, value) ∷ args) = (n ≡ name) ⊎ Gives name args

-- `set_flag` on the results of its tests, and of the parsing.
abbrev chosen :
    Bool
    → Bool
    → Bool
    → Bool
    → Bool
    → String
    → Option Bool
    → Progress (Unit {0})
    → Flags
    → Progress Flags
chosen addr probe leader secure http2 value b other f =
    if addr
    then goes_on (record f { metrics_addr = value })
    else if probe
    then goes_on (record f { probe_addr = value })
    else if leader
    then on_bool (λ x. record f { enable_leader_election = x }) b
    else if secure
    then on_bool (λ x. record f { secure_metrics = x }) b
    else if http2
    then on_bool (λ x. record f { enable_http2 = x }) b
    else other_flag f other

chosen_lem :
    (addr probe leader secure http2 : Bool) (value : String) (b : Option Bool)
    (other : Progress (Unit {0})) (f g : Flags)
    → chosen addr probe leader secure http2 value b other f ≡ goes_on g
    → ((g.enable_http2 ≡ f.enable_http2) ⊎ (http2 ≡ true))
      × ((g.secure_metrics ≡ f.secure_metrics) ⊎ (secure ≡ true))
chosen_lem addr probe leader secure http2 value b other f g h = ground arith

module _ (accepts : String → String → Progress (Unit {0})) where
  set_flag_lem :
      (name value : String) (f g : Flags)
      → set_flag accepts name value f ≡ goes_on g
      → ((g.enable_http2 ≡ f.enable_http2) ⊎ ((name == "enable-http2") ≡ true))
        × ((g.secure_metrics ≡ f.secure_metrics) ⊎ ((name == "metrics-secure") ≡ true))
  unfolding set_flag
  set_flag_lem name value f g h =
      chosen_lem (name == "metrics-bind-address") (name == "health-probe-bind-address")
        (name == "leader-elect") (name == "metrics-secure") (name == "enable-http2") value
        (parse_bool value) (accepts name value) f g h

  -- What a rest of the command line can change.
  abbrev Kept : List (String × String) → Flags → Flags → Type 0
  Kept args f g =
      ((g.enable_http2 ≡ f.enable_http2) ⊎ Gives "enable-http2" args)
      × ((g.secure_metrics ≡ f.secure_metrics) ⊎ Gives "metrics-secure" args)

  kept_given :
      {A : Type 0} (name n value : String) (args : List (String × String)) {x y z : A}
      → (y ≡ x) ⊎ ((n == name) ≡ true)
      → (z ≡ y) ⊎ Gives name args
      → (z ≡ x) ⊎ Gives name ((n, value) ∷ args)
  kept_given name n value args (inl e) (inl h) = inl (h ∙ e)
  kept_given name n value args (inl e) (inr h) = inr (inr h)
  kept_given name n value args (inr e) h = inr (inl ((eq_iff n name).0 e))

  then_flags-Kept :
      (name value : String) (args : List (String × String)) (o : Progress Flags) (f g : Flags)
      → ((x : Flags) → parse_flags accepts args x ≡ goes_on g → Kept args x g)
      → set_flag accepts name value f ≡ o
      → then_flags (parse_flags accepts args) o ≡ goes_on g
      → Kept ((name, value) ∷ args) f g
  then_flags-Kept name value args (goes_on x) f g others e h =
      let (http2, secure) = set_flag_lem name value f x e in
      let (rest_http2, rest_secure) = others x h in
      (
        kept_given "enable-http2" name value args http2 rest_http2,
        kept_given "metrics-secure" name value args secure rest_secure,
      )
  then_flags-Kept name value args (exits n) f g others e h = absurd (ground arith)
  then_flags-Kept name value args crashes f g others e h = absurd (ground arith)

  parse_flags-Kept :
      (args : List (String × String)) (f g : Flags)
      → parse_flags accepts args f ≡ goes_on g
      → Kept args f g
  unfolding parse_flags
  parse_flags-Kept [] f g h = (inl (ground arith), inl (ground arith))
  parse_flags-Kept ((name, value) ∷ args) f g h =
      then_flags-Kept name value args (set_flag accepts name value f) f g
        (λ x k. parse_flags-Kept args x g k) refl h

-- The functions of `tlsOpts`, applied to a configuration in their order.
abbrev pub apply_tls : List (TlsConfig → TlsConfig) → TlsConfig → TlsConfig
apply_tls [] c = c
apply_tls (f ∷ fs) c = apply_tls fs (f c)

-- These functions ask for TLS 1.3 or newer, however the server is configured before.
abbrev pub MinTls13 : List (TlsConfig → TlsConfig) → Type 0
MinTls13 opts = (c : TlsConfig) → (apply_tls opts c).min_version ≡ version_tls13

-- A server with these functions offers HTTP/1.1 only.
abbrev pub Http1Only : List (TlsConfig → TlsConfig) → Type 0
Http1Only opts = (c : TlsConfig) → (apply_tls opts c).next_protos ≡ "http/1.1" ∷ []

restrict_tls-MinTls13 : (enable_http2 : Bool) → MinTls13 (restrict_tls enable_http2 ∷ [])
unfolding restrict_tls
restrict_tls-MinTls13 true c = refl
restrict_tls-MinTls13 false c = refl

restrict_tls-Http1Only :
    (enable_http2 : Bool) → enable_http2 ≡ false → Http1Only (restrict_tls enable_http2 ∷ [])
unfolding restrict_tls
restrict_tls-Http1Only true e c = absurd (ground arith)
restrict_tls-Http1Only false e c = refl

contains_nil : (x : String) → contains [] x ≡ false
unfolding contains
contains_nil x = refl

contains_same :
    (x n : String) (keys : List String)
    → contains keys n ≡ true
    → contains keys x ≡ (n == x || contains keys x)
contains_same x n keys h = elim (Bool-cases (n == x)) [
  | inl e ↦
      subst (λ y. contains keys y ≡ (n == y || contains keys y)) ((eq_iff n x).0 e)
        (rw (h, eq_refl n) refl)
  | inr e ↦ rw e refl
]

contains_added :
    (x n : String) (keys : List String)
    → contains (if contains keys n then keys else n ∷ keys) x ≡ (n == x || contains keys x)
unfolding contains
contains_added x n keys = elim (Bool-cases (contains keys n)) [
  | inl e ↦ rw e (contains_same x n keys e)
  | inr e ↦ rw e refl
]

default_namespaces-contains :
    (x : String) (namespaces keys : List String)
    → contains (default_namespaces namespaces keys) x ≡ (contains namespaces x || contains keys x)
unfolding default_namespaces contains
default_namespaces-contains x [] keys = refl
default_namespaces-contains x (n ∷ namespaces) keys =
    let ih =
      default_namespaces-contains x namespaces (if contains keys n then keys else n ∷ keys) in
    ground (arith, ih, contains_added x n keys)

kept_namespaces :
    (x : String) (namespaces : List String)
    → contains (default_namespaces namespaces []) x ≡ contains namespaces x
kept_namespaces x namespaces =
    ground (arith, default_namespaces-contains x namespaces [], contains_nil x)

module _ (accepts : String → String → Progress (Unit {0})) where
  -- Where the command line parses, the TLS functions of both servers of the manager ask for TLS 1.3
  -- or newer, and for HTTP/1.1 only unless the command line gives enable-http2; unless it gives
  -- metrics-secure, the metrics are served over TLS, and to authenticated and authorized clients
  -- only; and the cache holds the watched namespaces and no other.
  pub manager_options_secure :
      (args : List (String × String)) (flags : Flags) (namespaces : List String)
      → parse_flags accepts args declared ≡ goes_on flags
      → let o = manager_options flags namespaces in
        MinTls13 o.webhook_tls_opts
        × MinTls13 o.metrics.tls_opts
        × ((Http1Only o.webhook_tls_opts × Http1Only o.metrics.tls_opts)
            ⊎ Gives "enable-http2" args)
        × (((o.metrics.secure_serving ≡ true)
              × (o.metrics.filter_provider ≡ some with_authentication_and_authorization))
            ⊎ Gives "metrics-secure" args)
        × ((x : String) → contains o.cache_default_namespaces x ≡ contains namespaces x)
  unfolding manager_options metrics_server_options
  manager_options_secure args flags namespaces h =
      let (http2, secure) = parse_flags-Kept accepts args declared flags h in
      (
        restrict_tls-MinTls13 flags.enable_http2,
        restrict_tls-MinTls13 flags.enable_http2,
        elim http2 [
          | inl e ↦ inl (
            restrict_tls-Http1Only flags.enable_http2 e,
            restrict_tls-Http1Only flags.enable_http2 e,
          )
          | inr given ↦ inr given
        ],
        elim secure [ inl e ↦ inl (e, rw e refl) | inr given ↦ inr given ],
        λ x. kept_namespaces x namespaces,
      )
