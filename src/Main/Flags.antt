-- ===== src/Main/Flags.antt =====
-- cmd/main.go: the flags of the operator, with their defaults, and what a command line makes of them.
use osls_operator.Base.{
  String, ◌==◌, Bool, true, false, Option, none, some, List, [], ◌∷◌, contains, if◌then◌else◌,
}
use osls_operator.Main.Launch.{Progress, goes_on, exits, crashes}

pub record Flags : Type 0 where
  pub metrics_addr : String
  pub probe_addr : String
  pub enable_leader_election : Bool
  pub secure_metrics : Bool
  pub enable_http2 : Bool

-- The defaults that the flags are declared with.
abbrev pub declared : Flags
declared = record {
  metrics_addr = "0";
  probe_addr = ":8081";
  enable_leader_election = false;
  secure_metrics = true;
  enable_http2 = false;
}

-- `strconv.ParseBool`
unfoldable pub parse_bool : String → Option Bool
unfolding contains
parse_bool text =
    if contains ("1" ∷ "t" ∷ "T" ∷ "true" ∷ "TRUE" ∷ "True" ∷ []) text
    then some true
    else if contains ("0" ∷ "f" ∷ "F" ∷ "false" ∷ "FALSE" ∷ "False" ∷ []) text
    then some false
    else none

-- A flag of the package `flag` that does not parse ends the process with status 2.
abbrev pub on_bool : (Bool → Flags) → Option Bool → Progress Flags
on_bool set (some b) = goes_on (set b)
on_bool set none = exits 2

-- The other flags of the command line: those of zap and of controller-runtime, and those that
-- nobody has declared.
abbrev pub other_flag : Flags → Progress (Unit {0}) → Progress Flags
other_flag flags (goes_on _) = goes_on flags
other_flag flags (exits n) = exits n
other_flag flags crashes = crashes

abbrev pub then_flags : (Flags → Progress Flags) → Progress Flags → Progress Flags
then_flags f (goes_on flags) = f flags
then_flags f (exits n) = exits n
then_flags f crashes = crashes

module _ (accepts : String → String → Progress (Unit {0})) where
  -- One argument `-name=value`.
  unfoldable pub set_flag : String → String → Flags → Progress Flags
  unfolding parse_bool
  set_flag name value flags =
      if name == "metrics-bind-address"
      then goes_on (record flags { metrics_addr = value })
      else if name == "health-probe-bind-address"
      then goes_on (record flags { probe_addr = value })
      else if name == "leader-elect"
      then on_bool (λ b. record flags { enable_leader_election = b }) (parse_bool value)
      else if name == "metrics-secure"
      then on_bool (λ b. record flags { secure_metrics = b }) (parse_bool value)
      else if name == "enable-http2"
      then on_bool (λ b. record flags { enable_http2 = b }) (parse_bool value)
      else other_flag flags (accepts name value)

  -- `flag.Parse`, for a command line that is taken apart into names and values
  unfoldable pub parse_flags : List (String × String) → Flags → Progress Flags
  unfolding set_flag
  parse_flags [] flags = goes_on flags
  parse_flags ((name, value) ∷ args) flags =
      then_flags (parse_flags args) (set_flag name value flags)
