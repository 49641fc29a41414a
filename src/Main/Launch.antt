-- ===== src/Main/Launch.antt =====
-- The process of cmd/main.go: its steps go on, exit with a status, or crash.
use osls_operator.Base.{List, ◌∷◌, ℕ, Result, ok, err}
use osls_operator.Platform.{Call}
use osls_operator.Platform.Exec.{Outcome, returns, fails, panics}

pub data Progress (A : Type 0) : Type 0 where
  goes_on : A → Progress A
  exits : ℕ → Progress A
  crashes : Progress A

-- The state that the libraries keep, and the stages that the process has entered, the newest
-- first, which is bookkeeping for the theorems.
pub record Process (S T : Type 0) : Type 0 where
  pub state : S
  pub stages : List T

abbrev pub Launch : Type 0 → Type 0 → Type 0 → Type 0
Launch S T A = Process S T → Progress A × Process S T

abbrev pub proceed : {S T A B : Type 0} → (A → Launch S T B) → Progress A → Launch S T B
proceed f (goes_on a) p = f a p
proceed f (exits n) p = (exits n, p)
proceed f crashes p = (crashes, p)

module _ {S T A B : Type 0} where
  infixl 5 ◌>>=◌ ◌>>◌
  abbrev pub ◌>>=◌ : Launch S T A → (A → Launch S T B) → Launch S T B
  ◌>>=◌ m f p = proceed f (m p).0 (m p).1

  abbrev pub ◌>>◌ : Launch S T A → Launch S T B → Launch S T B
  m >> k = m >>= λ _. k

module _ {A : Type 0} where
  -- `if err != nil { setupLog.Error(…); os.Exit(1) }`
  abbrev pub exit_on_error : Outcome A → Progress A
  exit_on_error (returns a) = goes_on a
  exit_on_error (fails e) = exits 1
  exit_on_error panics = crashes

  -- `utilruntime.Must`
  abbrev pub crash_on_error : Outcome A → Progress A
  crash_on_error (returns a) = goes_on a
  crash_on_error (fails e) = crashes
  crash_on_error panics = crashes

  abbrev pub result_progress : Result A → Progress A
  result_progress (ok a) = goes_on a
  result_progress (err e) = exits 1

module _ {S T A : Type 0} where
  abbrev pub settle : Progress A → Launch S T A
  settle o p = (o, p)

  -- a call that may end the process by itself
  abbrev pub or_die : (S → Progress A × S) → Launch S T A
  or_die k p = let (o, s) = k p.state in (o, record p { state = s })

  -- `utilruntime.Must` of a call
  abbrev pub must : Call S A → Launch S T A
  must k p = let (o, s) = k p.state in (crash_on_error o, record p { state = s })

  -- Entering a stage, with its call.
  abbrev pub stage : T → Call S A → Launch S T A
  stage t k p =
      let (o, s) = k p.state in (exit_on_error o, record { state = s; stages = t ∷ p.stages })

module _ {S T : Type 0} where
  abbrev pub enter : T → Launch S T (Unit {0})
  enter t p = (goes_on tt, record p { stages = t ∷ p.stages })
