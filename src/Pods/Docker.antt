-- ===== src/Pods/Docker.antt =====
-- `subprocess.run` on the docker command line, as the pod and inference backends call it. Docker is
-- a parameter: it may answer anything, raise an OSError and change the world.
use greenference_node.Base.{ℕ, zero, suc, String, Bool, Option, none, some, List, if◌then◌else◌}
use greenference_node.Text.Words.{is_empty}
use greenference_node.Agent.Exec.{Outcome, returned, raised, Raised}

-- What a run gives: whether the return code is zero, with the output and the errors; or the
-- FileNotFoundError or TimeoutExpired that the backends name. Another error is raised.
pub data Completion : Type 0 where
  completed : Bool → String → String → Completion
  missing timed_out : Completion

pub record Docker (W : Type 0) : Type 0 where
  pub run : List String → W → Outcome Completion × W

abbrev pub Call : Type 0 → Type 0 → Type 0
Call W A = W → Outcome A × W

unfoldable pub continue : {W A B : Type 0} → (A → Call W B) → Outcome A × W → Outcome B × W
continue f (returned x, w) = f x w
continue f (raised e, w) = (raised e, w)

infixl 5 ◌>>=◌
unfoldable pub ◌>>=◌ : {W A B : Type 0} → Call W A → (A → Call W B) → Call W B
unfolding continue
◌>>=◌ m f w = continue f (m w)

unfoldable pub pure : {W A : Type 0} → A → Call W A
pure x w = (returned x, w)

unfoldable pub raise : {W A : Type 0} → Raised → Call W A
raise e w = (raised e, w)

-- `if runtime.container_id`: an empty text is no container.
unfoldable pub nonempty : Option String → Option String
unfolding is_empty
nonempty none = none
nonempty (some s) = if is_empty s then none else some s

-- `s[:n]`
unfoldable pub prefix : ℕ → String → String
prefix zero s = ""
prefix (suc n) String.[] = ""
prefix (suc n) (String.◌∷◌ c s) = String.◌∷◌ c (prefix n s)
