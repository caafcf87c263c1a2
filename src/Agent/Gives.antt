-- ===== src/Agent/Gives.antt =====
-- What the service's methods return, one rule for each way to build a method.
use greenference_node.Base.{Bool, true, false, if◌then◌else◌}
use greenference_node.Agent.Exec.{
  Agent, Exec, Outcome, returned, raised, Raised, still_running, pure, raise, try_, ◌>>=◌, continue,
  recover,
}

-- Whatever `m` returns satisfies Q.
abbrev pub OnReturn : {A : Type 0} → (A → Type 0) → Outcome A → Type 0
OnReturn Q (returned x) = Q x
OnReturn Q (raised e) = Unit

pub record Gives {W A : Type 0} (Q : A → Type 0) (m : Exec W A) : Type 0 where
  pub at : (a : Agent W) → OnReturn Q (m a).0

module _ {W A B : Type 0} {R : A → Type 0} {Q : B → Type 0} where
  continue-Gives :
      (f : A → Exec W B) (r : Outcome A) (a : Agent W)
      → ((x : A) → R x → Gives Q (f x))
      → OnReturn R r
      → OnReturn Q (continue f (r, a)).0
  unfolding continue
  continue-Gives f (returned x) a gf q = (gf x q).at a
  continue-Gives f (raised e) a gf q = tt

  pub Gives-bind :
      (m : Exec W A) (f : A → Exec W B)
      → Gives R m
      → ((x : A) → R x → Gives Q (f x))
      → Gives Q (m >>= f)
  unfolding ◌>>=◌
  Gives-bind m f gm gf = record { at = λ a. let (r, b) = m a in continue-Gives f r b gf (gm.at a) }

module _ {W A : Type 0} {Q : A → Type 0} where
  pub Gives-pure : (x : A) → Q x → Gives {W = W} Q (pure x)
  unfolding pure
  Gives-pure x q = record { at = λ a. q }

  pub Gives-raise : (e : Raised) → Gives {W = W} Q (raise e)
  unfolding raise
  Gives-raise e = record { at = λ a. tt }

  pub Gives-if : (b : Bool) (m n : Exec W A) → Gives Q m → Gives Q n → Gives Q (if b then m else n)
  Gives-if true m n gm gn = gm
  Gives-if false m n gm gn = gn

  recover-Gives :
      (h : Raised → Exec W A) (r : Outcome A) (a : Agent W)
      → ((e : Raised) → Gives Q (h e))
      → OnReturn Q r
      → OnReturn Q (recover h (r, a)).0
  unfolding recover
  recover-Gives h (returned x) a gh q = q
  recover-Gives h (raised still_running) a gh q = tt
  recover-Gives h (raised e) a gh q = (gh e).at a

  pub Gives-try :
      (m : Exec W A) (h : Raised → Exec W A)
      → Gives Q m
      → ((e : Raised) → Gives Q (h e))
      → Gives Q (try_ m h)
  unfolding try_
  Gives-try m h gm gh = record { at = λ a. let (r, b) = m a in recover-Gives h r b gh (gm.at a) }

pub any-Gives : {W A : Type 0} (m : Exec W A) → Gives (λ _. Unit {0}) m
any-Gives m = record { at = λ a. any (m a).0 }
  where
    any : {A : Type 0} (r : Outcome A) → OnReturn {A = A} (λ _. Unit {0}) r
    any (returned x) = tt
    any (raised e) = tt
