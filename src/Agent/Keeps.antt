-- ===== src/Agent/Keeps.antt =====
-- Invariants of the service's methods, one rule for each way to build a method.
use greenference_node.Base.{Bool, true, false, Option, none, some, if◌then◌else◌}
use greenference_node.Agent.Exec.{
  continue, recover, Agent, Exec, Outcome, returned, raised, Raised, still_running, pure, raise,
  gets, call, try_, ◌>>=◌, match_option, unless_busy, locked, let_go,
}

-- `m` keeps `P`, whether it returns or raises.
pub record Keeps {W A : Type 0} (P : Agent W → Type 0) (m : Exec W A) : Type 0 where
  pub at : (a : Agent W) → P a → P (m a).1

-- `P` does not speak of the world outside or of the lock.
pub record IsInner {W : Type 0} (P : Agent W → Type 0) : Type 0 where
  pub world : (a : Agent W) (w : W) → P a → P (record a { world = w })
  pub lock : (a : Agent W) (b : Bool) → P a → P (locked b a)

module _ {W A : Type 0} where
  if_keeps :
      (P : Agent W → Type 0) (b : Bool) (r t : Outcome A × Agent W)
      → P r.1
      → P t.1
      → P (if b then r else t).1
  if_keeps P true r t pr pt = pr
  if_keeps P false r t pr pt = pt

module _ {W A : Type 0} {P : Agent W → Type 0} where
  pub Keeps-pure : (x : A) → Keeps P (pure x)
  unfolding pure
  Keeps-pure x = record { at = λ a h. h }

  pub Keeps-raise : (e : Raised) → Keeps P (raise {A = A} e)
  unfolding raise
  Keeps-raise e = record { at = λ a h. h }

  pub Keeps-gets : (f : Agent W → A) → Keeps P (gets f)
  unfolding gets
  Keeps-gets f = record { at = λ a h. h }

  pub Keeps-call : (f : W → Outcome A × W) → IsInner P → Keeps P (call f)
  unfolding call
  Keeps-call f inner = record { at = λ a h. inner.world a (f a.world).1 h }

  pub Keeps-if : (b : Bool) (m n : Exec W A) → Keeps P m → Keeps P n → Keeps P (if b then m else n)
  Keeps-if true m n km kn = km
  Keeps-if false m n km kn = kn

  recover_keeps :
      (h : Raised → Exec W A) (r : Outcome A) (a : Agent W)
      → ((e : Raised) → Keeps P (h e))
      → P a
      → P (recover h (r, a)).1
  unfolding recover
  recover_keeps h (returned x) a kh p = p
  recover_keeps h (raised still_running) a kh p = p
  recover_keeps h (raised e) a kh p = (kh e).at a p

  pub Keeps-try :
      (m : Exec W A) (h : Raised → Exec W A)
      → Keeps P m
      → ((e : Raised) → Keeps P (h e))
      → Keeps P (try_ m h)
  unfolding try_
  Keeps-try m h km kh = record {
    at = λ a p. let (r, b) = m a in recover_keeps h r b kh (km.at a p);
  }

  let_go_keeps : (r : Outcome A) (a : Agent W) → IsInner P → P a → P (let_go (r, a)).1
  unfolding let_go
  let_go_keeps (returned x) a inner p = inner.lock a false p
  let_go_keeps (raised still_running) a inner p = p
  let_go_keeps (raised e) a inner p = inner.lock a false p

  pub Keeps-unless_busy : (x : A) (m : Exec W A) → IsInner P → Keeps P m → Keeps P (unless_busy x m)
  unfolding unless_busy
  Keeps-unless_busy x m inner km = record {
    at = λ a p.
        let (r, b) = m (locked true a) in
        if_keeps P a.reconciling (returned x, a) (let_go (r, b)) p
          (let_go_keeps r b inner (km.at (locked true a) (inner.lock a true p)));
  }

module _ {W A B : Type 0} {P : Agent W → Type 0} where
  continue_keeps :
      (f : A → Exec W B) (r : Outcome A) (a : Agent W)
      → ((x : A) → Keeps P (f x))
      → P a
      → P (continue f (r, a)).1
  unfolding continue
  continue_keeps f (returned x) a kf p = (kf x).at a p
  continue_keeps f (raised e) a kf p = p

  pub Keeps-bind :
      (m : Exec W A) (f : A → Exec W B) → Keeps P m → ((x : A) → Keeps P (f x)) → Keeps P (m >>= f)
  unfolding ◌>>=◌
  Keeps-bind m f km kf = record {
    at = λ a p. let (r, b) = m a in continue_keeps f r b kf (km.at a p);
  }

  pub Keeps-match_option :
      (o : Option A) (m : Exec W B) (f : A → Exec W B)
      → Keeps P m
      → ((x : A) → Keeps P (f x))
      → Keeps P (match_option o m f)
  unfolding match_option
  Keeps-match_option none m f km kf = km
  Keeps-match_option (some x) m f km kf = kf x

-- `m` brings about `P`, whatever held before.
pub record Makes {W A : Type 0} (P : Agent W → Type 0) (m : Exec W A) : Type 0 where
  pub at : (a : Agent W) → P (m a).1

module _ {W A B : Type 0} {P : Agent W → Type 0} where
  pub Makes-bind :
      (m : Exec W A) (f : A → Exec W B) → Makes P m → ((x : A) → Keeps P (f x)) → Makes P (m >>= f)
  unfolding ◌>>=◌
  Makes-bind m f km kf = record { at = λ a. let (r, b) = m a in continue_keeps f r b kf (km.at a) }

pub ruleset keeps_rules = (
  Keeps-unless_busy, Keeps-pure, Keeps-raise, Keeps-gets, Keeps-call, Keeps-if, Keeps-try,
  Keeps-bind, Keeps-match_option,
)
