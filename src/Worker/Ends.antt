-- ===== src/Worker/Ends.antt =====
-- How the service's methods end where the world answers: with which exceptions, and in which
-- worlds; one rule for each way to build a method.
use greenference_node.Base.{Bool, true, false, ◌≡◌, refl, if◌then◌else◌}
use greenference_node.Agent.Exec.{
  Agent, Exec, Outcome, returned, raised, Raised, still_running, http_error, pure, raise, gets,
  call, try_, ◌>>=◌, continue, recover, locked, let_go, unless_busy,
}

-- A value in a state of P, or an exception of E in a state of P.
unfoldable pub Ends : {X A : Type 0} → (Raised → Type 0) → (X → Type 0) → Outcome A × X → Type 0
Ends E P (returned x, y) = P y
Ends E P (raised e, y) = E e × P y

-- no exception, an error of the control plane, or any exception that a handler can catch
abbrev pub Never : Raised → Type 0
Never e = ⊥

unfoldable pub HttpOnly : Raised → Type 0
HttpOnly http_error = Unit
HttpOnly _ = ⊥

unfoldable pub Caught : Raised → Type 0
Caught still_running = ⊥
Caught _ = Unit

-- The lock is as `l` says, and the world is one of Q.
pub record In {W : Type 0} (Q : W → Type 0) (l : Bool) (a : Agent W) : Type 0 where
  pub world : Q a.world
  pub lock : a.reconciling ≡ l

pub record Ending {W A : Type 0} (E : Raised → Type 0) (P : Agent W → Type 0) (m : Exec W A)
    : Type 0 where
  pub at : (a : Agent W) → P a → Ends E P (m a)

module _ {W A B : Type 0} {E : Raised → Type 0} {P : Agent W → Type 0} where
  continue-Ends :
      (f : A → Exec W B) (r : Outcome A) (a : Agent W)
      → ((x : A) → Ending E P (f x))
      → Ends E P (r, a)
      → Ends E P (continue f (r, a))
  unfolding continue Ends
  continue-Ends f (returned x) a ef p = (ef x).at a p
  continue-Ends f (raised e) a ef p = p

  pub Ending-bind :
      (m : Exec W A) (f : A → Exec W B)
      → Ending E P m
      → ((x : A) → Ending E P (f x))
      → Ending E P (m >>= f)
  unfolding ◌>>=◌
  Ending-bind m f em ef = record {
    at = λ a p. let (r, b) = m a in continue-Ends f r b ef (em.at a p);
  }

module _ {W A : Type 0} {E : Raised → Type 0} {P : Agent W → Type 0} where
  pub Ending-pure : (x : A) → Ending E P (pure x)
  unfolding pure Ends
  Ending-pure x = record { at = λ a p. p }

  pub Ending-gets : (f : Agent W → A) → Ending E P (gets f)
  unfolding gets Ends
  Ending-gets f = record { at = λ a p. p }

  pub Ending-raise : (e : Raised) → E e → Ending E P (raise {A = A} e)
  unfolding raise Ends
  Ending-raise e h = record { at = λ a p. (h, p) }

  pub Ending-if :
      (b : Bool) (m n : Exec W A) → Ending E P m → Ending E P n → Ending E P (if b then m else n)
  Ending-if true m n em en = em
  Ending-if false m n em en = en

  recover-Ends :
      {F : Raised → Type 0} (h : Raised → Exec W A) (r : Outcome A) (a : Agent W)
      → (F still_running → ⊥)
      → ((e : Raised) → F e → Ending E P (h e))
      → Ends F P (r, a)
      → Ends E P (recover h (r, a))
  unfolding recover Ends
  recover-Ends h (returned x) a free eh p = p
  recover-Ends h (raised still_running) a free eh p = elim (free p.0) [ ]
  recover-Ends h (raised e) a free eh p = (eh e p.0).at a p.1

  pub Ending-try :
      {F : Raised → Type 0} (m : Exec W A) (h : Raised → Exec W A)
      → (F still_running → ⊥)
      → Ending F P m
      → ((e : Raised) → F e → Ending E P (h e))
      → Ending E P (try_ m h)
  unfolding try_
  Ending-try m h free em eh = record {
    at = λ a p. let (r, b) = m a in recover-Ends h r b free eh (em.at a p);
  }

module _ {W A B C : Type 0} where
  continue_assoc :
      (E : Raised → Type 0) (P : Agent W → Type 0) (g : A → Exec W B) (f : B → Exec W C)
      (r : Outcome A) (a : Agent W)
      → Ends E P (continue f (continue g (r, a)))
      → Ends E P (continue (λ x. g x >>= f) (r, a))
  unfolding continue ◌>>=◌ Ends
  continue_assoc E P g f (returned x) a p = p
  continue_assoc E P g f (raised e) a p = p

  pub Ending-assoc :
      {E : Raised → Type 0} {P : Agent W → Type 0} (m : Exec W A) (g : A → Exec W B)
      (f : B → Exec W C)
      → Ending E P (m >>= g >>= f)
      → Ending E P (m >>= λ x. g x >>= f)
  unfolding ◌>>=◌
  Ending-assoc m g f em = record {
    at = λ a p. let (r, b) = m a in continue_assoc _ _ g f r b (em.at a p);
  }

module _ {W A : Type 0} (E : Raised → Type 0) (Q : W → Type 0) (l : Bool) where
  call-Ends :
      (r : Outcome A) (w : W) (a : Agent W)
      → a.reconciling ≡ l
      → Ends E Q (r, w)
      → Ends E (In Q l) (r, record a { world = w })
  unfolding Ends
  call-Ends (returned x) w a k q = record { world = q; lock = k }
  call-Ends (raised e) w a k q = (q.0, record { world = q.1; lock = k })

  pub Ending-call :
      (f : W → Outcome A × W) → ((w : W) → Q w → Ends E Q (f w)) → Ending E (In Q l) (call f)
  unfolding call
  Ending-call f h = record {
    at = λ a p. let (r, w) = f a.world in call-Ends r w a p.lock (h a.world p.world);
  }

module _ {W A : Type 0} (Q : W → Type 0) where
  let_go-Ends :
      (r : Outcome A) (a : Agent W)
      → Ends Never (In Q true) (r, a)
      → Ends Never (In Q false) (let_go (r, a))
  unfolding let_go locked Ends
  let_go-Ends (returned x) a p = record { world = p.world; lock = refl }
  let_go-Ends (raised e) a p = elim p.0 [ ]

  -- A method that takes the lock where it is free.
  pub unless_busy-Ends :
      (busy : A) (m : Exec W A) (a : Agent W)
      → Ending Never (In Q true) m
      → In Q false a
      → Ends Never (In Q false) (unless_busy busy m a)
  unfolding unless_busy locked
  unless_busy-Ends busy m a em p =
      let (r, b) = m (locked true a) in
      rw p.lock (let_go-Ends r b (em.at (locked true a) (record { world = p.world; lock = refl })))

pub ruleset ends_rules =
    (Ending-pure, Ending-gets, Ending-raise, Ending-if, Ending-try, Ending-bind, Ending-call)
