-- ===== src/Base/Actions.antt =====
-- Methods that change a state and may raise: what was written before a raise stays written. `Holds`
-- is the logic to reason about them, with an invariant that returns and raises keep, a precondition and
-- a postcondition.
use mathlib.Core.Path.{◌≡◌, refl}
use mathlib.Core.Bool.{Bool, true, false}
use langgraph_refund_agent.Base.Tests.{if◌then◌else◌}
use langgraph_refund_agent.Base.Results.{Result, ok, err}

abbrev pub Exec : Type 0 → Type 0 → Type 0 → Type 0
Exec S E A = S → Result E A × S

module _ {S E A : Type 0} where
  unfoldable pub pure : A → Exec S E A
  pure a s = (ok a, s)

  unfoldable pub raise : E → Exec S E A
  raise e s = (err e, s)

  unfoldable pub lift : Result E A → Exec S E A
  lift r s = (r, s)

  attempted : Result E A × S → Result E (Result E A) × S
  attempted (r, s) = (ok r, s)

  -- `try`: what the action returned or raised, as a value.
  unfoldable pub attempt : Exec S E A → Exec S E (Result E A)
  unfolding attempted
  attempt m s = attempted (m s)

module _ {S E A B : Type 0} where
  continue : Result E A × S → (A → Exec S E B) → Result E B × S
  continue (ok a, s) f = f a s
  continue (err e, s) f = (err e, s)

  infixl 5 ◌>>=◌ ◌>>◌
  unfoldable pub ◌>>=◌ : Exec S E A → (A → Exec S E B) → Exec S E B
  unfolding continue
  ◌>>=◌ m f s = continue (m s) f

  abbrev pub ◌>>◌ : Exec S E A → Exec S E B → Exec S E B
  m >> k = m >>= λ _. k

-- `raise e` where the test is true.
unfoldable pub raise_when : {S E : Type 0} → Bool → E → Exec S E (Unit {0})
unfolding pure raise
raise_when true e = raise e
raise_when false e = pure tt

module _ {S E : Type 0} (I : S → Type 0) where
  -- What holds after an action: the postcondition where it returned, and the invariant in both cases.
  abbrev pub After : {A : Type 0} → (A → S → Type 0) → Result E A × S → Type 0
  After Q (ok a, s) = I s × Q a s
  After Q (err e, s) = I s

  pub record Holds {A : Type 0} (P : S → Type 0) (m : Exec S E A) (Q : A → S → Type 0)
      : Type 0 where
    pub at : (s : S) → I s → P s → After Q (m s)

-- What a value that an attempt returned says: the postcondition, where the action returned.
abbrev pub OnOk : {S E A : Type 0} → (A → S → Type 0) → Result E A → S → Type 0
OnOk Q (ok a) s = Q a s
OnOk Q (err e) s = Unit

module _ {S E A : Type 0} (I : S → Type 0) (Q : A → S → Type 0) where
  attempted_lem : (r : Result E A × S) → After I Q r → After {E = E} I (OnOk Q) (attempted r)
  unfolding attempted
  attempted_lem (ok a, s) h = h
  attempted_lem (err e, s) i = (i, tt)

module _ {S E : Type 0} {I : S → Type 0} {A : Type 0} {P : S → Type 0} {Q : A → S → Type 0} where
  pub Holds-pure : (a : A) → ((s : S) → I s → P s → Q a s) → Holds {E = E} I P (pure a) Q
  unfolding pure
  Holds-pure a h = record { at = λ s i p. (i, h s i p) }

  pub Holds-raise : (e : E) → Holds {E = E} I P (raise e) Q
  unfolding raise
  Holds-raise e = record { at = λ s i p. i }

  pub Holds-if :
      (b : Bool) {m n : Exec S E A}
      → (b ≡ true → Holds I P m Q)
      → (b ≡ false → Holds I P n Q)
      → Holds I P (if b then m else n) Q
  Holds-if true h k = h refl
  Holds-if false h k = k refl

  pub Holds-lift :
      (r : Result E A) → ((a : A) → r ≡ ok a → (s : S) → I s → P s → Q a s) → Holds I P (lift r) Q
  unfolding lift
  Holds-lift (ok a) h = record { at = λ s i p. (i, h a refl s i p) }
  Holds-lift (err e) h = record { at = λ s i p. i }

  pub Holds-attempt : {m : Exec S E A} → Holds I P m Q → Holds {E = E} I P (attempt m) (OnOk Q)
  unfolding attempt
  Holds-attempt {m} h = record { at = λ s i p. attempted_lem I Q (m s) (h.at s i p) }

module _ {S E A B : Type 0} (I : S → Type 0) (Q : A → S → Type 0) (R : B → S → Type 0) where
  continue_lem :
      (r : Result E A × S) (f : A → Exec S E B)
      → After I Q r
      → ((a : A) → Holds {E = E} I (Q a) (f a) R)
      → After I R (continue r f)
  unfolding continue
  continue_lem (ok a, s) f (i, q) k = (k a).at s i q
  continue_lem (err e, s) f i k = i

module _ {S E A B : Type 0} {I : S → Type 0} {P : S → Type 0} where
  pub Holds-bind :
      (Q : A → S → Type 0) {R : B → S → Type 0} {m : Exec S E A} {f : A → Exec S E B}
      → Holds I P m Q
      → ((a : A) → Holds I (Q a) (f a) R)
      → Holds I P (m >>= f) R
  unfolding ◌>>=◌
  Holds-bind Q {R} {m} {f} h k = record { at = λ s i p. continue_lem I Q R (m s) f (h.at s i p) k }

  -- A chain that begins with a result goes on with what it holds.
  pub Holds-bind-lift :
      (r : Result E A) {R : B → S → Type 0} {f : A → Exec S E B}
      → ((a : A) → r ≡ ok a → Holds I P (f a) R)
      → Holds I P (lift r >>= f) R
  unfolding ◌>>=◌ lift continue
  Holds-bind-lift (ok a) h = record { at = λ s i p. (h a refl).at s i p }
  Holds-bind-lift (err e) h = record { at = λ s i p. i }

module _ {S E B : Type 0} {I : S → Type 0} {P : S → Type 0} where
  -- A test that raises is known to be false afterwards.
  pub Holds-raise_when :
      (b : Bool) (e : E) {R : B → S → Type 0} {k : Exec S E B}
      → (b ≡ false → Holds I P k R)
      → Holds I P (raise_when b e >> k) R
  unfolding ◌>>=◌ raise_when pure raise continue
  Holds-raise_when true e h = record { at = λ s i p. i }
  Holds-raise_when false e {R} {k} h = record { at = λ s i p. (h refl).at s i p }

module _ {S E A : Type 0} (I : S → Type 0) (Q R : A → S → Type 0) where
  concluded :
      ((a : A) (s : S) → I s → Q a s → R a s) → (r : Result E A × S) → After I Q r → After I R r
  concluded h (ok a, s) (i, q) = (i, h a s i q)
  concluded h (err e, s) i = i

module _ {S E A : Type 0} {I : S → Type 0} {P : S → Type 0} {Q : A → S → Type 0} where
  pub Holds-weaken :
      {R : S → Type 0} {m : Exec S E A}
      → ((s : S) → I s → P s → R s)
      → Holds I R m Q
      → Holds I P m Q
  Holds-weaken h k = record { at = λ s i p. k.at s i (h s i p) }

  -- A part of the precondition that is no condition on the state.
  pub Holds-given : {F : Type 0} {m : Exec S E A} → (F → Holds I P m Q) → Holds I (λ s. F × P s) m Q
  Holds-given h = record { at = λ s i p. (h p.0).at s i p.1 }

  pub Holds-conclude :
      {R : A → S → Type 0} {m : Exec S E A}
      → ((a : A) (s : S) → I s → Q a s → R a s)
      → Holds I P m Q
      → Holds I P m R
  Holds-conclude {R} {m} h k = record { at = λ s i p. concluded I Q R h (m s) (k.at s i p) }

  -- A test that is known to be true raises.
  pub Holds-blocked :
      (b : Bool) (e : E) (k : Exec S E A)
      → ((s : S) → I s → P s → b ≡ true)
      → Holds I P (raise_when b e >> k) Q
  unfolding ◌>>=◌ raise_when pure raise continue
  Holds-blocked true e k h = record { at = λ s i p. i }
  Holds-blocked false e k h = record { at = λ s i p. absurd (never (h s i p)) }
    where
      never : false ≡ true → ⊥
      never x = cc

-- An action that keeps a condition on the state, whether it returns or raises.
pub record Keeps {S E A : Type 0} (C : S → Type 0) (m : Exec S E A) : Type 0 where
  pub at : (s : S) → C s → C (m s).1

module _ {S E A : Type 0} {C : S → Type 0} where
  pub Keeps-pure : (a : A) → Keeps {E = E} C (pure a)
  unfolding pure
  Keeps-pure a = record { at = λ s h. h }

  pub Keeps-raise : (e : E) → Keeps {A = A} C (raise e)
  unfolding raise
  Keeps-raise e = record { at = λ s h. h }

  pub Keeps-lift : (r : Result E A) → Keeps C (lift r)
  unfolding lift
  Keeps-lift r = record { at = λ s h. h }

  pub Keeps-if :
      (b : Bool) (m n : Exec S E A) → Keeps C m → Keeps C n → Keeps C (if b then m else n)
  Keeps-if true m n h k = h
  Keeps-if false m n h k = k

  pub Keeps-attempt : (m : Exec S E A) → Keeps C m → Keeps C (attempt m)
  unfolding attempt attempted
  Keeps-attempt m h = record { at = h.at }

module _ {S E : Type 0} {C : S → Type 0} where
  pub Keeps-raise_when : (b : Bool) (e : E) → Keeps C (raise_when b e)
  unfolding raise_when raise pure
  Keeps-raise_when true e = record { at = λ s h. h }
  Keeps-raise_when false e = record { at = λ s h. h }

module _ {S E A B : Type 0} {C : S → Type 0} where
  continued :
      (r : Result E A) (f : A → Exec S E B) (s : S)
      → C s
      → ((a : A) → Keeps C (f a))
      → C (continue (r, s) f).1
  unfolding continue
  continued (ok a) f s h k = (k a).at s h
  continued (err e) f s h k = h

  pub Keeps-bind :
      (m : Exec S E A) (f : A → Exec S E B)
      → Keeps C m
      → ((a : A) → Keeps C (f a))
      → Keeps C (m >>= f)
  unfolding ◌>>=◌
  Keeps-bind m f h k = record { at = λ s c. let (r, t) = m s in continued r f t (h.at s c) k }

pub ruleset keeps_rules =
    (Keeps-pure, Keeps-raise, Keeps-lift, Keeps-if, Keeps-attempt, Keeps-raise_when, Keeps-bind)
