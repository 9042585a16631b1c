-- ===== src/Run/Keeps.antt =====
-- Invariants of effectful code, with one rule for each way to build it.
use ansible_go.Base.{◌≡◌, refl, sym, subst, Bool, true, false, false≢true, if◌then◌else◌}
use ansible_go.Run.{Exn, Result, ok, err, Run, continue, handle, pure, raise, lift, gets, attempt}
use ansible_go.Run.{modify, ◌>>=◌}

-- What holds of the state before the run holds of the state after it, also after an exception.
pub record Keeps {S A : Type 0} (P : S → Type 0) (run : Run S A) : Type 0 where
  pub at : (before : S) → P before → P (run before).1

-- A run that leaves the state as it is.
Keeps-still :
    {S A : Type 0} {P : S → Type 0} (run : Run S A)
    → ((before : S) → (run before).1 ≡ before)
    → Keeps P run
Keeps-still {P} run same = record { at = λ before held. subst P (sym (same before)) held }

module _ {S V : Type 0} {P : S → Type 0} where
  pub Keeps-gets : (read : S → V) → Keeps P (gets read)
  unfolding gets
  Keeps-gets read = Keeps-still (gets read) (λ before. refl)

  pub Keeps-lift : (outcome : Result V) → Keeps P (lift outcome)
  unfolding lift
  Keeps-lift outcome = Keeps-still (lift outcome) (λ before. refl)

  pub Keeps-raise : (error : Exn) → Keeps P (raise {A = V} error)
  unfolding raise
  Keeps-raise error = Keeps-still (raise error) (λ before. refl)

  pub Keeps-pure : (value : V) → Keeps P (pure value)
  unfolding pure
  Keeps-pure value = Keeps-still (pure value) (λ before. refl)

module _ {S A : Type 0} {P : S → Type 0} where
  pub Keeps-attempt : (m : Run S A) → Keeps P m → Keeps P (attempt m)
  unfolding attempt
  Keeps-attempt m k = record { at = λ s h. k.at s h }

  pub Keeps-if : (b : Bool) (m n : Run S A) → Keeps P m → Keeps P n → Keeps P (if b then m else n)
  Keeps-if true m n km kn = km
  Keeps-if false m n km kn = kn

  -- One branch, where the test is known.
  pub Keeps-then : (b : Bool) (m n : Run S A) → b ≡ true → Keeps P m → Keeps P (if b then m else n)
  Keeps-then true m n h k = k
  Keeps-then false m n h k = absurd (false≢true h)

  pub Keeps-else : (b : Bool) (m n : Run S A) → b ≡ false → Keeps P n → Keeps P (if b then m else n)
  Keeps-else true m n h k = absurd (false≢true (sym h))
  Keeps-else false m n h k = k

  pub Keeps-handle :
      {B : Type 0} (r : Result B) (failed : Exn → Run S A) (f : B → Run S A)
      → ((e : Exn) → Keeps P (failed e))
      → ((b : B) → Keeps P (f b))
      → Keeps P (handle r failed f)
  unfolding handle
  Keeps-handle (ok b) failed f kfailed kf = kf b
  Keeps-handle (err e) failed f kfailed kf = kfailed e

pub Keeps-both :
    {S A : Type 0} {P Q : S → Type 0} {m : Run S A}
    → Keeps P m
    → Keeps Q m
    → Keeps (λ s. P s × Q s) m
Keeps-both p q = record { at = λ s h. (p.at s h.0, q.at s h.1) }

pub Keeps-modify :
    {S : Type 0} {P : S → Type 0} (f : S → S) → ((s : S) → P s → P (f s)) → Keeps P (modify f)
unfolding modify
Keeps-modify f h = record { at = h }

module _ {S A B : Type 0} {P : S → Type 0} where
  Keeps-continue :
      (r : Result A) (f : A → Run S B) (s : S)
      → ((a : A) → Keeps P (f a))
      → P s
      → P (continue r f s).1
  Keeps-continue (ok a) f s k h = (k a).at s h
  Keeps-continue (err e) f s k h = h

  pub Keeps-bind :
      (first : Run S A) (rest : A → Run S B)
      → Keeps P first
      → ((a : A) → Keeps P (rest a))
      → Keeps P (first >>= rest)
  unfolding ◌>>=◌
  Keeps-bind first rest kept rests = record {
    at = λ before held.
        Keeps-continue (first before).0 rest (first before).1 rests (kept.at before held);
  }

  -- The rest of the block may use what it reads of the state.
  pub Keeps-bind-gets :
      (f : S → A) (k : A → Run S B) → ((s : S) → P s → P (k (f s) s).1) → Keeps P (gets f >>= k)
  unfolding ◌>>=◌ gets
  Keeps-bind-gets f k h = record { at = h }

  -- The rest may use that the outcome was its value.
  pub Keeps-bind-lift :
      (outcome : Result A) (rest : A → Run S B)
      → ((value : A) → outcome ≡ ok value → Keeps P (rest value))
      → Keeps P (lift outcome >>= rest)
  unfolding ◌>>=◌ lift
  Keeps-bind-lift (ok value) rest kept = kept value refl
  Keeps-bind-lift (err error) rest kept = record { at = λ before held. held }

pub ruleset keeps_rules = (
  Keeps-pure, Keeps-raise, Keeps-lift, Keeps-gets, Keeps-attempt, Keeps-if, Keeps-handle,
  Keeps-bind,
)
