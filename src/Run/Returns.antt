-- ===== src/Run/Returns.antt =====
-- Code that always returns, and returns a value with a property.
use ansible_go.Base.{◌≡◌, refl, sym, subst, Bool, true, false, false≢true, if◌then◌else◌}
use ansible_go.Run.{Exn, Result, ok, err, Run, handle, pure, attempt, lift, continue, ◌>>=◌}

-- From every state `m` returns a value with the property.
pub record Returns {S A : Type 0} (Q : A → Type 0) (m : Run S A) : Type 0 where
  pub at : (s : S) → (a : A) × ((m s).0 ≡ ok a) × Q a

module _ {S A : Type 0} {Q : A → Type 0} where
  pub Returns-pure : (a : A) → Q a → Returns {S = S} Q (pure a)
  unfolding pure
  Returns-pure a q = record { at = λ s. (a, refl, q) }

  pub Returns-if :
      (b : Bool) (m n : Run S A) → Returns Q m → Returns Q n → Returns Q (if b then m else n)
  Returns-if true m n p q = p
  Returns-if false m n p q = q

  pub Returns-else :
      (b : Bool) (m n : Run S A) → b ≡ false → Returns Q n → Returns Q (if b then m else n)
  Returns-else true m n h q = absurd (false≢true (sym h))
  Returns-else false m n h q = q

  pub Returns-handle :
      {B : Type 0} (r : Result B) (failed : Exn → Run S A) (f : B → Run S A)
      → ((e : Exn) → Returns Q (failed e))
      → ((b : B) → Returns Q (f b))
      → Returns Q (handle r failed f)
  unfolding handle
  Returns-handle (ok b) failed f p q = q b
  Returns-handle (err e) failed f p q = p e

  pub Returns-handle_err :
      {B : Type 0} (e : Exn) (failed : Exn → Run S A) (f : B → Run S A)
      → Returns Q (failed e)
      → Returns Q (handle (err e) failed f)
  unfolding handle
  Returns-handle_err e failed f p = p

module _ {S A B : Type 0} {Q : B → Type 0} where
  -- A guarded step does not raise, whatever it does.
  pub Returns-attempt :
      (m : Run S A) (f : Result A → Run S B)
      → ((r : Result A) → Returns Q (f r))
      → Returns Q (attempt m >>= f)
  unfolding ◌>>=◌ attempt
  Returns-attempt m f p = record { at = λ s. let (r, s') = m s in (p r).at s' }

-- A step that is known to give a value, and the rest with that value.
pub Returns-lift :
    {S A B : Type 0} {Q : B → Type 0} (r : Result A) (a : A) (f : A → Run S B)
    → r ≡ ok a
    → Returns Q (f a)
    → Returns Q (lift r >>= f)
unfolding ◌>>=◌ lift
Returns-lift {B} {Q} r a f e p = record {
  at = λ s. subst (λ x. (b : B) × ((continue x f s).0 ≡ ok b) × Q b) (sym e) (p.at s);
}

pub ruleset returns_rules = (Returns-pure, Returns-if, Returns-handle, Returns-attempt)
