-- ===== src/Run.antt =====
-- Python code with effects: a method reads and writes a state, and returns a value or raises.
-- What was written before an exception stays written, so the state comes back beside it too.
use ansible_go.Base.{String}
use ansible_go.Value.{Value}
pub mod Keeps
pub mod Returns
pub mod Fails
pub mod Ensures

pub data Exn : Type 0 where
  -- FastAgentError(code, message)
  agent_error : Value → Value → Exn
  -- FastAgentVersionMismatch(expected, actual)
  version_mismatch : String → Value → Exn
  io_error : String → Exn
  -- AnsibleConnectionFailure, AnsibleError
  connection_failure ansible_error : String → Exn
  -- AttributeError on None, where the connection has no client
  no_client : Exn
  -- TypeError, AttributeError and the like, by their text
  bad_value : String → Exn

pub data Result {ℓ} (A : Type ℓ) : Type ℓ where
  ok : A → Result A
  err : Exn → Result A

abbrev pub Run {ℓ} : Type ℓ → Type ℓ → Type ℓ
Run S A = S → Result A × S

-- The rest of a block, after a step that returned or raised.
abbrev pub continue {ℓ κ} :
    {S : Type κ} {A : Type ℓ} {B : Type κ} → Result A → (A → S → Result B × S) → S → Result B × S
continue (ok a) f s = f a s
continue (err e) f s = (err e, s)

module _ {S A : Type 0} where
  unfoldable pub pure : A → Run S A
  pure a s = (ok a, s)

  unfoldable pub raise : Exn → Run S A
  raise e s = (err e, s)

  unfoldable pub lift : Result A → Run S A
  lift r s = (r, s)

  unfoldable pub gets : (S → A) → Run S A
  gets f s = (ok (f s), s)

  -- The outcome of a guarded step, as a value.
  unfoldable pub attempt : Run S A → Run S (Result A)
  attempt m s = let (r, s') = m s in (ok r, s')

unfoldable pub modify : {S : Type 0} → (S → S) → Run S (Unit {0})
modify f s = (ok tt, f s)

module _ {S A B : Type 0} where
  infixl 5 ◌>>=◌ ◌>>◌
  unfoldable pub ◌>>=◌ : Run S A → (A → Run S B) → Run S B
  ◌>>=◌ m f s = let (r, s') = m s in continue r f s'

  abbrev pub ◌>>◌ : Run S A → Run S B → Run S B
  m >> k = m >>= λ _. k

  -- `try: … except Exception as e: …`, over the outcome of the guarded step.
  unfoldable pub handle : Result A → (Exn → Run S B) → (A → Run S B) → Run S B
  handle (ok a) failed f = f a
  handle (err e) failed f = failed e
