-- ===== src/World/Answered.antt =====
-- Worlds where the agent has answered every request, without an error.
use ansible_go.Base.{ℕ, ◌≡◌, String, Bool, Option, none, some, List, [], ◌∷◌, ◌⊎◌, inl, inr}
use ansible_go.Value.{Value, Dict}
use ansible_go.Run.{Exn, ok, Run, pure, attempt, handle, ◌>>=◌}
use ansible_go.Run.Returns.{Returns}
use ansible_go.Run.Ensures.{Ensures, Ensures-bind, Ensures-attempt, Ensures-handle, Ensures-pure}
use ansible_go.Env.{Event, rpc, Env}
use ansible_go.Params.{WriteArgs, FileArgs}
use ansible_go.Failure.{IsFailed, failed, IsFailed-failed}
use ansible_go.Client
use ansible_go.Client.{Channel, call, read_response}
use ansible_go.Client.Laws.{Answers, read_response_iff}
use ansible_go.World.{World, use_client, on_client}

-- Each request has an answer with its identifier and without an error.
abbrev pub IsAnswered : Env → List Event → Type 0
IsAnswered env [] = Unit
IsAnswered env (rpc r ∷ log) =
    ((d : Dict) × Answers r.id (env.agent (rpc r ∷ log)) d) × IsAnswered env log
IsAnswered env (_ ∷ log) = IsAnswered env log

-- The result is marked as failed, or each request so far was answered.
abbrev pub Accounts : Env → Dict → World → Type 0
Accounts env d w = IsFailed d ⊎ IsAnswered env w.log

module _ (env : Env) where
  abbrev pub Answered : World → Type 0
  Answered w = IsAnswered env w.log

  -- A call that returns was answered.
  abbrev Pays : {A : Type 0} → Run Channel A → Type 0
  Pays m = Ensures (λ ch. IsAnswered env ch.log) m (λ a ch. IsAnswered env ch.log)

  Pays-call : (method : String) (params : Dict) → Pays (call env method params)
  unfolding call
  Pays-call method params = record {
    at = λ ch p a h. ((a, (read_response_iff env ch.next_id _ a).0 h), p);
  }

  pub Pays-stat :
      (path : Value) (follow checksum : Bool) (algorithm : Value)
      → Pays (Client.stat env path follow checksum algorithm)
  unfolding Client.stat
  Pays-stat path follow checksum algorithm = Pays-call _ _

  pub Pays-read_file : (path : Value) → Pays (Client.read_file env path)
  unfolding Client.read_file
  Pays-read_file path = Pays-call _ _

  pub Pays-write_file : (a : WriteArgs) → Pays (Client.write_file env a)
  unfolding Client.write_file
  Pays-write_file a = Pays-call _ _

  pub Pays-file : (a : FileArgs) → Pays (Client.file env a)
  unfolding Client.file
  Pays-file a = Pays-call _ _

  Answered-use_client :
      {A : Type 0} (m : Run Channel A) (c : Option ℕ) (w : World) (a : A)
      → Pays m
      → Answered w
      → (use_client m c w).0 ≡ ok a
      → Answered (use_client m c w).1
  unfolding use_client
  Answered-use_client m none w a k p h = cc
  Answered-use_client m (some n) w a k p h = k.at (record { next_id = n; log = w.log }) p a h

  pub Answered-on_client :
      {A : Type 0} (m : Run Channel A) → Pays m → Ensures Answered (on_client m) (λ a w. Answered w)
  unfolding on_client
  Answered-on_client m k = record { at = λ w p a h. Answered-use_client m w.client w a k p h }

  -- A guarded step whose exception makes the result a failure.
  pub Accounts-try :
      {A : Type 0} (m : Run World A) (prefix : Exn → Dict) (f : A → Run World Dict)
      → Ensures Answered m (λ a w. Answered w)
      → ((e : Exn) → IsFailed (prefix e))
      → ((a : A) → Ensures Answered (f a) (Accounts env))
      → Ensures Answered (attempt m >>= (λ r. handle r (λ e. pure (prefix e)) f)) (Accounts env)
  Accounts-try m prefix f k failed rest =
      Ensures-bind _ _ (Ensures-attempt m k)
        (λ r. Ensures-handle r _ f (λ e. Ensures-pure _ (λ s p. inl (failed e))) rest)

  pub Accounts-pure : (d : Dict) → Ensures Answered (pure d) (Accounts env)
  Accounts-pure d = Ensures-pure d (λ s p. inr p)

  pub Accounts-failed :
      {P : World → Type 0} (result : Dict) (message : String)
      → Ensures P (pure (failed result message)) (Accounts env)
  Accounts-failed result message = Ensures-pure _ (λ s p. inl (IsFailed-failed result message))

  -- Code that always returns, from a world where each request was answered, returns a result that
  -- accounts for its requests.
  pub Accounts-total :
      (m : Run World Dict) (Q : Dict → Type 0)
      → Returns Q m
      → Ensures Answered m (Accounts env)
      → (w : World) → Answered w
      → (d : Dict) × ((m w).0 ≡ ok d) × Q d × Accounts env d (m w).1
  Accounts-total m Q r k w p = let got = r.at w in (got.0, got.1, got.2, k.at w p got.0 got.1)
