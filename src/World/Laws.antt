-- ===== src/World/Laws.antt =====
-- Which events an action causes: the rules for the calls of the client and of the builtin modules.
use ansible_go.Base.{
  ℕ, ◌≡◌, ◌≢◌, String, Bool, false, Option, none, some, List, All, ◌⊎◌, inl, ◌∙◌, subst, sym, true,
  contains, arith, eq_iff, is_some,
}
use ansible_go.Value.{Dict}
use ansible_go.Run.{ok, Run, gets, ◌>>=◌}
use ansible_go.Run.Keeps.{Keeps, Keeps-both, Keeps-bind-gets, keeps_rules}
use ansible_go.Env.{Step, Request, Event, rpc, run_module, run_builtin_copy, setup, Env}
use ansible_go.Client.{Channel, call}
use ansible_go.World.{
  PlayContext, World, Link, effective_user, get_become_user, use_client, on_client, execute_module,
  run_builtin,
}

-- Every event so far has the property.
abbrev pub Only : (Event → Type 0) → World → Type 0
Only P w = All P w.log

abbrev pub OnlyOn : (Event → Type 0) → Channel → Type 0
OnlyOn P ch = All P ch.log

-- What `_connect` promises: it causes steps of its own and handshakes, and no other event; it
-- leaves the become state alone; and where it returns there is a client, if a connection
-- that is up had one before.
pub record IsLawful (link : Link) : Type 1 where
  pub events :
      (P : Event → Type 0)
      → ((s : Step) → P (setup s))
      → ((r : Request) → r.method ≡ "Hello" → P (rpc r))
      → Keeps (Only P) link.connect
  pub connects :
      (w : World)
      → (w.connected ≡ true → is_some w.client ≡ true)
      → (link.connect w).0 ≡ ok tt
      → is_some (link.connect w).1.client ≡ true
  pub become_user :
      (play : PlayContext) (w : World)
      → get_become_user play (link.connect w).1 ≡ get_become_user play w

effective_user_ne :
    (o : Option String) (user : String)
    → effective_user o ≡ some user
    → (user ≢ "root") × (user ≢ "")
unfolding effective_user
effective_user_ne none user h = cc
effective_user_ne (some u) user h = ground (arith, eq_iff u "root", eq_iff u "")

-- The user that commands run as is never root and never the empty text.
pub get_become_user_ne :
    (play : PlayContext) (w : World) (user : String)
    → get_become_user play w ≡ some user
    → (user ≢ "root") × (user ≢ "")
unfolding get_become_user
get_become_user_ne play w user h =
    ground (arith, eq_iff user "root", eq_iff user "", effective_user_ne play.become_user user)

module _ {P : Event → Type 0} where
  pub OnlyOn-call :
      (env : Env) (method : String) (params : Dict)
      → ((id : ℕ) → P (rpc (record { id = id; method = method; params = params })))
      → Keeps (OnlyOn P) (call env method params)
  unfolding call
  OnlyOn-call env method params p = record { at = λ ch h. (p ch.next_id, h) }

  Only-use_client :
      {A : Type 0} (m : Run Channel A) (c : Option ℕ)
      → Keeps (OnlyOn P) m
      → Keeps (Only P) (use_client m c)
  unfolding use_client
  Only-use_client m none k = record { at = λ w h. h }
  Only-use_client m (some n) k = record { at = λ w h. k.at (record { next_id = n; log = w.log }) h }

  pub Only-on_client :
      {A : Type 0} (m : Run Channel A) → Keeps (OnlyOn P) m → Keeps (Only P) (on_client m)
  unfolding on_client
  Only-on_client m k = record { at = λ w h. (Only-use_client m w.client k).at w h }

  pub Only-execute_module :
      (env : Env) (name : String) (wrap : Bool)
      → P (run_module name wrap)
      → Keeps (Only P) (execute_module env name wrap)
  unfolding execute_module
  Only-execute_module env name wrap p = record { at = λ w h. (p, h) }

  pub Only-run_builtin :
      (env : Env) (name : String) (result : Dict)
      → P (run_module name false)
      → Keeps (Only P) (run_builtin env name result)
  unfolding run_builtin
  Only-run_builtin env name result p = search (keeps_rules, Only-execute_module)

-- The user that the task becomes.
abbrev Becomes : PlayContext → Option String → World → Type 0
Becomes play user w = get_become_user play w ≡ user

Becomes-execute_module :
    (env : Env) (play : PlayContext) (user : Option String) (name : String) (wrap : Bool)
    → Keeps (Becomes play user) (execute_module env name wrap)
unfolding execute_module get_become_user
Becomes-execute_module env play user name wrap = record { at = λ w h. h }

Becomes-run_builtin :
    (env : Env) (play : PlayContext) (user : Option String) (name : String) (result : Dict)
    → Keeps (Becomes play user) (run_builtin env name result)
unfolding run_builtin
Becomes-run_builtin env play user name result = search (keeps_rules, Becomes-execute_module)

-- The events that can only look at the remote host: the handshake and the methods listed, the
-- steps of the connection, and the module named, which knows of check mode and of become itself.
abbrev pub Sends : List String → List String → Event → Type 0
Sends methods modules (rpc r) = (r.method ≡ "Hello") ⊎ (contains methods r.method ≡ true)
Sends methods modules (run_module name wrap) = contains modules name ≡ true
Sends methods modules run_builtin_copy = contains modules "copy" ≡ true
Sends methods modules (setup s) = Unit

module _ (link : Link) (L : IsLawful link) where
  pub Sends-connect :
      (methods modules : List String) → Keeps (Only (Sends methods modules)) link.connect
  Sends-connect methods modules = L.events (Sends methods modules) (λ s. tt) (λ r h. inl h)

  -- The same for a task that runs as another user, whom `_connect` does not forget.
  pub Sends-connect_as :
      (methods modules : List String) (play : PlayContext) (user : Option String)
      → Keeps (λ w. Only (Sends methods modules) w × (get_become_user play w ≡ user)) link.connect
  Sends-connect_as methods modules play user = record {
    at = λ w h. ((Sends-connect methods modules).at w h.0, L.become_user play w ∙ h.1);
  }

-- What a task causes that runs as the user given.
abbrev pub SendsAs : List String → List String → PlayContext → String → World → Type 0
SendsAs methods modules play user w =
    Only (Sends methods modules) w × (get_become_user play w ≡ some user)

module _ (methods modules : List String) (play : PlayContext) (user : String) where
  pub SendsAs-bind :
      {B : Type 0} (k : Option String → Run World B)
      → Keeps (SendsAs methods modules play user) (k (some user))
      → Keeps (SendsAs methods modules play user) (gets (get_become_user play) >>= k)
  SendsAs-bind k h =
      Keeps-bind-gets _ k
        (λ w p. subst (λ u. SendsAs methods modules play user (k u w).1) (sym p.1) (h.at w p))

  pub SendsAs-run_builtin :
      (env : Env) (name : String) (result : Dict)
      → contains modules name ≡ true
      → Keeps (SendsAs methods modules play user) (run_builtin env name result)
  SendsAs-run_builtin env name result p =
      Keeps-both (Only-run_builtin env name result p)
        (Becomes-run_builtin env play (some user) name result)

  pub SendsAs-connect :
      (link : Link) (L : IsLawful link) → Keeps (SendsAs methods modules play user) link.connect
  SendsAs-connect link L = Sends-connect_as link L methods modules play (some user)
