-- ===== src/Connection/Connect/Ready.antt =====
-- `_connect` is lawful, and a connection that it sets up has met an agent of the right version.
use ansible_go.Base.{◌≡◌, refl, String, Bool, true, false, is_some, if◌then◌else◌, ℕ, zero, suc}
use ansible_go.Value.{Dict, get_or, str, eq_text}
use ansible_go.Run.{Result, ok, err, Run, pure, attempt, handle}
use ansible_go.Run.Keeps.{Keeps}
use ansible_go.Run.Ensures.{
  Ensures, Ensures-bind, Ensures-if, Ensures-raise, Ensures-pure, Ensures-gets, Ensures-nothing,
}
use ansible_go.Env.{Step, Event, setup, Env}
use ansible_go.Client.{Channel}
use ansible_go.Client.Laws.{Answers, hello-Answers, hello_version}
use ansible_go.World.{World, PlayContext, get_become_user}
use ansible_go.World.Laws.{Only, IsLawful}
use ansible_go.Connection.{
  agent_version, Settings, Tools, after_probe, probe, open_local, try_local_socket, try_again,
}
use ansible_go.Connection.Daemon.{Binaries}
use ansible_go.Connection.Connect.{bootstrap, connect, connection}
use ansible_go.Connection.Connect.Laws.{Keeps-connect, Only-probe, Becomes-probe}

-- The search for a binary causes steps of the controller only, and leaves the become state alone.
pub record IsQuiet (binaries : Binaries) : Type 1 where
  pub events :
      (P : Event → Type 0)
      → ((s : Step) → P (setup s))
      → (arch : String) → Keeps (Only P) (binaries.find arch)
  pub use_become : (b : Bool) (arch : String) → Keeps (λ w. w.use_become ≡ b) (binaries.find arch)

-- What holds behind a probe, if it reports success.
abbrev Linked : (World → Type 0) → Bool → World → Type 0
Linked T b w = b ≡ true → T w

-- What a successful probe establishes, `_connect` establishes.
module _ (env : Env) (T : World → Type 0)
    (probed : Ensures (λ w. Unit {0}) (probe env) (Linked T)) where
  Linked-false : {P : World → Type 0} → Ensures P (pure false) (Linked T)
  Linked-false = Ensures-pure false (λ s p e. cc)

  Linked-try_local_socket :
      (path : String) → Ensures (λ w. Unit {0}) (try_local_socket env path) (Linked T)
  unfolding try_local_socket handle
  Linked-try_local_socket path = Ensures-bind _ _ (Ensures-nothing _) (λ there.
      Ensures-if _ _ _ (λ e. Linked-false)
        (λ e. Ensures-bind (attempt (open_local env path)) _ (Ensures-nothing _) opened))
    where
      opened :
          (r : Result (Unit {0}))
          → Ensures (λ w. Unit {0}) (handle r (λ e. pure false) (λ u. probe env)) (Linked T)
      opened (ok u) = probed
      opened (err e) = Linked-false

  -- The rest of a test that says whether there is a client.
  Linked-then :
      {A : Type 0} {R : A → World → Type 0} (m n : Run World A) (done : Bool)
      → Ensures T m R
      → Ensures (λ w. Unit {0}) n R
      → Ensures (Linked T done) (if done then m else n) R
  Linked-then m n true k l = record { at = λ s p a h. k.at s (p refl) a h }
  Linked-then m n false k l = record { at = λ s p a h. l.at s tt a h }

  Linked-try_again :
      (n : ℕ) (path : String) → Ensures (λ w. Unit {0}) (try_again env n path) (Linked T)
  unfolding try_again
  Linked-try_again zero path = Linked-false
  Linked-try_again (suc zero) path = Linked-try_local_socket path
  Linked-try_again (suc (suc n)) path = Ensures-bind _ _ (Linked-try_local_socket path) (λ done.
      Linked-then _ _ done (Ensures-pure true (λ s p e. p))
        (Ensures-bind _ _ (Ensures-nothing _) (λ u. Linked-try_again (suc n) path)))

  module _ (tools : Tools) (binaries : Binaries) (o : Settings) where
    Ready-pure : Ensures T (pure tt) (λ u w. T w)
    Ready-pure = Ensures-pure tt (λ s p. p)

    Ready-bootstrap :
        (use_become : Bool)
        → Ensures (λ w. Unit {0}) (bootstrap env tools binaries o use_become) (λ u w. T w)
    unfolding bootstrap
    Ready-bootstrap use_become = Ensures-bind _ _ (Ensures-nothing _) (λ u.
        Ensures-bind _ _ (Ensures-nothing _) (λ v.
          Ensures-bind _ _ (Linked-try_again 5 _)
            (λ done. Linked-then _ _ done Ready-pure (Ensures-raise _))))

    Ready-connect :
        Ensures (λ w. w.connected ≡ true → T w) (connect env tools binaries o) (λ u w. T w)
    unfolding connect
    Ready-connect =
        Ensures-bind _ _ (Ensures-gets {R = Linked T} (λ w. w.connected) (λ w h. h)) (λ c.
          Linked-then _ _ c Ready-pure (
            Ensures-bind _ _ (Ensures-nothing _) (λ b.
              Ensures-bind _ _ (Linked-try_local_socket _)
                (λ done. Linked-then _ _ done Ready-pure (Ready-bootstrap b)))))

-- There is a client.
abbrev HasClient : World → Type 0
HasClient w = is_some w.client ≡ true

HasClient-after_probe :
    (w : World) (r : Result Dict) (ch : Channel) (b : Bool)
    → (after_probe w (r, ch)).0 ≡ ok b
    → Linked HasClient b (after_probe w (r, ch)).1
unfolding after_probe
HasClient-after_probe w (ok d) ch b h = λ e. refl
HasClient-after_probe w (err e) ch b h = λ t. cc

HasClient-probe : (env : Env) → Ensures (λ w. Unit {0}) (probe env) (Linked HasClient)
unfolding probe
HasClient-probe env = record { at = λ w p b h. HasClient-after_probe w _ _ b h }

-- The agent's last answer carries the identifier 1, no error, and the version of the plugin.
abbrev pub MetVersion : Env → World → Type 0
MetVersion env w =
    (d : Dict) × Answers 1 (env.agent w.log) d
    × (eq_text (get_or d "version" (str "")) agent_version ≡ true)

MetVersion-after_probe :
    (env : Env) (w : World) (r : Result Dict) (ch : Channel) (b : Bool)
    → ((d : Dict)
        → r ≡ ok d
        → Answers 1 (env.agent ch.log) d
          × (eq_text (get_or d "version" (str "")) agent_version ≡ true))
    → (after_probe w (r, ch)).0 ≡ ok b
    → Linked (MetVersion env) b (after_probe w (r, ch)).1
unfolding after_probe
MetVersion-after_probe env w (ok d) ch b m h = λ e. (d, (m d refl).0, (m d refl).1)
MetVersion-after_probe env w (err e) ch b m h = λ t. cc

MetVersion-probe : (env : Env) → Ensures (λ w. Unit {0}) (probe env) (Linked (MetVersion env))
unfolding probe
MetVersion-probe env = record {
  at = λ w p b h.
      let ch : Channel = record { next_id = 1; log = w.log } in
      MetVersion-after_probe env w _ _ b
        (λ d e. (hello-Answers env agent_version ch e, hello_version env agent_version ch e)) h;
}

module _ (env : Env) (tools : Tools) (binaries : Binaries) (o : Settings) where
  get_become_user-same :
      (play : PlayContext) (v w : World)
      → v.use_become ≡ w.use_become
      → get_become_user play v ≡ get_become_user play w
  unfolding get_become_user
  get_become_user-same play v w e = cc

  -- A connection that was not up and that `_connect` sets up has met an agent of the version of
  -- the plugin: the last answer is to its handshake, without an error, and names that version.
  pub connect-MetVersion :
      (w : World)
      → w.connected ≡ false
      → (connect env tools binaries o w).0 ≡ ok tt
      → MetVersion env (connect env tools binaries o w).1
  connect-MetVersion w h e =
      (Ready-connect env (MetVersion env) (MetVersion-probe env) tools binaries o).at w (λ c. cc) tt
        e

  -- `_connect` keeps the contract that the action plugins rely on, where the search for a binary
  -- causes steps of the controller only: it sends the agent nothing but handshakes, it leaves
  -- the become user alone, and where it returns there is a client.
  pub connection-IsLawful : IsQuiet binaries → IsLawful (connection env tools binaries o)
  connection-IsLawful quiet = record {
    events = λ P ps pr.
        Keeps-connect env tools binaries o (λ s w h. (ps s, h)) (Only-probe env tools binaries o pr)
          (quiet.events P ps);
    connects =
        λ w c e. (Ready-connect env HasClient (HasClient-probe env) tools binaries o).at w c tt e;
    become_user = λ play w. get_become_user-same play _ w (
        (Keeps-connect env tools binaries o {Q = λ v. v.use_become ≡ w.use_become} (λ s v h. h)
            (Becomes-probe env tools binaries o w.use_become) (quiet.use_become w.use_become)).at
          w refl);
  }
