-- ===== src/Connection/Connect/Joins.antt =====
-- How a connection comes up where an agent is there.
use ansible_go.Base.{
  ◌≡◌, refl, sym, ◌∙◌, String, Bool, true, false, false≢true, if◌then◌else◌, some, List, ◌∷◌,
}
use ansible_go.Value.{str, Dict, empty, entry, get_or, eq_text}
use ansible_go.Run.{Run, ok, gets, pure, attempt, handle, ◌>>=◌}
use ansible_go.Env.{Event, setup, rpc, exists, open_socket, Env}
use ansible_go.Client
use ansible_go.Client.{Channel, read_response}
use ansible_go.Client.Laws.{Answers, read_response_iff}
use ansible_go.World.{World}
use ansible_go.Connection.{
  agent_version, Settings, Tools, local_socket, probe, open_local, path_there, step,
  try_local_socket,
}
use ansible_go.Connection.Daemon.{Binaries}
use ansible_go.Connection.Connect.{connect}

-- The three events by which a connection joins the agent behind a local socket: the look for the
-- socket, the opening of it and the handshake.
abbrev pub seen : String → List Event → List Event
seen path log = setup (exists path) ∷ log

abbrev pub opened : String → List Event → List Event
opened path log = setup (open_socket path) ∷ seen path log

abbrev pub greeted : String → List Event → List Event
greeted path log =
    rpc (record { id = 1; method = "Hello"; params = entry "version" (str agent_version) empty })
    ∷ opened path log

-- The connection behind them.
abbrev pub joined : String → World → World
joined path w = record w {
  connected = true;
  has_socket = true;
  client = some 2;
  log = greeted path w.log;
}

module _ (env : Env) where
  hello-joins :
      (log : List Event) (d : Dict)
      → let log' : List Event =
          rpc (record {
            id = 1;
            method = "Hello";
            params = entry "version" (str agent_version) empty;
          })
          ∷ log in
        Answers 1 (env.agent log') d
        → eq_text (get_or d "version" (str "")) agent_version ≡ true
        → Client.hello env agent_version (record { next_id = 1; log = log })
          ≡ (ok d, record { next_id = 2; log = log' })
  unfolding Client.hello Client.call Client.check_version ◌>>=◌ pure
  hello-joins log d answers version = rw ((read_response_iff env 1 _ d).1 answers) (rw version refl)

  try-joins :
      (path : String) (w : World) (d : Dict)
      → env.path_exists (seen path w.log) ≡ true
      → env.socket_opened (opened path w.log) ≡ ok tt
      → Answers 1 (env.agent (greeted path w.log)) d
      → eq_text (get_or d "version" (str "")) agent_version ≡ true
      → try_local_socket env path w ≡ (ok true, joined path w)
  unfolding try_local_socket path_there open_local step probe attempt handle ◌>>=◌
  try-joins path w d there opens answers version =
      let hello = hello-joins (opened path w.log) d answers version in
      rw there (rw opens (rw hello refl))

skip :
    {A : Type 0} (b : Bool) (m n : Run World A) (w : World)
    → b ≡ false
    → (if b then m else n) w ≡ n w
skip true m n w h = absurd (false≢true (sym h))
skip false m n w h = refl

module _ (env : Env) (tools : Tools) (binaries : Binaries) (o : Settings) where
  -- A connection that is not up, to a host whose local socket is there and can be opened, and whose
  -- agent answers the handshake with the version of the plugin, comes up by these three events, and
  -- no process is started.
  pub connect-joins :
      (w : World) (d : Dict)
      → w.connected ≡ false
      → env.path_exists (seen (local_socket o.host w.use_become) w.log) ≡ true
      → env.socket_opened (opened (local_socket o.host w.use_become) w.log) ≡ ok tt
      → Answers 1 (env.agent (greeted (local_socket o.host w.use_become) w.log)) d
      → eq_text (get_or d "version" (str "")) agent_version ≡ true
      → connect env tools binaries o w ≡ (ok tt, joined (local_socket o.host w.use_become) w)
  unfolding connect gets pure ◌>>=◌
  connect-joins w d down there opens answers version =
      let tried =
        try-joins env (local_socket o.host w.use_become) w d there opens answers version in
      skip w.connected (pure tt) _ w down ∙ rw tried refl
