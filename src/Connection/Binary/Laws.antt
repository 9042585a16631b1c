-- ===== src/Connection/Binary/Laws.antt =====
-- The search for a binary is quiet, so that the connection that uses it is lawful.
use ansible_go.Base.{String, Option, some, none, List, [], ◌∷◌}
use ansible_go.Run.{ok}
use ansible_go.Run.Keeps.{
  Keeps, Keeps-bind, Keeps-if, Keeps-pure, Keeps-raise, Keeps-attempt, Keeps-handle,
}
use ansible_go.Env.{Env}
use ansible_go.World.{World}
use ansible_go.World.Laws.{IsLawful}
use ansible_go.Connection.{Settings, Tools, path_there}
use ansible_go.Connection.Steps.{Logs, Keeps-step, Keeps-act}
use ansible_go.Connection.Connect.{connection}
use ansible_go.Connection.Connect.Ready.{IsQuiet, connection-IsLawful}
use ansible_go.Connection.Binary.{
  Disk, Places, candidates, versioned_name, file_there, first_file, run_curl, size_there, install,
  fill, discard, make_cache, close_file, new_temp, load, download_binary, or_download,
  find_local_binary, local_binaries,
}

module _ (env : Env) (tools : Tools) (disk : Disk) (at : Places) {Q : World → Type 0}
    (logs : Logs Q) where
  Keeps-file_there : (path : String) → Keeps Q (file_there env tools disk at path)
  unfolding file_there
  Keeps-file_there path = Keeps-step logs _ (λ log. ok (disk.file_there log))

  Keeps-first_file : (paths : List String) → Keeps Q (first_file env tools disk at paths)
  unfolding first_file
  Keeps-first_file [] = Keeps-pure _
  Keeps-first_file (path ∷ more) =
      Keeps-bind _ _ (Keeps-file_there path)
        (λ there. Keeps-if there _ _ (Keeps-pure _) (Keeps-first_file more))

  Keeps-fill : (url temp dest : String) → Keeps Q (fill env tools disk at url temp dest)
  unfolding fill run_curl size_there install
  Keeps-fill url temp dest = Keeps-bind _ _ (Keeps-step logs _ env.process) (λ done.
      Keeps-if _ _ _ (Keeps-raise _) (
        Keeps-bind _ _ (Keeps-step logs _ disk.size) (λ size. Keeps-if _ _ _ (Keeps-raise _) (
          Keeps-bind _ _ (Keeps-step logs _ disk.mode_set)
            (λ u. Keeps-step logs _ disk.replaced)))))

  Keeps-discard : (temp : String) → Keeps Q (discard env tools disk at temp)
  unfolding discard path_there
  Keeps-discard temp =
      Keeps-bind _ _ (Keeps-step logs _ (λ log. ok (env.path_exists log)))
        (λ there. Keeps-if there _ _ (Keeps-act logs _) (Keeps-pure tt))

  Keeps-load : (url name temp : String) → Keeps Q (load env tools disk at url name temp)
  unfolding load close_file
  Keeps-load url name temp =
      Keeps-bind _ _ (Keeps-attempt _ (Keeps-step logs _ disk.temp_closed)) (λ closed.
        Keeps-handle closed _ _
          (λ e.
            Keeps-bind _ _ (Keeps-act logs _)
              (λ u. Keeps-bind _ _ (Keeps-discard temp) (λ v. Keeps-raise _)))
          (λ u. Keeps-bind _ _ (Keeps-attempt _ (Keeps-fill url temp _)) (λ filled.
            Keeps-handle filled _ _ (λ e. Keeps-bind _ _ (Keeps-discard temp) (λ v. Keeps-raise _))
              (λ v. Keeps-pure _))))

  Keeps-download_binary :
      (arch name : String) → Keeps Q (download_binary env tools disk at arch name)
  unfolding download_binary make_cache new_temp
  Keeps-download_binary arch name = Keeps-if _ _ _ (Keeps-pure _) (
      Keeps-bind _ _ (Keeps-attempt _ (Keeps-step logs _ disk.dirs_made)) (λ made.
        Keeps-handle made _ _ (λ e. Keeps-pure _)
          (λ u.
            Keeps-bind _ _ (Keeps-attempt _ (Keeps-step logs _ disk.temp_made))
              (λ opened. Keeps-handle opened _ _ (λ e. Keeps-raise _) (Keeps-load _ name)))))

  Keeps-or_download :
      (arch : String) (found : Option String) → Keeps Q (or_download env tools disk at arch found)
  unfolding or_download
  Keeps-or_download arch (some path) = Keeps-pure _
  Keeps-or_download arch none = Keeps-download_binary arch (versioned_name arch)

  Keeps-find_local_binary : (arch : String) → Keeps Q (find_local_binary env tools disk at arch)
  unfolding find_local_binary
  Keeps-find_local_binary arch =
      Keeps-bind _ _ (Keeps-first_file (candidates at arch)) (Keeps-or_download arch)

module _ (env : Env) (tools : Tools) (disk : Disk) (at : Places) where
  local_binaries-IsQuiet : IsQuiet (local_binaries env tools disk at)
  local_binaries-IsQuiet = record {
    events = λ P ps arch. Keeps-find_local_binary env tools disk at (λ s w h. (ps s, h)) arch;
    use_become = λ b arch. Keeps-find_local_binary env tools disk at (λ s w h. h) arch;
  }

  -- The connection of the plugin keeps the contract that the action plugins rely on, the search
  -- for a binary and its download included: it sends the agent nothing but handshakes, it leaves
  -- the become user alone, and where it returns there is a client, if a connection that is up has
  -- one.
  pub connect-IsLawful :
      (o : Settings) → IsLawful (connection env tools (local_binaries env tools disk at) o)
  connect-IsLawful o =
      connection-IsLawful env tools (local_binaries env tools disk at) o local_binaries-IsQuiet
