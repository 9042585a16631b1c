-- ===== src/Connection/Binary.antt =====
-- The binary of the agent on the controller (`_find_local_binary` and `_download_binary`).
use ansible_go.Base.{
  ℕ, String, ◌<>◌, Bool, not, ◌==◌, Option, none, some, List, [], ◌∷◌, ◌++◌, join, ltb, eqb,
  path_join, if◌then◌else◌,
}
use ansible_go.Value.{nat}
use ansible_go.Run.{
  Exn, Result, ok, connection_failure, Run, pure, raise, attempt, ◌>>=◌, ◌>>◌, handle,
}
use ansible_go.Env.{
  Event, is_file, make_temp, close_temp, size_of, make_executable, replace, make_dirs, remove,
  run_process, Env, Completed, text_of,
}
use ansible_go.World.{World}
use ansible_go.Connection.{Tools, agent_version, step, act, path_there}
use ansible_go.Connection.Daemon.{Binaries}
pub mod Laws
pub mod Download

-- What the file system of the controller answers, as functions of what was done so far; an error
-- of `dirs_made` is an OSError.
pub record Disk : Type 0 where
  pub file_there : List Event → Bool
  pub dirs_made : List Event → Result (Unit {0})
  pub temp_made : List Event → Result String
  pub temp_closed : List Event → Result (Unit {0})
  pub size : List Event → Result ℕ
  pub mode_set : List Event → Result (Unit {0})
  pub replaced : List Event → Result (Unit {0})

-- The options `local_agent_dir`, expanded, and `download_url`, with the version and an architecture
-- filled in, where the empty text stands for an option that is not given; the home of the user,
-- and the root of the repository, three directories above the plugin.
pub record Places : Type 0 where
  pub local_dir : String
  pub download_url : String → String
  pub home : String
  pub repo_root : String

abbrev pub binary_name : String → String
binary_name arch = "fastagent-linux-" <> arch

abbrev pub versioned_name : String → String
versioned_name arch = "fastagent-" <> (agent_version <> ("-linux-" <> arch))

abbrev pub cache_dir : Places → String
cache_dir at = path_join (path_join at.home ".ansible") "fastagent"

-- The paths where a binary is looked for, in this order.
abbrev pub candidates : Places → String → List String
candidates at arch =
    let given =
      if at.local_dir == ""
      then []
      else path_join at.local_dir (versioned_name arch)
        ∷ path_join at.local_dir (binary_name arch)
        ∷ [] in
    given
    ++ (path_join (cache_dir at) (versioned_name arch)
        ∷ path_join (cache_dir at) (binary_name arch)
        ∷ path_join (path_join at.repo_root "tmp") (binary_name arch)
        ∷ path_join (path_join at.repo_root "build") (binary_name arch)
        ∷ [])

module _ (env : Env) (tools : Tools) (disk : Disk) (at : Places) where
  file_there : String → Run World Bool
  file_there path = step (is_file path) (λ log. ok (disk.file_there log))

  -- The first of the paths that is a file.
  unfoldable pub first_file : List String → Run World (Option String)
  unfolding file_there
  first_file [] = pure none
  first_file (path ∷ more) = do
    there ← file_there path
    if there then pure (some path) else first_file more

  -- The command that loads the binary.
  abbrev curl : String → String → List String
  curl url temp =
      "curl"
      ∷ "--silent"
      ∷ "--show-error"
      ∷ "--fail"
      ∷ "--location"
      ∷ "--output"
      ∷ temp
      ∷ "--user-agent"
      ∷ ("fastagent/" <> agent_version)
      ∷ "--max-time"
      ∷ "120"
      ∷ url
      ∷ []

  run_curl : String → String → Run World Completed
  run_curl url temp = step (run_process (curl url temp)) env.process

  size_there : String → Run World ℕ
  size_there temp = step (size_of temp) disk.size

  -- The file becomes executable, and then takes the place of the one in the cache.
  install : String → String → Run World (Unit {0})
  install temp dest = do
    step (make_executable temp) disk.mode_set
    step (replace temp dest) disk.replaced

  abbrev curl_failed : String → Completed → Exn
  curl_failed url done = connection_failure (
      join "" (
        "fastagent: download of "
        ∷ url
        ∷ " failed (curl exit "
        ∷ text_of env (nat done.returncode)
        ∷ "): "
        ∷ tools.strip done.stderr
        ∷ []))

  abbrev too_small : String → ℕ → Exn
  too_small url size = connection_failure (
      join "" (
        "fastagent: downloaded file is suspiciously small ("
        ∷ text_of env (nat size)
        ∷ " bytes) from "
        ∷ url
        ∷ []))

  -- The download, the test of its size, and the move into the cache.
  unfoldable pub fill : String → String → String → Run World (Unit {0})
  unfolding run_curl size_there install
  fill url temp dest = do
    done ← run_curl url temp
    if not (eqb done.returncode 0) then raise (curl_failed url done) else (do
      size ← size_there temp
      if ltb size 1_000_000 then raise (too_small url size) else install temp dest)

  -- The two handlers: a failure of the connection goes on as it is, and another exception becomes
  -- one.
  abbrev wrapped : String → String → Exn → Exn
  wrapped url name (connection_failure m) = connection_failure m
  wrapped url name e = connection_failure (
      join "" (
        "fastagent: failed to download agent binary from "
        ∷ url
        ∷ ": "
        ∷ env.show_exn e
        ∷ ". Build from source with `make build` or set "
        ∷ "fastagent_local_agent_dir to a directory containing "
        ∷ name
        ∷ "."
        ∷ []))

  -- The end of the `finally`: a file that was not moved is removed.
  discard : String → Run World (Unit {0})
  discard temp = do there ← path_there env temp; if there then act (remove temp) else pure tt

  make_cache : Run World (Unit {0})
  make_cache = step (make_dirs (cache_dir at)) disk.dirs_made

  close_file : Run World (Unit {0})
  close_file = step close_temp disk.temp_closed

  new_temp : String → Run World String
  new_temp name = step (make_temp ("." <> (name <> ".")) (cache_dir at)) disk.temp_made

  -- The download into a temporary file that is there; a descriptor that could not be closed is
  -- closed again.
  unfoldable pub load : String → String → String → Run World (Option String)
  unfolding discard close_file
  load url name temp = do
    closed ← attempt close_file
    handle closed (λ e. do act close_temp; discard temp; raise (wrapped url name e))
        λ u. do
          let dest = path_join (cache_dir at) name
          filled ← attempt (fill url temp dest)
          handle filled (λ e. do discard temp; raise (wrapped url name e)) (λ v. pure (some dest))

  -- `_download_binary`
  unfoldable pub download_binary : String → String → Run World (Option String)
  unfolding make_cache new_temp
  download_binary arch name =
      let url = at.download_url arch in
      if url == "" then pure none else (do
        made ← attempt make_cache
        handle made (λ e. pure none)
            λ u. do
              opened ← attempt (new_temp name)
              handle opened (λ e. raise (wrapped url name e)) (load url name))

  or_download : String → Option String → Run World (Option String)
  or_download arch (some path) = pure (some path)
  or_download arch none = download_binary arch (versioned_name arch)

  -- `_find_local_binary`
  unfoldable pub find_local_binary : String → Run World (Option String)
  unfolding or_download
  find_local_binary arch = do found ← first_file (candidates at arch); or_download arch found

  abbrev pub local_binaries : Binaries
  local_binaries = record { find = find_local_binary }
