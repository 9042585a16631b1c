-- ===== src/Modules/Dnf.antt =====
-- The dnf module (plugins/modules/dnf.py).
use ansible_go.Base.{
  String, ◌<>◌, Bool, true, false, not, ◌&&◌, any, List, [], ◌∷◌, ◌++◌, has_text, eqb, path_join,
  if◌then◌else◌,
}
use ansible_go.Value.{
  Value, bool, str, list, texts, Dict, empty, entry, get, truthy, is_none, eq_text, is_one_of,
}
use ansible_go.Run.{Run, pure, ◌>>=◌}
use ansible_go.Modules.{Session, Host, Answer, exited, failed, run_command, outcome, names_of}
use ansible_go.Modules.Preflight.{
  Default, nothing, flag, number, literal, no_items, differing, any_token, refuse, Argument, plain,
}
use ansible_go.Modules.Apt.{normalized}
pub mod Laws

-- `_UNSUPPORTED_DEFAULTS`
abbrev pub unsupported_defaults : List (String × Default)
unsupported_defaults =
    ("allow_downgrade", flag false)
    ∷ ("allowerasing", flag false)
    ∷ ("autoremove", flag false)
    ∷ ("best", nothing)
    ∷ ("bugfix", flag false)
    ∷ ("cacheonly", flag false)
    ∷ ("conf_file", nothing)
    ∷ ("disable_excludes", nothing)
    ∷ ("disable_gpg_check", flag false)
    ∷ ("disable_plugin", no_items)
    ∷ ("disablerepo", no_items)
    ∷ ("download_dir", nothing)
    ∷ ("download_only", flag false)
    ∷ ("enable_plugin", no_items)
    ∷ ("enablerepo", no_items)
    ∷ ("exclude", no_items)
    ∷ ("installroot", literal "/")
    ∷ ("install_weak_deps", flag true)
    ∷ ("list", nothing)
    ∷ ("lock_timeout", number 30)
    ∷ ("nobest", nothing)
    ∷ ("releasever", nothing)
    ∷ ("security", flag false)
    ∷ ("skip_broken", flag false)
    ∷ ("sslverify", flag true)
    ∷ ("update_cache", flag false)
    ∷ ("update_only", flag false)
    ∷ ("use_backend", literal "auto")
    ∷ ("validate_certs", flag true)
    ∷ []

-- The `argument_spec` of `main`.
abbrev pub argument_spec : List Argument
argument_spec =
    record {
      name = "name";
      kind = "list";
      default = nothing;
      aliases = "package" ∷ "pkg" ∷ [];
      choices = [];
    }
    ∷ record {
      name = "state";
      kind = "str";
      default = nothing;
      aliases = [];
      choices = "present" ∷ "absent" ∷ "latest" ∷ "installed" ∷ "removed" ∷ [];
    }
    ∷ plain "allow_downgrade" "bool" (flag false)
    ∷ plain "allowerasing" "bool" (flag false)
    ∷ plain "best" "bool" nothing
    ∷ plain "list" "str" nothing
    ∷ record (plain "use_backend" "str" (literal "auto")) {
      choices = "auto" ∷ "dnf" ∷ "yum" ∷ "yum4" ∷ "dnf4" ∷ "dnf5" ∷ [];
    }
    ∷ plain "enablerepo" "list" no_items
    ∷ plain "disablerepo" "list" no_items
    ∷ plain "conf_file" "str" nothing
    ∷ plain "disable_gpg_check" "bool" (flag false)
    ∷ plain "disable_excludes" "str" nothing
    ∷ plain "disable_plugin" "list" no_items
    ∷ plain "enable_plugin" "list" no_items
    ∷ plain "installroot" "str" (literal "/")
    ∷ plain "releasever" "str" nothing
    ∷ plain "autoremove" "bool" (flag false)
    ∷ plain "exclude" "list" no_items
    ∷ plain "skip_broken" "bool" (flag false)
    ∷ record (plain "update_cache" "bool" (flag false)) { aliases = "expire-cache" ∷ [] }
    ∷ plain "security" "bool" (flag false)
    ∷ plain "bugfix" "bool" (flag false)
    ∷ plain "nobest" "bool" nothing
    ∷ plain "cacheonly" "bool" (flag false)
    ∷ plain "lock_timeout" "int" (number 30)
    ∷ plain "install_weak_deps" "bool" (flag true)
    ∷ plain "download_only" "bool" (flag false)
    ∷ plain "download_dir" "str" nothing
    ∷ plain "update_only" "bool" (flag false)
    ∷ plain "validate_certs" "bool" (flag true)
    ∷ plain "sslverify" "bool" (flag true)
    ∷ []

abbrev pub tokens : List String
tokens = " " ∷ ">" ∷ "<" ∷ "=" ∷ "*" ∷ "?" ∷ ":" ∷ "/" ∷ "@" ∷ []

-- `_unsupported_params`
unfoldable pub unsupported_params : Dict → List String
unsupported_params params =
    differing unsupported_defaults params
      (if any_token tokens (names_of params) then "name" ∷ [] else [])

-- The state, where None stands for a default that depends on `autoremove`.
abbrev pub state_of : Dict → Value
state_of params =
    let state = get params "state" in
    if is_none state
    then if truthy (get params "autoremove") then str "absent" else str "present"
    else state

-- Whether dnf says that it did something.
abbrev pub says_changed : String → Bool
says_changed stdout = not (has_text "Nothing to do" stdout) && has_text "Complete!" stdout

module _ (h : Host) (check : Bool) where
  -- `os.path.isfile` of the manager in one of the three directories
  abbrev pub installed : String → Bool
  installed manager =
      any (λ path. h.is_file (path_join path manager)) ("/usr/bin" ∷ "/bin" ∷ "/usr/sbin" ∷ [])

  -- `_find_manager`
  unfoldable pub find_manager : String
  find_manager = if installed "dnf" then "dnf" else if installed "yum" then "yum" else "dnf"

  -- The command itself.
  unfoldable pub operate : String → List String → Run Session Answer
  operate manager words = do
    let cmd = words ++ (if check then "--assumeno" ∷ [] else [])
    done ← run_command h cmd []
    let more = entry "cmd" (list (texts cmd)) empty
    if eqb done.returncode 0
        then pure (exited (entry "changed" (bool (says_changed done.stdout)) (outcome done more)))
        else pure (failed (entry "msg" (str (manager <> " failed")) (outcome done more)))

  -- The choice of the command.
  unfoldable pub manage : String → Value → List String → Run Session Answer
  manage manager state names =
      if is_one_of state ("present" ∷ "latest" ∷ [])
      then operate manager (
          manager
          ∷ "install"
          ∷ "-y"
          ∷ ((if eq_text state "latest" then "--best" ∷ [] else []) ++ names))
      else if eq_text state "absent"
      then operate manager (manager ∷ "remove" ∷ "-y" ∷ names)
      else pure (failed (entry "msg" (str ("Unsupported state: " <> h.show state)) empty))

  -- The part behind the preflight.
  unfoldable pub perform : Value → List String → Run Session Answer
  unfolding manage find_manager
  perform state [] =
      pure (exited (entry "changed" (bool false) (entry "msg" (str "No packages specified") empty)))
  perform state (name ∷ more) = manage find_manager state (name ∷ more)

  admit : List String → Dict → Run Session Answer
  unfolding perform
  admit [] params = perform (normalized (state_of params)) (names_of params)
  admit (name ∷ more) params = pure (refuse "dnf" (name ∷ more))

  unfoldable pub main : Dict → Run Session Answer
  unfolding admit
  main params = admit (unsupported_params params) params
