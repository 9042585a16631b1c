-- ===== src/Modules/Apt.antt =====
-- The apt module (plugins/modules/apt.py).
use ansible_go.Base.{
  String, ◌<>◌, Bool, true, false, not, ◌||◌, List, [], ◌∷◌, ◌++◌, has_text, eqb, if◌then◌else◌,
}
use ansible_go.Value.{
  Value, bool, str, list, texts, Dict, empty, entry, get, truthy, eq_text, is_one_of,
}
use ansible_go.Run.{Run, pure, ◌>>=◌}
use ansible_go.Modules.{
  Session, Host, Answer, exited, failed, run_command, checked, outcome, names_of,
}
use ansible_go.Modules.Preflight.{
  Default, nothing, flag, number, literal, differing, any_token, refuse, Argument, plain,
}
pub mod Laws
pub mod Changes

-- `_UNSUPPORTED_DEFAULTS`
abbrev pub unsupported_defaults : List (String × Default)
unsupported_defaults =
    ("allow_change_held_packages", flag false)
    ∷ ("allow_downgrade", flag false)
    ∷ ("allow_unauthenticated", flag false)
    ∷ ("auto_install_module_deps", flag true)
    ∷ ("autoclean", flag false)
    ∷ ("autoremove", flag false)
    ∷ ("clean", flag false)
    ∷ ("deb", nothing)
    ∷ ("default_release", nothing)
    ∷ ("dpkg_options", literal "force-confdef,force-confold")
    ∷ ("fail_on_autoremove", flag false)
    ∷ ("force", flag false)
    ∷ ("install_recommends", nothing)
    ∷ ("lock_timeout", number 60)
    ∷ ("only_upgrade", flag false)
    ∷ ("policy_rc_d", nothing)
    ∷ ("purge", flag false)
    ∷ ("update_cache_retries", number 5)
    ∷ ("update_cache_retry_max_delay", number 12)
    ∷ ("upgrade", literal "no")
    ∷ []

-- The `argument_spec` of `main`.
abbrev pub argument_spec : List Argument
argument_spec =
    record {
      name = "name";
      kind = "list";
      default = nothing;
      aliases = "package" ∷ "pkg" ∷ [];
      choices = [];
    }
    ∷ record {
      name = "state";
      kind = "str";
      default = literal "present";
      aliases = [];
      choices =
          "present" ∷ "absent" ∷ "latest" ∷ "installed" ∷ "removed" ∷ "build-dep" ∷ "fixed" ∷ [];
    }
    ∷ record (plain "update_cache" "bool" (flag false)) { aliases = "update-cache" ∷ [] }
    ∷ plain "cache_valid_time" "int" (number 0)
    ∷ plain "force" "bool" (flag false)
    ∷ plain "force_apt_get" "bool" (flag false)
    ∷ record (plain "install_recommends" "bool" nothing) { aliases = "install-recommends" ∷ [] }
    ∷ plain "dpkg_options" "str" (literal "force-confdef,force-confold")
    ∷ plain "deb" "path" nothing
    ∷ plain "autoremove" "bool" (flag false)
    ∷ plain "autoclean" "bool" (flag false)
    ∷ plain "purge" "bool" (flag false)
    ∷ record (plain "allow_unauthenticated" "bool" (flag false)) {
      aliases = "allow-unauthenticated" ∷ [];
    }
    ∷ record (plain "allow_downgrade" "bool" (flag false)) {
      aliases = "allow-downgrade" ∷ "allow_downgrades" ∷ "allow-downgrades" ∷ [];
    }
    ∷ plain "allow_change_held_packages" "bool" (flag false)
    ∷ record (plain "upgrade" "str" nothing) {
      choices = "dist" ∷ "full" ∷ "safe" ∷ "yes" ∷ "no" ∷ [];
    }
    ∷ record (plain "default_release" "str" nothing) { aliases = "default-release" ∷ [] }
    ∷ plain "only_upgrade" "bool" (flag false)
    ∷ plain "lock_timeout" "int" (number 60)
    ∷ plain "fail_on_autoremove" "bool" (flag false)
    ∷ plain "clean" "bool" (flag false)
    ∷ plain "policy_rc_d" "int" nothing
    ∷ plain "update_cache_retries" "int" (number 5)
    ∷ plain "update_cache_retry_max_delay" "int" (number 12)
    ∷ plain "auto_install_module_deps" "bool" (flag true)
    ∷ []

abbrev pub tokens : List String
tokens = "=" ∷ "<" ∷ ">" ∷ "*" ∷ "?" ∷ ":" ∷ "/" ∷ []

-- `_unsupported_params`
unfoldable pub unsupported_params : Dict → List String
unsupported_params params =
    let name = if any_token tokens (names_of params) then "name" ∷ [] else [] in
    let state =
      if is_one_of (get params "state") ("build-dep" ∷ "fixed" ∷ [])
      then "state" ∷ name
      else name in
    differing unsupported_defaults params state

-- The state under its newer name.
abbrev pub normalized : Value → Value
normalized state =
    if eq_text state "installed"
    then str "present"
    else if eq_text state "removed"
    then str "absent"
    else state

-- Whether apt-get says that something was changed.
unfoldable pub says_changed : Bool → String → Bool
says_changed check stdout =
    if check
    then not (has_text "0 upgraded, 0 newly installed" stdout)
    else not (has_text "0 newly installed" stdout)
      || not (has_text "0 to remove" stdout)
      || not (has_text "0 upgraded" stdout)

module _ (h : Host) (check : Bool) where
  -- The command itself.
  unfoldable pub operate : List String → Run Session Answer
  operate words = do
    let cmd = words ++ (if check then "--dry-run" ∷ [] else [])
    done ← run_command h cmd (("DEBIAN_FRONTEND", "noninteractive") ∷ [])
    let more = entry "cmd" (list (texts cmd)) empty
    if eqb done.returncode 0
        then pure
            (exited (entry "changed" (bool (says_changed check done.stdout)) (outcome done more)))
        else pure (failed (entry "msg" (str "apt-get failed") (outcome done more)))

  -- The choice of the command, behind the update of the cache.
  unfoldable pub manage : Value → Bool → List String → Run Session Answer
  manage state purge [] = pure (exited (entry "changed" (bool false) empty))
  manage state purge (name ∷ more) =
      let names = name ∷ more in
      if is_one_of state ("present" ∷ "latest" ∷ [])
      then operate (
          "apt-get"
          ∷ "install"
          ∷ "--yes"
          ∷ ((if eq_text state "latest" then "--upgrade" ∷ [] else []) ++ names))
      else if eq_text state "absent"
      then operate ("apt-get" ∷ (if purge then "purge" else "remove") ∷ "--yes" ∷ names)
      else pure (failed (entry "msg" (str ("Unsupported state: " <> h.show state)) empty))

  -- The update of the cache, and the rest if there are names.
  refresh : Value → Bool → List String → Run Session Answer
  unfolding manage
  refresh state purge [] =
      checked h ("apt-get" ∷ "update" ∷ []) "apt-get update failed"
        (pure (exited (entry "changed" (bool true) (entry "msg" (str "Cache updated") empty))))
  refresh state purge (name ∷ more) =
      checked h ("apt-get" ∷ "update" ∷ []) "apt-get update failed"
        (manage state purge (name ∷ more))

  -- No cache to update.
  direct : Value → Bool → List String → Run Session Answer
  unfolding manage
  direct state purge [] =
      pure (exited (entry "changed" (bool false) (entry "msg" (str "No packages specified") empty)))
  direct state purge (name ∷ more) = manage state purge (name ∷ more)

  -- The part behind the preflight.
  unfoldable pub perform : Dict → Run Session Answer
  unfolding refresh direct
  perform params =
      let names = names_of params in
      let state = normalized (get params "state") in
      let purge = truthy (get params "purge") in
      if truthy (get params "update_cache") || truthy (get params "cache_valid_time")
      then refresh state purge names
      else direct state purge names

  admit : List String → Dict → Run Session Answer
  unfolding perform
  admit [] params = perform params
  admit (name ∷ more) params = pure (refuse "apt" (name ∷ more))

  unfoldable pub main : Dict → Run Session Answer
  unfolding admit
  main params = admit (unsupported_params params) params
