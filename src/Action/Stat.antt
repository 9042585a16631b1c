-- ===== src/Action/Stat.antt =====
-- The stat action (plugins/action/stat.py).
use Prim.Native.String
use ansible_go.Base.{
  String, Bool, true, false, not, ◌&&◌, ◌||◌, ◌==◌, List, [], ◌∷◌, code, eqb, contains, ◌<>◌,
  if◌then◌else◌, is_some,
}
use ansible_go.Value.{
  Value, null, bool, nat, str, dict, Dict, empty, entry, get_or, get, set, truthy,
}
use ansible_go.Run.{Result, ok, err, bad_value, Run, pure, lift, gets, attempt, handle, ◌>>=◌, ◌>>◌}
use ansible_go.Env.{Env, text_of}
use ansible_go.Client
use ansible_go.Failure.{failed, failed_with}
use ansible_go.World.{Task, World, Link, get_become_user, on_client, run_builtin}
pub mod Laws
pub mod Fields
pub mod Failures

abbrev pub builtin : String
builtin = "ansible.builtin.stat"

abbrev supported_algorithms : List String
supported_algorithms = "md5" ∷ "sha1" ∷ "sha224" ∷ "sha256" ∷ "sha384" ∷ "sha512" ∷ []

abbrev type_flags : List String
type_flags = "isdir" ∷ "islnk" ∷ "isreg" ∷ "isblk" ∷ "ischr" ∷ "isfifo" ∷ "issock" ∷ []

abbrev mode_flags : List String
mode_flags =
    "isuid" ∷ "isgid" ∷ "rusr" ∷ "wusr" ∷ "xusr" ∷ "rgrp" ∷ "wgrp" ∷ "xgrp" ∷ "roth" ∷ "woth"
    ∷ "xoth" ∷ "readable" ∷ "writeable" ∷ "executable" ∷ []

-- `s.replace("-", "")`
without_dashes : String → String
without_dashes String.[] = ""
without_dashes (String.◌∷◌ c s) =
    let rest = without_dashes s in if eqb (code c) b'-' then rest else String.◌∷◌ c rest

-- `for k in names: stat[k] = bool(reply.get(k, False))`
copy_flags : List String → Dict → Dict → Dict
copy_flags [] reply stat = stat
copy_flags (k ∷ names) reply stat =
    copy_flags names reply (set stat k (bool (truthy (get_or reply k (bool false)))))

-- `stat[k] = reply.get(k, default)`
abbrev copy_field : String → Value → Dict → Dict → Dict
copy_field k default reply stat = set stat k (get_or reply k default)

module _ (env : Env) where
  -- `checksum_algorithm.lower().replace("-", "")`
  normalized : Value → Result String
  unfolding without_dashes
  normalized (str s) = ok (without_dashes (env.lower s))
  normalized v = err (bad_value "the algorithm is no text")

  -- Owner and group: the name, or the number where the lookup failed.
  name_or_id : Value → Value → Value
  name_or_id name id = if truthy name then name else str (text_of env id)

  ids : Value → Dict → Dict
  unfolding copy_flags
  ids path reply =
      let stat =
        set (entry "exists" (get_or reply "exists" (bool false)) empty) "path"
          (get_or reply "path" path) in
      let stat = copy_flags type_flags reply stat in
      let stat = copy_field "size" (nat 0) reply (copy_field "mode" (str "") reply stat) in
      let stat = copy_field "gid" (nat 0) reply (copy_field "uid" (nat 0) reply stat) in
      let stat = copy_field "inode" (nat 0) reply (copy_field "dev" (nat 0) reply stat) in
      copy_field "nlink" (nat 0) reply stat

  owners : Dict → Dict → Dict
  unfolding name_or_id
  owners reply stat =
      let owner = get_or reply "owner" (str "") in
      let group = get_or reply "group" (str "") in
      let stat = set stat "owner" (name_or_id owner (get stat "uid")) in
      let stat = set stat "group" (name_or_id group (get stat "gid")) in
      let stat = if truthy owner then set stat "pw_name" owner else stat in
      if truthy group then set stat "gr_name" group else stat

  links : Bool → Dict → Dict → Dict
  unfolding copy_flags
  links get_checksum reply stat =
      let stat = copy_flags mode_flags reply stat in
      let linked =
        copy_field "lnk_target" (str "") reply (copy_field "lnk_source" (str "") reply stat) in
      let stat = if truthy (get stat "islnk") then linked else stat in
      if get_checksum && truthy (get stat "isreg")
      then copy_field "checksum" (str "") reply stat
      else stat

  -- The dict that Ansible expects, from the agent's answer about a path that exists.
  build_stat : Value → Bool → Dict → Run World Dict
  unfolding ids owners links
  build_stat path get_checksum reply = do
    let stat = owners reply (ids path reply)
    mtime ← lift (env.to_float (get_or reply "mtime" (nat 0)))
    atime ← lift (env.to_float (get_or reply "atime" (nat 0)))
    ctime ← lift (env.to_float (get_or reply "ctime" (nat 0)))
    let stat = set (set (set stat "mtime" mtime) "atime" atime) "ctime" ctime
    pure (links get_checksum reply stat)

  finish : Dict → Dict → Run World Dict
  finish result stat = pure (set (set result "stat" (dict stat)) "changed" (bool false))

  pub report : Dict → Value → Bool → Dict → Run World Dict
  unfolding build_stat finish
  report result path get_checksum reply =
      let exists = get_or reply "exists" (bool false) in
      if truthy exists
      then (do stat ← build_stat path get_checksum reply; finish result stat)
      else finish result (entry "exists" exists empty)

  -- The Stat RPC and its result.
  unfoldable pub query : Dict → Value → Bool → Bool → String → Run World Dict
  unfolding report
  query result path follow get_checksum algorithm = do
    let algorithm = if get_checksum then str algorithm else null
    answer ← attempt (on_client (Client.stat env path follow get_checksum algorithm))
    handle answer (λ e. pure (failed_with env result "fastagent stat failed: " e))
        (report result path get_checksum)

  module _ (link : Link) where
    -- The task, behind the tests for a foreign connection and for a become user.
    fast_path : Dict → Dict → Run World Dict
    unfolding query normalized
    fast_path args result = do
      let flag = λ (k : String) (default : Bool). env.boolean (get_or args k (bool default))
      let get_checksum = flag "get_checksum" true
      let probes =
          flag "get_mime" true || flag "get_attributes" true || flag "get_selinux_context" false
      if not (truthy (get args "path"))
          then pure (failed result "path is required")
          else if probes
          then run_builtin env builtin result
          else (do
            algorithm ← lift (normalized (get_or args "checksum_algorithm" (str "sha1")))
            if get_checksum && not (contains supported_algorithms algorithm)
                then run_builtin env builtin result
                else query result (get args "path") (flag "follow" false) get_checksum algorithm)

    unfoldable pub run : Task → Run World Dict
    unfolding fast_path
    run task = do
      result ← lift env.base_run
      if not (task.transport == "fastagent") then run_builtin env builtin result else (do
        link.connect
        user ← gets (get_become_user task.play)
        if is_some user then run_builtin env builtin result else fast_path task.args result)
