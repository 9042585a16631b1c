-- ===== src/Action/Copy.antt =====
-- The copy action (plugins/action/copy.py). The copy of the bytes is in the child Data.
use ansible_go.Base.{
  String, Bool, true, false, not, ◌&&◌, ◌||◌, ◌==◌, ◌<>◌, starts_with, drop_text, ends_with_slash,
  any, is_some, List, [], ◌∷◌, if◌then◌else◌,
}
use ansible_go.Value.{
  Value, null, bool, nat, str, list, dict, Dict, get_or, get, set, truthy, is_none, eq_text,
}
use ansible_go.Run.{bad_value, Result, ok, err, Run, pure, lift, gets, attempt, handle, ◌>>=◌, ◌>>◌}
use ansible_go.Env.{Env, Bytes}
use ansible_go.Failure.{failed}
use ansible_go.World.{Task, World, Link, get_become_user, builtin_copy}
pub mod Data
pub mod Laws
pub mod Shield
pub mod Builtin
pub mod Unchanged
pub mod Carries
pub mod Failures
use Data.{copy_data}

-- `_execute_module_rewrite`: the name of the module that the builtin action's call runs.
unfoldable pub rewrite_module_name : Value → Value
rewrite_module_name (str name) =
    if starts_with name "ansible.legacy."
    then str ("ansible.builtin." <> drop_text 15 name)
    else str name
rewrite_module_name v = v

-- `value not in (None, "_default")`
abbrev is_set : Value → Bool
is_set v = not (is_none v || eq_text v "_default")

unfoldable pub has_selinux_args : Dict → Bool
has_selinux_args args =
    any (λ k. is_set (get args k)) ("seuser" ∷ "serole" ∷ "setype" ∷ "selevel" ∷ [])

-- `dest.endswith("/")`
dest_is_dir : Value → Result Bool
dest_is_dir (str s) = ok (ends_with_slash s)
dest_is_dir v = err (bad_value "object has no attribute 'endswith'")

module _ (env : Env) where
  -- Cases that the fast path leaves to the builtin action.
  unfoldable pub needs_builtin : Dict → Bool
  needs_builtin args =
      env.boolean (get_or args "remote_src" (bool false))
      || truthy (get args "validate")
      || has_selinux_args args
      || eq_text (get args "mode") "preserve"

  content_bytes : Value → Bytes
  content_bytes (dict d) = env.json_bytes (dict d)
  content_bytes (list vs) = env.json_bytes (list vs)
  content_bytes v = env.to_bytes v

  module _ (link : Link) where
    -- The bytes of a file of the controller, with a vault file decrypted.
    copy_real_file : Task → Value → String → Run World Dict
    copy_real_file task dest source = do
      let decrypt = env.boolean (get_or task.args "decrypt" (bool true))
      real ← attempt (lift (env.real_file source decrypt))
      handle real (λ e. builtin_copy env)
          λ path. do bytes ← lift (env.read_bytes path); copy_data env link task bytes dest

    copy_source : Task → Value → Value → Run World Dict
    unfolding copy_real_file
    copy_source task dest source = do
      found ← attempt (lift (env.find_needle source))
      handle found (λ e. builtin_copy env)
          λ path. do
            directory ← lift (env.is_dir path)
            if directory then builtin_copy env else copy_real_file task dest path

    -- The tests of the arguments, and the two kinds of source.
    unfoldable pub fast_path : Task → Dict → Run World Dict
    unfolding dest_is_dir content_bytes copy_source
    fast_path task result =
        let source = get task.args "src" in
        let content = get task.args "content" in
        let dest = get task.args "dest" in
        let has_content = not (is_none content) in
        if not (truthy dest) then pure (failed result "dest is required") else (do
          slashed ← (if has_content then lift (dest_is_dir dest) else pure false)
          if slashed
              then pure (failed result "can not use content with a dir as dest")
              else if not (truthy source) && not has_content
              then pure (failed result "src (or content) is required")
              else if truthy source && has_content
              then pure (failed result "src and content are mutually exclusive")
              else if has_content
              then copy_data env link task (content_bytes content) dest
              else copy_source task dest source)

    unfoldable pub run : Task → Run World Dict
    run task = do
      result ← lift env.base_run
      if not (task.transport == "fastagent") then builtin_copy env else (do
        user ← gets (get_become_user task.play)
        if is_some user
            then builtin_copy env
            else if needs_builtin task.args
            then builtin_copy env
            else fast_path task result)
