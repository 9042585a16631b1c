-- ===== src/Action/Copy/Data.antt =====
-- The copy of bytes through the agent (plugins/action/copy.py, _fastagent_copy_data).
use ansible_go.Base.{String, Bool, true, false, not, ◌&&◌, ◌||◌, path_join, basename, if◌then◌else◌}
use ansible_go.Value.{
  Value, null, bool, int, str, list, dict, nil, cons, Dict, empty, entry, get_or, get, has, set,
  truthy, is_none, eq_text,
}
use ansible_go.Run.{bad_value, Result, ok, err, Run, pure, lift, attempt, handle, ◌>>=◌, ◌>>◌}
use ansible_go.Env.{Env, Bytes, text_of}
use ansible_go.Client
use ansible_go.Params.{WriteArgs}
use ansible_go.FileState.{octal_of_int, zero_prefixed}
use ansible_go.Failure.{failed, failed_with}
use ansible_go.World.{Task, World, Link, on_client}

-- What one copy works with, behind the reading of the arguments.
pub record Copy : Type 0 where
  pub bytes : Bytes
  pub checksum : String
  pub args : Dict
  pub force : Bool
  pub check_mode : Bool
  pub diff : Bool

-- `os.path.basename(src) if src else "content"`; a source that is no text raises.
unfoldable pub source_name : Value → Result String
source_name (str s) = ok (if truthy (str s) then basename s else "content")
source_name v = if truthy v then err (bad_value "expected str") else ok "content"

-- `os.path.join(dest, name)`
unfoldable pub joined : Value → String → Result Value
joined (str s) name = ok (str (path_join s name))
joined v name = err (bad_value "expected str")

abbrev is_there : Dict → Bool
is_there reply = truthy (get reply "exists")

abbrev is_directory : Dict → Bool
is_directory reply = truthy (get_or reply "isdir" (bool false))

module _ (env : Env) where
  -- `_format_mode`
  unfoldable pub format_mode : Value → Value
  format_mode null = null
  format_mode (int n) = str (octal_of_int n)
  format_mode (bool true) = str "01"
  format_mode (bool false) = str "00"
  format_mode v = str (zero_prefixed (text_of env v))

  abbrev look : Value → Run World (Result Dict)
  look dest = attempt (on_client (Client.stat env dest true true null))

  -- The content is the same: only the owner, the group and the mode may change.
  unfoldable pub keep_content : Copy → Dict → Value → Run World Dict
  keep_content c result dest =
      let owner = get c.args "owner" in
      let group = get c.args "group" in
      let mode = get c.args "mode" in
      let result =
        set (set (set result "changed" (bool false)) "dest" dest) "checksum" (str c.checksum) in
      if not c.check_mode && (truthy owner || truthy group || truthy mode)
      then (do
        answer ← attempt (
            on_client (
              Client.file env (record {
                path = dest;
                state = str "file";
                owner = owner;
                group = group;
                mode = format_mode mode;
                recurse = false;
                follow = true;
                src = null;
              })))
        handle answer (λ e. pure (failed_with env result "fastagent file attrs failed: " e))
            λ reply.
              pure
                (if truthy (get reply "changed") then set result "changed" (bool true) else result))
      else pure result

  -- The entry of the diff, from the old bytes of the file.
  diff_entry : Copy → Value → Bytes → Value
  diff_entry c dest old = dict (
      entry "before" (str (env.bytes_text old)) (
        entry "after" (str (env.bytes_text c.bytes))
          (entry "before_header" dest (entry "after_header" (str "new content") empty))))

  -- `old["content"]`, decoded
  pub decoded : Dict → Result Bytes
  decoded reply =
      if has reply "content"
      then env.b64decode (get reply "content")
      else err (bad_value "KeyError")

  unfoldable pub write_args : Copy → Value → WriteArgs
  write_args c dest = record {
    dest = dest;
    content = env.b64encode c.bytes;
    owner = get c.args "owner";
    group = get c.args "group";
    mode = format_mode (get c.args "mode");
    backup = env.boolean (get_or c.args "backup" (bool false));
    unsafe_writes = env.boolean (get_or c.args "unsafe_writes" (bool false));
    checksum = null;
  }

  -- The write, or what check mode reports in its place.
  unfoldable pub write : Copy → Dict → Value → Run World Dict
  unfolding write_args
  write c result dest =
      if c.check_mode then pure (set (set result "changed" (bool true)) "dest" dest) else (do
        answer ← attempt (on_client (Client.write_file env (write_args c dest)))
        handle answer (λ e. pure (failed_with env result "fastagent write failed: " e))
            λ reply. do
              let result = set result "changed" (get_or reply "changed" (bool true))
              let result = set result "dest" dest
              let result = set result "checksum" (get_or reply "checksum" (str c.checksum))
              let backup = get reply "backup_file"
              pure (if truthy backup then set result "backup_file" backup else result))

  -- The diff, if it is asked for, and then the write.
  unfoldable pub replace : Copy → Dict → Value → Dict → Run World Dict
  unfolding decoded diff_entry write
  replace c result dest remote =
      let result' = set result "diff" (list nil) in
      if not c.diff
      then write c result dest
      else if is_there remote && not (is_directory remote)
      then (do
        old ← attempt (do reply ← on_client (Client.read_file env dest); lift (decoded reply))
        handle old (λ e. pure (failed_with env result' "fastagent read for diff failed: " e))
            λ bytes. write c (set result "diff" (list (cons (diff_entry c dest bytes) nil))) dest)
      else write c result' dest

  -- The decision, once the path is final: `remote` is what the agent says of it.
  unfoldable pub settle : Copy → Dict → Value → Dict → Run World Dict
  unfolding keep_content replace
  settle c result dest remote =
      let same =
        is_there remote
        && not (is_directory remote)
        && eq_text (get_or remote "checksum" (str "")) c.checksum
        && c.force in
      if is_there remote && not c.force
      then pure (set (set result "changed" (bool false)) "dest" dest)
      else if same
      then keep_content c result dest
      else replace c result dest remote

  -- A directory as the destination: the source's name is joined, and the agent is asked again.
  unfoldable pub into_directory : Copy → Dict → Value → Run World Dict
  unfolding settle source_name joined
  into_directory c result dest =
      if not (is_none (get c.args "content"))
      then pure (failed result "can not use content with a dir as dest")
      else (do
        name ← lift (source_name (get_or c.args "src" (str "")))
        path ← lift (joined dest name)
        seen ← look path
        handle seen (λ e. pure (failed_with env result "fastagent stat failed: " e))
            (settle c result path))

  -- The copy, behind the connect.
  unfoldable pub transfer : Copy → Dict → Value → Run World Dict
  unfolding into_directory
  transfer c result dest = do
    seen ← look dest
    handle seen (λ e. pure (failed_with env result "fastagent stat failed: " e))
        λ remote.
          if is_there remote && truthy (get remote "isdir")
          then into_directory c result dest
          else settle c result dest remote

  module _ (link : Link) where
    unfoldable pub copy_data : Task → Bytes → Value → Run World Dict
    unfolding transfer
    copy_data task bytes dest = do
      result ← lift env.base_run
      link.connect
      let c : Copy = record {
        bytes = bytes;
        checksum = env.sha256 bytes;
        args = task.args;
        force = env.boolean (get_or task.args "force" (bool true));
        check_mode = task.play.check_mode;
        diff = task.play.diff;
      }
      transfer c result dest
