-- ===== src/Params.antt =====
-- The parameters that the client sends: the optional members are there exactly when the caller
-- gives them. `None` is `null`.
pub mod Laws
use ansible_go.Base.{String, Bool, true, false, not, List, if◌then◌else◌}
use ansible_go.Value.{Value, bool, str, list, Dict, empty, set, is_none, texts}

-- `if v is not None: params[k] = v`
unfoldable pub given : String → Value → Dict → Dict
given k v params = if is_none v then params else set params k v

-- `if b: params[k] = True`
unfoldable pub flagged : String → Bool → Dict → Dict
flagged k b params = if b then set params k (bool true) else params

-- The arguments of `exec`; those that default to None may be `null`.
pub record ExecArgs : Type 0 where
  pub argv : Value
  pub cmd_string : Value
  pub use_shell : Value
  pub cwd : Value
  pub env : Value
  pub stdin : Value
  pub timeout : Value
  pub creates : Value
  pub removes : Value
  pub stdin_add_newline : Value
  pub strip_empty_ends : Value
  pub become_user : Value

unfoldable pub exec_params : ExecArgs → Dict
exec_params a =
    let p = given "argv" a.argv (set empty "use_shell" a.use_shell) in
    let p = given "cwd" a.cwd (given "cmd_string" a.cmd_string p) in
    let p = given "stdin" a.stdin (given "env" a.env p) in
    let p = given "creates" a.creates (given "timeout" a.timeout p) in
    let p = set (given "removes" a.removes p) "stdin_add_newline" a.stdin_add_newline in
    given "become_user" a.become_user (set p "strip_empty_ends" a.strip_empty_ends)

unfoldable pub stat_params : Value → Bool → Bool → Value → Dict
stat_params path follow checksum algorithm =
    given "checksum_algorithm" algorithm
      (set (set (set empty "path" path) "follow" (bool follow)) "checksum" (bool checksum))

pub record WriteArgs : Type 0 where
  pub dest : Value
  pub content : String
  pub owner : Value
  pub group : Value
  pub mode : Value
  pub backup : Bool
  pub unsafe_writes : Bool
  pub checksum : Value

unfoldable pub write_params : WriteArgs → Dict
write_params a =
    let p = set (set empty "dest" a.dest) "content" (str a.content) in
    let p = given "mode" a.mode (given "group" a.group (given "owner" a.owner p)) in
    let p = flagged "unsafe_writes" a.unsafe_writes (flagged "backup" a.backup p) in
    given "checksum" a.checksum p

pub record FileArgs : Type 0 where
  pub path : Value
  pub state : Value
  pub owner : Value
  pub group : Value
  pub mode : Value
  pub recurse : Bool
  pub follow : Bool
  pub src : Value

unfoldable pub file_params : FileArgs → Dict
file_params a =
    let p = set (set empty "path" a.path) "state" a.state in
    let p = given "mode" a.mode (given "group" a.group (given "owner" a.owner p)) in
    let p = flagged "recurse" a.recurse p in
    given "src" a.src (if not a.follow then set p "follow" (bool false) else p)

unfoldable pub package_params : String → List String → String → Dict
package_params manager names state =
    set (set (set empty "manager" (str manager)) "names" (list (texts names))) "state" (str state)

pub record ServiceArgs : Type 0 where
  pub name : Value
  pub manager : String
  pub state : Value
  pub enabled : Value
  pub no_block : Bool

unfoldable pub service_params : ServiceArgs → Dict
service_params a =
    let p = set (set empty "name" a.name) "manager" (str a.manager) in
    flagged "no_block" a.no_block (given "enabled" a.enabled (given "state" a.state p))
