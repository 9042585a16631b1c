-- ===== src/Params/Laws.antt =====
-- The agent reads back from the parameters what the caller gave, and an argument that was not
-- given is no member at all.
use ansible_go.Base.{◌≡◌, refl, String, Bool, true, false, not, ◌||◌, arith, ◌==◌, if◌then◌else◌}
use ansible_go.Value.{Value, bool, str, Dict, get_or, get, has, set, is_none}
use ansible_go.Value.Laws.{dict_laws, get_or-set, has-set, null_or}
use ansible_go.Params.{
  given, flagged, ExecArgs, exec_params, stat_params, WriteArgs, write_params, FileArgs,
  file_params, ServiceArgs, service_params,
}

get_or-given :
    (k j : String) (v w : Value) (p : Dict)
    → get_or (given k v p) j w
      ≡ (if k == j then if is_none v then get_or p j w else v else get_or p j w)
unfolding given
get_or-given k j v w p = ground (arith, get_or-set p k j v w)

has-given :
    (k j : String) (v : Value) (p : Dict)
    → has (given k v p) j ≡ (if k == j then not (is_none v) || has p j else has p j)
unfolding given
has-given k j v p = ground (arith, has-set p k j v)

get_or-flagged :
    (k j : String) (b : Bool) (w : Value) (p : Dict)
    → get_or (flagged k b p) j w
      ≡ (if k == j then if b then bool true else get_or p j w else get_or p j w)
unfolding flagged
get_or-flagged k j b w p = ground (arith, get_or-set p k j (bool true) w)

or-false : (b : Bool) → (b || false) ≡ b
or-false true = refl
or-false false = refl

true_or : (b : Bool) → (if b then bool true else bool false) ≡ bool b
true_or true = refl
true_or false = refl

false_or : (b : Bool) → (if not b then bool false else bool true) ≡ bool b
false_or true = refl
false_or false = refl

-- The member `follow` of a File request, which is sent only where it is false.
get_or-follow :
    (j : String) (b : Bool) (w : Value) (p : Dict)
    → get_or (if not b then set p "follow" (bool false) else p) j w
      ≡ (if "follow" == j then if not b then bool false else get_or p j w else get_or p j w)
get_or-follow j true w p = ground arith
get_or-follow j false w p = get_or-set p "follow" j (bool false) w

ruleset params_laws = (
  dict_laws, get_or-given, has-given, get_or-flagged, get_or-follow, null_or, or-false, true_or,
  false_or,
)

-- Every argument of `exec` is read back from the parameters under its own name, and the member
-- `become_user` is there exactly when the argument is not None.
pub exec_params_members :
    (a : ExecArgs)
    → let p = exec_params a in
      (get p "argv" ≡ a.argv)
      × (get p "cmd_string" ≡ a.cmd_string)
      × (get p "use_shell" ≡ a.use_shell)
      × (get p "cwd" ≡ a.cwd)
      × (get p "env" ≡ a.env)
      × (get p "stdin" ≡ a.stdin)
      × (get p "timeout" ≡ a.timeout)
      × (get p "creates" ≡ a.creates)
      × (get p "removes" ≡ a.removes)
      × (get p "stdin_add_newline" ≡ a.stdin_add_newline)
      × (get p "strip_empty_ends" ≡ a.strip_empty_ends)
      × (get p "become_user" ≡ a.become_user)
      × (has p "become_user" ≡ not (is_none a.become_user))
unfolding exec_params
exec_params_members a = (
  simp params_laws,
  simp params_laws,
  simp params_laws,
  simp params_laws,
  simp params_laws,
  simp params_laws,
  simp params_laws,
  simp params_laws,
  simp params_laws,
  simp params_laws,
  simp params_laws,
  simp params_laws,
  simp params_laws,
)

-- Every argument of `stat` is read back, and the algorithm is a member exactly when it is given.
pub stat_params_members :
    (path : Value) (follow checksum : Bool) (algorithm : Value)
    → let p = stat_params path follow checksum algorithm in
      (get p "path" ≡ path)
      × (get p "follow" ≡ bool follow)
      × (get p "checksum" ≡ bool checksum)
      × (get p "checksum_algorithm" ≡ algorithm)
      × (has p "checksum_algorithm" ≡ not (is_none algorithm))
unfolding stat_params
stat_params_members path follow checksum algorithm =
    (simp params_laws, simp params_laws, simp params_laws, simp params_laws, simp params_laws)

-- Every argument of `write_file` is read back, a flag that is not sent as false.
pub write_params_members :
    (a : WriteArgs)
    → let p = write_params a in
      (get p "dest" ≡ a.dest)
      × (get p "content" ≡ str a.content)
      × (get p "owner" ≡ a.owner)
      × (get p "group" ≡ a.group)
      × (get p "mode" ≡ a.mode)
      × (get_or p "backup" (bool false) ≡ bool a.backup)
      × (get_or p "unsafe_writes" (bool false) ≡ bool a.unsafe_writes)
      × (get p "checksum" ≡ a.checksum)
unfolding write_params
write_params_members a = (
  simp params_laws,
  simp params_laws,
  simp params_laws,
  simp params_laws,
  simp params_laws,
  simp params_laws,
  simp params_laws,
  simp params_laws,
)

-- Every argument of `file` is read back, with the agent's defaults for the flags: `recurse` is
-- false and `follow` is true where they are not sent.
pub file_params_members :
    (a : FileArgs)
    → let p = file_params a in
      (get p "path" ≡ a.path)
      × (get p "state" ≡ a.state)
      × (get p "owner" ≡ a.owner)
      × (get p "group" ≡ a.group)
      × (get p "mode" ≡ a.mode)
      × (get_or p "recurse" (bool false) ≡ bool a.recurse)
      × (get_or p "follow" (bool true) ≡ bool a.follow)
      × (get p "src" ≡ a.src)
unfolding file_params
file_params_members a = (
  simp params_laws,
  simp params_laws,
  simp params_laws,
  simp params_laws,
  simp params_laws,
  simp params_laws,
  simp params_laws,
  simp params_laws,
)

-- Every argument of `service` is read back, and `enabled` is a member exactly when it is given.
pub service_params_members :
    (a : ServiceArgs)
    → let p = service_params a in
      (get p "name" ≡ a.name)
      × (get p "manager" ≡ str a.manager)
      × (get p "state" ≡ a.state)
      × (get p "enabled" ≡ a.enabled)
      × (get_or p "no_block" (bool false) ≡ bool a.no_block)
unfolding service_params
service_params_members a =
    (simp params_laws, simp params_laws, simp params_laws, simp params_laws, simp params_laws)
