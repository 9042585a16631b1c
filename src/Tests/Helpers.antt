-- ===== src/Tests/Helpers.antt =====
-- The helpers of the plugins, at concrete inputs.
use ansible_go.Base.{
  ◌==◌, none, some, ◌⊎◌, inl, ◌≤◌, ◌≡◌, refl, ◌↔◌, true, false, [], ◌∷◌, String, Bool, ◌<>◌, codes,
}
use ansible_go.Value.{
  null, bool, nat, int, pos, str, Dict, empty, entry, get, get_or, iterate, has, set, is_none,
}
use ansible_go.Run.{Exn, io_error, bad_value, ok, err}
use ansible_go.Run.Keeps.{Keeps}
use ansible_go.Env.{broken}
use ansible_go.Client
use ansible_go.Client.{Channel}
use ansible_go.Client.Laws.{IsFresh, Answers, call-IsFresh, read_response_iff}
use ansible_go.Client.Trace
use ansible_go.Client.Trace.{Tracer, Traced}
use ansible_go.Client.Trace.Laws.{length, trace_hint-IsShort, Blames, traced_call-cases}
use ansible_go.Params
use ansible_go.Params.{ExecArgs, WriteArgs, FileArgs, ServiceArgs}
use ansible_go.Params.Laws.{exec_params_members}
use ansible_go.FileState
use ansible_go.FileState.Laws.{IsModeOf, IsNoLink, format_octal_mode_int, fast_path_keeps_mode}
use ansible_go.Run.Ensures.{Ensures}
use ansible_go.Octal.{octal_value}
use ansible_go.Action.Apt.Args
use ansible_go.Action.Apt.Names.{arg_differs_total, should_fallback-IsPlain}
use ansible_go.Action.Apt.Plain.{IsPlain}
use ansible_go.Action.Systemd.{reload_args}
use ansible_go.Action.Copy.Data
use ansible_go.Action.Copy.Builtin.{Package, first_copy, load_class, builtin_class}
use ansible_go.Action.Copy.Builtin.Laws.{IsKept, builtin_class-IsKept}
use ansible_go.Action.Copy.Unchanged.{looked, transfer_same}
use ansible_go.World.{World}
use ansible_go.Tests.Setting.{online, start, apt_args, file_args, copy_args}

-- A trace file that takes every line.
abbrev tracer : Tracer
tracer = record {
  path = "/tmp/trace";
  stamp = λ lines. "1";
  took = λ lines. "0.100";
  appends = λ lines line. ok tt;
}

trace_hint-IsShort_example : length "/etc/hosts" ≤ 160
unfolding Trace.trace_hint get_or
trace_hint-IsShort_example =
    trace_hint-IsShort online "Stat" (entry "path" (str "/etc/hosts") empty) "/etc/hosts" refl

abbrev traced_start : Traced
traced_start = record { channel = record { next_id = 1; log = [] }; lines = [] }

traced_call-cases_example :
    let traced =
      Trace.traced_call online tracer "Hello" (entry "version" (str "1") empty) traced_start in
    let plain = Client.call online "Hello" (entry "version" (str "1") empty) traced_start.channel in
    (traced.1.channel ≡ plain.1)
    × ((traced.0 ≡ plain.0)
        ⊎ ((e : Exn) × (traced.0 ≡ err e)
            × ((tracer.path == "") ≡ false)
            × Blames online tracer "Hello" (entry "version" (str "1") empty) [] e))
traced_call-cases_example =
    traced_call-cases online tracer "Hello" (entry "version" (str "1") empty) traced_start

-- A line that cannot be encoded ends the call.
traced_call_raises :
    (Trace.traced_call online
      (record tracer { appends = λ lines line. err (bad_value "surrogate") })
      "Hello"
      (entry "version" (str "1") empty)
      traced_start).0
    ≡ err (bad_value "surrogate")
unfolding Trace.traced_call Trace.traced_response Trace.trace_hint Trace.trace Trace.unless_os_error
    Trace.after_trace
traced_call_raises = refl

abbrev channel : Channel
channel = record { next_id = 1; log = [] }

call-IsFresh_example : Keeps IsFresh (Client.call online "Stat" empty)
call-IsFresh_example = call-IsFresh online "Stat" empty

read_response_iff_example :
    (Client.read_response online 7 (broken (io_error "reset")) ≡ ok empty)
    ↔ Answers 7 (broken (io_error "reset")) empty
read_response_iff_example = read_response_iff online 7 (broken (io_error "reset")) empty

abbrev write : WriteArgs
write = record {
  dest = str "/tmp/a";
  content = "aGk=";
  owner = null;
  group = null;
  mode = str "0644";
  backup = true;
  unsafe_writes = false;
  checksum = null;
}

abbrev directory : FileArgs
directory = record {
  path = str "/srv";
  state = str "directory";
  owner = str "app";
  group = null;
  mode = null;
  recurse = true;
  follow = false;
  src = null;
}

abbrev nginx : ServiceArgs
nginx = record {
  name = str "nginx";
  manager = "systemd";
  state = str "started";
  enabled = bool true;
  no_block = false;
}

exec_params_members_example :
    let p = Params.exec_params reload_args in
    (get p "argv" ≡ reload_args.argv)
    × (get p "cmd_string" ≡ null)
    × (get p "use_shell" ≡ bool false)
    × (get p "cwd" ≡ null)
    × (get p "env" ≡ null)
    × (get p "stdin" ≡ null)
    × (get p "timeout" ≡ null)
    × (get p "creates" ≡ null)
    × (get p "removes" ≡ null)
    × (get p "stdin_add_newline" ≡ bool true)
    × (get p "strip_empty_ends" ≡ bool true)
    × (get p "become_user" ≡ null)
    × (has p "become_user" ≡ false)
exec_params_members_example = exec_params_members reload_args

format_octal_mode_int_example :
    (s : String) × (FileState.format_octal_mode online (int (pos 420)) ≡ str ("0" <> s))
    × (octal_value 0 (codes ("0" <> s)) ≡ 420)
format_octal_mode_int_example = format_octal_mode_int online 420

fast_path_keeps_mode_example :
    IsModeOf (get file_args "mode") (FileState.format_octal_mode online (get file_args "mode"))
    × Ensures
        (λ ch. Unit {0})
        (FileState.infer_file_state online
          (str "/tmp/a")
          (get file_args "state")
          (get file_args "src")
          false
          true)
        (λ found ch. IsNoLink found)
    × (is_none (get file_args "modification_time") ≡ true)
    × (is_none (get file_args "access_time") ≡ true)
    × (is_none (get file_args "modification_time_format") ≡ true)
    × (is_none (get file_args "access_time_format") ≡ true)
unfolding FileState.requires_builtin_file FileState.format_octal_mode get_or
fast_path_keeps_mode_example = fast_path_keeps_mode online file_args (str "/tmp/a") false true refl

arg_differs_total_example :
    (b : Bool) × (Args.arg_differs_from_default online "lock_timeout" (nat 60) ≡ ok b)
unfolding Args.unsupported
arg_differs_total_example = arg_differs_total online "lock_timeout" (nat 60) refl

should_fallback-IsPlain_example : IsPlain online apt_args
unfolding Args.should_fallback Args.args_differ Args.supported Args.unsupported Args.defaults
    Args.arg_differs_from_default Args.differs_from Args.differs Args.check_names
    Args.names_have_token Args.has_token Args.tokens get_or iterate
should_fallback-IsPlain_example = should_fallback-IsPlain online apt_args refl

abbrev remote : Dict
remote = entry "exists" (bool true) (entry "checksum" (str "abc") empty)

abbrev same : Data.Copy
same = record {
  bytes = 104 ∷ 105 ∷ [];
  checksum = "abc";
  args = copy_args;
  force = true;
  check_mode = false;
  diff = true;
}

abbrev up : World
up = record (start false) { connected = true; client = some 1 }

transfer_same_example : Data.transfer online same empty (str "/tmp/a") up ≡ (
  ok (set (set (set empty "changed" (bool false)) "dest" (str "/tmp/a")) "checksum" (str "abc")),
  looked (str "/tmp/a") 1 up,
)
unfolding get_or
transfer_same_example =
    transfer_same online same empty (str "/tmp/a") 1 up remote refl (refl, refl, inl refl)
      (record { exists = refl; file = refl; checksum = refl }) refl refl

-- The second directory has the file.
abbrev action_package : Package
action_package = record {
  paths = "/a" ∷ "/b" ∷ [];
  is_file = λ path. path == "/b/copy.py";
  executes = λ path. ok tt;
  shown = "[]";
}

builtin_class-IsKept_example : Keeps (IsKept action_package) (builtin_class action_package)
builtin_class-IsKept_example = builtin_class-IsKept action_package

builtin_class_found : (builtin_class action_package none).0 ≡ ok "/b/copy.py"
unfolding builtin_class first_copy load_class
builtin_class_found = refl
