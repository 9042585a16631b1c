-- ===== src/Modules/Routing.antt =====
-- The modules that only route (plugins/modules/copy.py, file.py, stat.py and command.py): each
-- prints one failure and ends with status 1.
use ansible_go.Base.{ℕ, String, ◌<>◌, true}
use ansible_go.Value.{bool, str, Dict, empty, entry}

-- The dict that is printed as JSON, and the argument of `sys.exit`.
pub record Refusal : Type 0 where
  pub printed : Dict
  pub status : ℕ

abbrev refusal : String → Refusal
refusal message = record {
  printed = entry "failed" (bool true) (entry "msg" (str message) empty);
  status = 1;
}

abbrev pub copy_main : Refusal
copy_main = refusal (
    "kevinburke.fastagent.copy shim was invoked directly. The action "
    <> ("plugin override should have handled this task. This indicates a "
        <> ("bug in the action plugin's fallback path — fallbacks must pass "
            <> "module_name='ansible.builtin.copy' to _execute_module().")))

abbrev pub file_main : Refusal
file_main = refusal (
    "kevinburke.fastagent.file shim was invoked directly. The action "
    <> ("plugin override should have handled this task. Fallbacks must "
        <> "pass module_name='ansible.builtin.file' to _execute_module()."))

abbrev pub stat_main : Refusal
stat_main = refusal (
    "kevinburke.fastagent.stat shim was invoked directly. The action "
    <> ("plugin override should have handled this task. Fallbacks must "
        <> "pass module_name='ansible.builtin.stat' to _execute_module()."))

abbrev pub command_main : Refusal
command_main = refusal (
    "kevinburke.fastagent.command shim was invoked directly. The action "
    <> ("plugin override should have handled this task. Fallbacks must "
        <> ("pass module_name='ansible.legacy.command' (or ansible.builtin) "
            <> "to _execute_module().")))
