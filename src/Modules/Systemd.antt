-- ===== src/Modules/Systemd.antt =====
-- The systemd module (plugins/modules/systemd.py), one definition for each part of `main`, with
-- the rest of it as an argument.
use ansible_go.Base.{
  String, ◌<>◌, Bool, true, false, not, ◌&&◌, ◌==◌, Option, none, some, List, [], ◌∷◌, ◌++◌,
  if◌then◌else◌,
}
use ansible_go.Value.{
  Value, bool, str, dict, Dict, empty, entry, get, set, truthy, is_none, eq_text,
}
use ansible_go.Run.{Run, pure, ◌>>=◌, ◌>>◌}
use ansible_go.Modules.{Session, Host, Answer, exited, failed, run_command, checked}
pub mod Laws
pub mod Says
pub mod Honest
pub mod Dry
pub mod Plan

-- `systemctl_cmd`
abbrev pub systemctl : Dict → List String
systemctl params =
    let scope = get params "scope" in
    let scoped =
      if eq_text scope "user"
      then "--user" ∷ []
      else if eq_text scope "global"
      then "--global" ∷ []
      else [] in
    let block = if truthy (get params "no_block") then "--no-block" ∷ [] else [] in
    let force = if truthy (get params "force") then "--force" ∷ [] else [] in
    "systemctl" ∷ (scoped ++ (block ++ force))

-- The action that a state asks for, if there is anything to do.
abbrev pub action_for : Value → String → Option String
action_for state active =
    if eq_text state "started" && not (active == "active")
    then some "start"
    else if eq_text state "stopped" && active == "active"
    then some "stop"
    else if eq_text state "restarted"
    then some "restart"
    else if eq_text state "reloaded"
    then some "reload"
    else none

-- `enabled != current_enabled`, for an argument of type bool
abbrev pub bool_differs : Value → Bool → Bool
bool_differs v true = not (truthy v)
bool_differs v false = truthy v

-- A name, which is a text where it is given.
abbrev pub name_text : Value → String
name_text (str s) = s
name_text v = ""

module _ (h : Host) (check : Bool) (params : Dict) where
  -- A command that changes something is left out in check mode.
  unfoldable pub unless_check : List String → String → Run Session Answer → Run Session Answer
  unless_check words message rest =
      if check then rest else checked h (systemctl params ++ words) message rest

  -- A question to systemctl: what it prints, without the space around it.
  unfoldable pub ask : String → String → Run Session String
  ask question name = do
    done ← run_command h (systemctl params ++ (question ∷ name ∷ [])) []
    pure (h.strip done.stdout)

  unfoldable pub reload : String → String → Run Session Answer → Run Session Answer
  reload argument command rest =
      if truthy (get params argument)
      then unless_check (command ∷ []) (command <> " failed") rest
      else rest

  -- Each part is given whether something was changed, and hands that on.
  unfoldable pub mask : String → (Bool → Run Session Answer) → Run Session Answer
  mask name rest =
      let masked = get params "masked" in
      if is_none masked then rest false else (do
        shown ← ask "is-enabled" name
        if truthy masked && not (shown == "masked")
            then unless_check ("mask" ∷ name ∷ []) "mask failed" (rest true)
            else if not (truthy masked) && shown == "masked"
            then unless_check ("unmask" ∷ name ∷ []) "unmask failed" (rest true)
            else rest false)

  unable : String → String → String
  unable action name = "Unable to " <> (action <> (" service " <> name))

  perform_action : Option String → String → Bool → (Bool → Run Session Answer) → Run Session Answer
  unfolding unable
  perform_action none name changed rest = rest changed
  perform_action (some action) name changed rest =
      if check
      then rest changed
      else checked h (systemctl params ++ (action ∷ name ∷ [])) (unable action name) (rest true)

  unfoldable pub set_state :
      String → String → Bool → (Bool → Run Session Answer) → Run Session Answer
  unfolding perform_action
  set_state active name changed rest =
      let state = get params "state" in
      perform_action (if is_none state then none else action_for state active) name changed rest

  unfoldable pub set_enabled :
      Bool → String → Bool → (Bool → Run Session Answer) → Run Session Answer
  unfolding unable
  set_enabled current name changed rest =
      let enabled = get params "enabled" in
      let action = if truthy enabled then "enable" else "disable" in
      if not (is_none enabled) && bool_differs enabled current
      then unless_check (action ∷ name ∷ []) (unable action name) (rest true)
      else rest changed

  -- The result at the end.
  unfoldable pub report : String → String → Bool → Answer
  report active file_state changed =
      let status =
        entry "ActiveState" (str active) (entry "UnitFileState" (str file_state) empty) in
      let result =
        entry "name" (get params "name")
          (entry "changed" (bool changed) (entry "status" (dict status) empty)) in
      let state = get params "state" in
      let enabled = get params "enabled" in
      let result = if truthy state then set result "state" state else result in
      exited (if is_none enabled then result else set result "enabled" enabled)

  -- The part that knows the unit.
  unfoldable pub manage : String → Run Session Answer
  manage name = do
    active ← ask "is-active" name
    file_state ← ask "is-enabled" name
    mask name λ masked. set_state active name masked λ acted.
        set_enabled (file_state == "enabled") name acted
          λ changed. pure (report active file_state changed)

  unfoldable pub main : Run Session Answer
  main =
      let name = get params "name" in
      let unnamed = exited (entry "name" name (entry "changed" (bool false) empty)) in
      reload "daemon_reload" "daemon-reload" (
        reload "daemon_reexec" "daemon-reexec"
          (if truthy name then manage (name_text name) else pure unnamed))
