-- ===== src/Tests/Plugins.antt =====
-- Which requests the plugins send, at concrete tasks.
use ansible_go.Run.Keeps.{Keeps}
use ansible_go.Value.{str, bool, nat, dict, Dict, empty, entry, get, get_or}
use ansible_go.Run.Ensures.{Ensures}
use ansible_go.Action.Stat.Fields.{HasFlags, flags, report-HasFlags}
use ansible_go.Action.Copy.Data
use ansible_go.Action.Copy.Carries.{Carries, copy_data-Carries}
use ansible_go.Base.{◌≡◌, refl, true, false, none, some, [], ◌∷◌}
use ansible_go.World.{get_become_user}
use ansible_go.World.Laws.{Only, Sends, SendsAs}
use ansible_go.World.Become.{OnlyAs}
use ansible_go.Action.Command
use ansible_go.Action.Command.Laws.{ExecsAs, command-ExecsAs}
use ansible_go.Action.Stat
use ansible_go.Action.Stat.Laws.{stat-Sends, stat-SendsAs}
use ansible_go.Action.File
use ansible_go.Action.File.Laws.{file_check_mode, file-SendsAs}
use ansible_go.Action.Copy
use ansible_go.Action.Copy.Laws.{copy_check_mode}
use ansible_go.Tests.Setting.{
  online, link, link-IsLawful, start, task, command_args, file_args, copy_args,
}

command-ExecsAs_example :
    let t = task command_args false (some "app") in
    OnlyAs (ExecsAs (some "app")) t.play (some "app") (Command.run online link t (start true)).1
unfolding get_become_user
command-ExecsAs_example =
    (command-ExecsAs online (task command_args false (some "app")) (some "app") link
        link-IsLawful).at
      (start true) (tt, refl)

stat-Sends_example :
    Only
      (Sends ("Stat" ∷ []) (Stat.builtin ∷ []))
      (Stat.run online link (task file_args false none) (start false)).1
stat-Sends_example =
    (stat-Sends online link link-IsLawful (task file_args false none)).at (start false) tt

stat-SendsAs_example :
    let t = task file_args false (some "app") in
    SendsAs [] (Stat.builtin ∷ []) t.play "app" (Stat.run online link t (start true)).1
unfolding get_become_user
stat-SendsAs_example =
    (stat-SendsAs online link link-IsLawful (task file_args false (some "app")) "app").at
      (start true) (tt, refl)

file_check_mode_example :
    Only
      (Sends ("Stat" ∷ []) (File.builtin ∷ []))
      (File.run online link (task file_args true none) (start false)).1
file_check_mode_example =
    (file_check_mode online link link-IsLawful (task file_args true none) refl).at (start false) tt

file-SendsAs_example :
    let t = task file_args false (some "app") in
    SendsAs [] (File.builtin ∷ []) t.play "app" (File.run online link t (start true)).1
unfolding get_become_user
file-SendsAs_example =
    (file-SendsAs online link link-IsLawful (task file_args false (some "app")) "app").at
      (start true) (tt, refl)

copy_check_mode_example :
    Only
      (Sends ("Stat" ∷ "ReadFile" ∷ []) ("copy" ∷ []))
      (Copy.run online link (task copy_args true none) (start false)).1
copy_check_mode_example =
    (copy_check_mode online link link-IsLawful (task copy_args true none) refl).at (start false) tt

copy_data-Carries_example :
    Keeps
      (Only (Carries (online.b64encode (104 ∷ 105 ∷ []))))
      (Data.copy_data online link (task copy_args false none) (104 ∷ 105 ∷ []) (str "/tmp/a"))
copy_data-Carries_example =
    copy_data-Carries online link link-IsLawful (task copy_args false none) (104 ∷ 105 ∷ [])
      (str "/tmp/a")

-- The answer of the agent about a directory.
abbrev directory_reply : Dict
directory_reply =
    entry "exists" (bool true) (entry "isdir" (bool true) (entry "xusr" (nat 1) empty))

report-HasFlags_example :
    Ensures
      (λ w. Unit {0})
      (Stat.report online empty (str "/tmp") true directory_reply)
      (λ d w. (stat : Dict) × (get d "stat" ≡ dict stat) × HasFlags directory_reply flags stat)
unfolding get_or
report-HasFlags_example = report-HasFlags online (str "/tmp") true directory_reply empty refl
