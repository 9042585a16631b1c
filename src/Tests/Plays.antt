-- ===== src/Tests/Plays.antt =====
-- A play, at a concrete host.
use ansible_go.Base.{refl, true, none, some, List, [], ◌∷◌}
use ansible_go.Run.Keeps.{Keeps}
use ansible_go.World.Laws.{Only, Sends}
use ansible_go.Play.{
  Act, run_task, become_as, reset_connection, command_plugin, file_plugin, copy_plugin, Site,
  perform_all,
}
use ansible_go.Play.Laws.{reading, fallbacks, play_check_mode}
use ansible_go.Tests.Setting.{online, task, command_args, file_args, copy_args}
use ansible_go.Tests.Connections.{tools, disk, places, settings}

abbrev site : Site
site = record { tools = tools; disk = disk; places = places; settings = settings }

abbrev acts : List Act
acts =
    run_task command_plugin (task command_args true none)
    ∷ become_as (some "sudo")
    ∷ run_task file_plugin (task file_args true (some "app"))
    ∷ reset_connection
    ∷ run_task copy_plugin (task copy_args true none)
    ∷ []

play_check_mode_example : Keeps (Only (Sends reading fallbacks)) (perform_all online site acts)
play_check_mode_example = play_check_mode online site acts (refl, (tt, (refl, (tt, (refl, tt)))))
