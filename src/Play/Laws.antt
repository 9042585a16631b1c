-- ===== src/Play/Laws.antt =====
-- What a play in check mode sends.
use ansible_go.Base.{
  ◌≡◌, refl, sym, subst, if◌then◌else◌, String, Bool, true, false, Option, some, none, List, [],
  ◌∷◌, All, ◌==◌,
}
use ansible_go.Run.{modify}
use ansible_go.Run.Keeps.{Keeps, Keeps-bind, Keeps-pure, Keeps-attempt}
use ansible_go.Env.{Env}
use ansible_go.World.{Task, World, set_become_plugin}
use ansible_go.World.Laws.{Only, IsLawful, Sends, Sends-connect}
use ansible_go.Connection.{close}
use ansible_go.Connection.Connect.{reset}
use ansible_go.Connection.Binary.Laws.{connect-IsLawful}
use ansible_go.Action.Command
use ansible_go.Action.Command.Laws.{command_check_mode}
use ansible_go.Action.File
use ansible_go.Action.File.Laws.{file-Looks}
use ansible_go.Action.Stat
use ansible_go.Action.Stat.Laws.{stat-Looks}
use ansible_go.Action.Systemd
use ansible_go.Action.Systemd.Laws.{systemd-Sends}
use ansible_go.Action.Apt
use ansible_go.Action.Apt.Laws.{apt_check_mode}
use ansible_go.Action.Copy.Laws.{copy-Looks}
use ansible_go.Play.{
  Plugin, command_plugin, file_plugin, stat_plugin, systemd_plugin, apt_plugin, copy_plugin, Act,
  run_task, become_as, reset_connection, Site, site_link, run_plugin, perform_act, perform_all,
}

-- The methods that only read.
abbrev pub reading : List String
reading = "Stat" ∷ "ReadFile" ∷ []

-- The builtin modules that a task can fall back to, and the builtin copy action; each of them is
-- told of check mode by Ansible.
abbrev pub fallbacks : List String
fallbacks =
    Command.builtin ∷ File.builtin ∷ Stat.builtin ∷ Systemd.builtin ∷ Apt.builtin ∷ "copy" ∷ []

-- The task, if there is one, is in check mode.
abbrev pub IsChecked : Act → Type 0
IsChecked (run_task plugin task) = task.play.check_mode ≡ true
IsChecked (become_as plugin) = Unit
IsChecked reset_connection = Unit

either_log :
    (b : Bool) (u v w : World)
    → u.log ≡ w.log
    → v.log ≡ w.log
    → (let r : World = if b then u else v in r.log) ≡ w.log
either_log true u v w e f = e
either_log false u v w e f = f

set_become_plugin_log :
    (plugin : Option String) (w : World) → (set_become_plugin plugin w).log ≡ w.log
unfolding set_become_plugin
set_become_plugin_log none w = refl
set_become_plugin_log (some name) w = either_log (name == "sudo") _ _ w refl refl

close_log : (w : World) → (close w).log ≡ w.log
unfolding close
close_log w = either_log w.has_socket _ _ w refl refl

module _ (env : Env) (site : Site) where
  abbrev Reads : World → Type 0
  Reads = Only (Sends reading fallbacks)

  lawful : IsLawful (site_link env site)
  lawful = connect-IsLawful env site.tools site.disk site.places site.settings

  Reads-run_plugin :
      (plugin : Plugin) (task : Task)
      → task.play.check_mode ≡ true
      → Keeps Reads (run_plugin env site plugin task)
  unfolding run_plugin
  Reads-run_plugin command_plugin task check =
      command_check_mode env (site_link env site) task reading fallbacks refl check
  Reads-run_plugin file_plugin task check =
      file-Looks env reading fallbacks refl refl (site_link env site) lawful task check
  Reads-run_plugin stat_plugin task check =
      stat-Looks env reading fallbacks refl refl (site_link env site) lawful task
  Reads-run_plugin systemd_plugin task check =
      systemd-Sends env reading fallbacks (site_link env site) lawful task refl check
  Reads-run_plugin apt_plugin task check =
      apt_check_mode env (site_link env site) lawful task reading fallbacks refl check
  Reads-run_plugin copy_plugin task check =
      copy-Looks env reading fallbacks refl refl refl (site_link env site) lawful task check

  Reads-become_as : (plugin : Option String) → Keeps Reads (modify (set_become_plugin plugin))
  unfolding modify
  Reads-become_as plugin = record {
    at = λ w h. subst (All (Sends reading fallbacks)) (sym (set_become_plugin_log plugin w)) h;
  }

  Reads-close : Keeps Reads (modify close)
  unfolding modify
  Reads-close = record { at = λ w h. subst (All (Sends reading fallbacks)) (sym (close_log w)) h }

  Reads-perform_act : (a : Act) → IsChecked a → Keeps Reads (perform_act env site a)
  unfolding perform_act reset
  Reads-perform_act (run_task plugin task) check =
      Keeps-bind _ _ (Keeps-attempt _ (Reads-run_plugin plugin task check)) (λ r. Keeps-pure tt)
  Reads-perform_act (become_as plugin) check = Reads-become_as plugin
  Reads-perform_act reset_connection check =
      Keeps-bind _ _
        (Keeps-attempt _ (
          Keeps-bind _ _ Reads-close
            (λ u. Sends-connect (site_link env site) lawful reading fallbacks)))
        (λ r. Keeps-pure tt)

  -- Whatever tasks of the six plugins a play runs in check mode over one connection, and in which
  -- order, with become plugins attached and the connection reset in between: the agent is sent
  -- nothing but handshakes, Stat and ReadFile requests, and no module is run but the builtin ones
  -- that the plugins fall back to.
  pub play_check_mode :
      (acts : List Act) → All IsChecked acts → Keeps Reads (perform_all env site acts)
  unfolding perform_all
  play_check_mode [] checked = Keeps-pure tt
  play_check_mode (a ∷ more) checked =
      Keeps-bind _ _ (Reads-perform_act a checked.0) (λ u. play_check_mode more checked.1)
