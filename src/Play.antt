-- ===== src/Play.antt =====
-- What happens to one connection in the course of a play: the action plugins of plugins/action run
-- over the connection of plugins/connection/fastagent.py, in any order, and Ansible attaches a
-- become plugin and resets the connection in between.
use ansible_go.Base.{String, Option, List, [], ◌∷◌}
use ansible_go.Value.{Dict}
use ansible_go.Run.{Run, pure, modify, attempt, ◌>>=◌, ◌>>◌}
use ansible_go.Env.{Env}
use ansible_go.World.{Task, World, Link, set_become_plugin}
use ansible_go.Connection.{Settings, Tools}
use ansible_go.Connection.Connect.{connection, reset}
use ansible_go.Connection.Binary.{Disk, Places, local_binaries}
use ansible_go.Action.Command
use ansible_go.Action.File
use ansible_go.Action.Stat
use ansible_go.Action.Systemd
use ansible_go.Action.Apt
use ansible_go.Action.Copy
pub mod Laws

-- The action plugins.
pub data Plugin : Type 0 where
  command_plugin file_plugin stat_plugin systemd_plugin apt_plugin copy_plugin : Plugin

-- What Ansible does: it runs a task, gives the connection a become plugin or none, or resets it.
pub data Act : Type 0 where
  run_task : Plugin → Task → Act
  become_as : Option String → Act
  reset_connection : Act

-- The files and options of one host.
pub record Site : Type 0 where
  pub tools : Tools
  pub disk : Disk
  pub places : Places
  pub settings : Settings

module _ (env : Env) (site : Site) where
  -- The connection with its own search for a binary.
  abbrev pub site_link : Link
  site_link =
      connection env site.tools (local_binaries env site.tools site.disk site.places) site.settings

  unfoldable pub run_plugin : Plugin → Task → Run World Dict
  run_plugin command_plugin task = Command.run env site_link task
  run_plugin file_plugin task = File.run env site_link task
  run_plugin stat_plugin task = Stat.run env site_link task
  run_plugin systemd_plugin task = Systemd.run env site_link task
  run_plugin apt_plugin task = Apt.run env site_link task
  run_plugin copy_plugin task = Copy.run env site_link task

  -- One act; an exception is Ansible's to report.
  unfoldable pub perform_act : Act → Run World (Unit {0})
  unfolding run_plugin
  perform_act (run_task plugin task) = do attempt (run_plugin plugin task); pure tt
  perform_act (become_as plugin) = modify (set_become_plugin plugin)
  perform_act reset_connection = do
    attempt
        (reset env site.tools (local_binaries env site.tools site.disk site.places) site.settings)
    pure tt

  unfoldable pub perform_all : List Act → Run World (Unit {0})
  unfolding perform_act
  perform_all [] = pure tt
  perform_all (a ∷ more) = do perform_act a; perform_all more
