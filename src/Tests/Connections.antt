-- ===== src/Tests/Connections.antt =====
-- The connection, at a concrete host.
use ansible_go.Base.{inl, arith, Bool, List, ◌≡◌, true, refl, false, some, ◌==◌, ◌<>◌, [], ◌∷◌}
use ansible_go.Value.{null, get_or, str, entry}
use ansible_go.Run.{ok, pure, gets, attempt, handle, ◌>>=◌}
use ansible_go.Run.Keeps.{Keeps}
use ansible_go.Run.Ensures.{Ensures}
use ansible_go.World.Laws.{IsLawful}
use ansible_go.World.Become.{OnlyAs}
use ansible_go.Action.Command.Laws.{ExecsAs}
use ansible_go.Client
use ansible_go.Connection
use ansible_go.Connection.{Settings, Tools}
use ansible_go.Connection.Daemon.{Binaries}
use ansible_go.Connection.Connect
use ansible_go.Connection.Connect.Joins.{joined, connect-joins}
use ansible_go.Connection.Forward
use ansible_go.Connection.Forward.Laws.{wait_for-Appears}
use ansible_go.Env.{Event}
use ansible_go.Connection.Binary
use ansible_go.Connection.Binary.{Disk, Places}
use ansible_go.Connection.Binary.Laws.{connect-IsLawful}
use ansible_go.Connection.Binary.Download.{IsBinary, find_local_binary-IsBinary}
use ansible_go.Connection.Connect.Ready.{MetVersion, connect-MetVersion}
use ansible_go.Connection.Sockets.{local_socket-collides}
use ansible_go.Connection.Transfer
use ansible_go.Connection.Transfer.Laws.{Putting, exec_command-ExecsAs, put_file-Puts}
use ansible_go.Tests.Setting.{online, start, task, link, link-IsLawful}
use ansible_go.Value.{empty}

abbrev pub settings : Settings
settings = record {
  host = "web";
  user = "admin";
  port = 22;
  ssh_executable = "";
  scp_executable = "";
  ssh_args = "";
  private_key = "";
}

abbrev pub tools : Tools
tools = record {
  quote = λ s. "'" <> (s <> "'");
  strip = λ s. s;
  lines = λ s. s ∷ [];
  is_digits = λ s. s == "7";
  dirname = λ s. "/tmp";
  agent_path = λ arch. "/usr/lib/fastagent-" <> arch;
  verbose = false;
}

abbrev binaries : Binaries
binaries = record { find = λ arch. pure (some "/usr/lib/fastagent") }

-- A file system without a binary, and a download that is large enough.
abbrev pub disk : Disk
disk = record {
  file_there = λ log. false;
  dirs_made = λ log. ok tt;
  temp_made = λ log. ok "/home/admin/.ansible/fastagent/.x";
  temp_closed = λ log. ok tt;
  size = λ log. ok 2_000_000;
  mode_set = λ log. ok tt;
  replaced = λ log. ok tt;
}

abbrev pub places : Places
places = record {
  local_dir = "";
  download_url = λ arch. "https://example.org/" <> arch;
  home = "/home/admin";
  repo_root = "/src";
}

connect-IsLawful_example :
    IsLawful
      (Connect.connection online tools (Binary.local_binaries online tools disk places) settings)
connect-IsLawful_example = connect-IsLawful online tools disk places settings

find_local_binary-IsBinary_example :
    Ensures
      (λ w. Unit {0})
      (Binary.find_local_binary online tools disk places "amd64")
      (IsBinary online tools disk places "amd64")
find_local_binary-IsBinary_example = find_local_binary-IsBinary online tools disk places "amd64"

-- The search at that file system ends with the download.
find_local_binary_downloads :
    (Binary.find_local_binary online tools disk places "amd64" (start false)).0
    ≡ ok (some "/home/admin/.ansible/fastagent/fastagent-0.8.3-linux-amd64")
unfolding Binary.find_local_binary ◌>>=◌ Binary.first_file Connection.step pure
    Binary.download_binary attempt handle Binary.load Binary.fill
find_local_binary_downloads = refl

connect-MetVersion_example :
    MetVersion online (Connect.connect online tools binaries settings (start false)).1
unfolding Connect.connect Connection.try_local_socket Connection.probe Connection.path_there
    Connection.open_local Connection.step gets attempt handle pure ◌>>=◌ Client.hello Client.call
    get_or
connect-MetVersion_example =
    connect-MetVersion online tools binaries settings (start false) refl refl

exec_command-ExecsAs_example :
    Keeps (OnlyAs (ExecsAs (some "admin")) (task empty false (some "app")).play (some "app")) (
      Transfer.exec_command online link settings
        (task empty false (some "app")).play
        "id"
        null
        false)
exec_command-ExecsAs_example =
    exec_command-ExecsAs online link link-IsLawful settings (task empty false (some "app")).play
      (some "app") false "id" null

put_file-Puts_example :
    Keeps
      (Putting online link link-IsLawful settings "/files/a" "/tmp/a")
      (Transfer.put_file online link settings "/files/a" "/tmp/a")
put_file-Puts_example = put_file-Puts online link link-IsLawful settings "/files/a" "/tmp/a"

local_socket-collides_example :
    Connection.local_socket "web" true ≡ Connection.local_socket "web-root" false
local_socket-collides_example = local_socket-collides "web"

-- The socket appears at the second look.
abbrev late : List Event → Bool
late (a ∷ b ∷ c ∷ more) = true
late log = false

wait_for-Appears_example :
    (Forward.wait_for (record online { path_exists = late }) tools 10 "/tmp/s" (start false)).0
    ≡ ok tt
wait_for-Appears_example =
    wait_for-Appears (record online { path_exists = late }) tools 10 1 "/tmp/s" (start false)
      (omega arith) refl

connect-joins_example :
    Connect.connect online tools binaries settings (start false)
    ≡ (ok tt, joined (Connection.local_socket "web" false) (start false))
unfolding get_or
connect-joins_example =
    connect-joins online tools binaries settings (start false) (entry "version" (str "0.8.3") empty)
      refl refl refl (refl, refl, inl refl) refl
