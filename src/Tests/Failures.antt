-- ===== src/Tests/Failures.antt =====
-- Tasks whose requests may fail, at concrete tasks.
use ansible_go.Base.{refl, ◌≡◌, true, false, [], ◌∷◌}
use ansible_go.Value.{null, str, empty, Dict, get_or}
use ansible_go.Run.Returns.{Returns}
use ansible_go.World.Answered.{Accounts}
use ansible_go.Run.{ok}
use ansible_go.Action.File
use ansible_go.Action.File.{Wish}
use ansible_go.Action.File.Failures.{dispatch-Accounts}
use ansible_go.Action.File.Laws.{Reports, dispatch-Reports}
use ansible_go.Action.Copy.Data
use ansible_go.Action.Copy.Data.{Copy}
use ansible_go.Action.Copy.Failures.{transfer-Accounts}
use ansible_go.Tests.Setting.{online, start, copy_args}

abbrev wish : Wish
wish = record {
  path = str "/tmp/a";
  owner = null;
  group = null;
  mode = null;
  src = null;
  recurse = false;
  follow = true;
  check_mode = false;
}

abbrev bytes_copy : Copy
bytes_copy = record {
  bytes = 104 ∷ 105 ∷ [];
  checksum = "abc";
  args = copy_args;
  force = true;
  check_mode = false;
  diff = true;
}

dispatch-Accounts_example :
    let r = File.dispatch online empty wish (str "touch") (start false) in
    (d : Dict) × (r.0 ≡ ok d) × Reports online (str "/tmp/a") d × Accounts online d r.1
dispatch-Accounts_example = dispatch-Accounts online wish refl empty (str "touch") (start false) tt

dispatch-Reports_example :
    Returns (Reports online (str "/tmp/a")) (File.dispatch online empty wish (str "file"))
dispatch-Reports_example = dispatch-Reports online wish empty (str "file")

transfer-Accounts_example :
    let r = Data.transfer online bytes_copy empty (str "/tmp/a") (start false) in
    (d : Dict) × (r.0 ≡ ok d) × Accounts online d r.1
unfolding get_or
transfer-Accounts_example =
    transfer-Accounts online bytes_copy "" refl empty "/tmp/a" (start false) tt
