-- ===== src/Modules.antt =====
-- The modules that stand in for the builtin ones (plugins/modules/*.py), which run on the remote
-- host: what they meet of AnsibleModule, and how they end.
use ansible_go.Base.{String, Bool, Option, none, some, List, [], ◌∷◌, eqb, if◌then◌else◌}
use ansible_go.Value.{
  Value, nat, str, list, Values, nil, cons, Dict, empty, entry, get, iterate, or_value, texts,
}
use ansible_go.Run.{Result, Run, pure, ◌>>=◌}
use ansible_go.Env.{Completed}
pub mod Laws
pub mod Preflight
pub mod Apt
pub mod Dnf
pub mod Systemd
pub mod Routing

-- A call of `run_command`: the words of the command, and `environ_update`.
pub record Call : Type 0 where
  pub words : List String
  pub environ : List (String × String)

-- The commands that a module ran, newest first.
abbrev pub Session : Type 0
Session = List Call

-- What a module meets: `module.run_command`, where an error is a failure that it ends the module
-- with itself; os.path.isfile; and Python's `s.strip()` and `str(v)`.
pub record Host : Type 0 where
  pub command : Session → Result Completed
  pub is_file : String → Bool
  pub strip : String → String
  pub show : Value → String

-- The two ways in which a module ends, with the arguments of the call.
pub data Answer : Type 0 where
  -- `module.exit_json(…)`
  exited : Dict → Answer
  -- `module.fail_json(…)`
  failed : Dict → Answer

unfoldable pub run_command : Host → List String → List (String × String) → Run Session Completed
run_command h words environ log =
    let log' = record { words = words; environ = environ } ∷ log in (h.command log', log')

-- `rc=rc, stdout=stdout, stderr=stderr`, in front of other arguments
abbrev pub outcome : Completed → Dict → Dict
outcome done more =
    entry "rc" (nat done.returncode)
      (entry "stdout" (str done.stdout) (entry "stderr" (str done.stderr) more))

-- A command whose error ends the module with a message.
unfoldable pub checked : Host → List String → String → Run Session Answer → Run Session Answer
checked h words message rest = do
  done ← run_command h words []
  if eqb done.returncode 0
      then rest
      else pure (failed (entry "msg" (str message) (outcome done empty)))

-- The texts of a list: an argument of `type="list", elements="str"` holds nothing else.
abbrev texts_of : Values → List String
texts_of nil = []
texts_of (cons (str s) vs) = s ∷ texts_of vs
texts_of (cons v vs) = texts_of vs

abbrev listed : Option Values → List String
listed none = []
listed (some vs) = texts_of vs

-- `params.get("name") or []`
abbrev pub names_of : Dict → List String
names_of params = listed (iterate (or_value (get params "name") (list nil)))
