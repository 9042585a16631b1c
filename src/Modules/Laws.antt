-- ===== src/Modules/Laws.antt =====
-- What the commands of a module keep.
use ansible_go.Base.{◌≡◌, String, List, [], ◌∷◌, ◌++◌, All, contains, true, arith, eq_iff}
use ansible_go.Run.{Run}
use ansible_go.Run.Keeps.{Keeps, keeps_rules}
use ansible_go.Modules.{Call, Session, Host, Answer, run_command, checked}

module _ {P : Call → Type 0} (h : Host) where
  pub Keeps-run_command :
      (words : List String) (environ : List (String × String))
      → P (record { words = words; environ = environ })
      → Keeps (All P) (run_command h words environ)
  unfolding run_command
  Keeps-run_command words environ p = record { at = λ log held. (p, held) }

  pub Keeps-checked :
      (words : List String) (message : String) (rest : Run Session Answer)
      → P (record { words = words; environ = [] })
      → Keeps (All P) rest
      → Keeps (All P) (checked h words message rest)
  unfolding checked
  Keeps-checked words message rest p k = search (keeps_rules, Keeps-run_command) depth 8

-- A word at the end of a command is in it.
pub contains-last : (words : List String) (k : String) → contains (words ++ k ∷ []) k ≡ true
contains-last [] k = ground (arith, eq_iff k k)
contains-last (w ∷ words) k = ground (arith, contains-last words k)
