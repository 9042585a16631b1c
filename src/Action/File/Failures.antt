-- ===== src/Action/File/Failures.antt =====
-- A file task whose requests fail.
use ansible_go.Base.{String, if◌then◌else◌, ◌≡◌, false, ◌||◌, not}
use ansible_go.Value.{Value, Dict, eq_text, truthy, get, get_or, bool}
use ansible_go.Run.{Run, ok, pure, attempt, handle, ◌>>=◌}
use ansible_go.Params.{FileArgs}
use ansible_go.Client
use ansible_go.Run.Ensures.{Ensures, Ensures-if}
use ansible_go.Env.{Env}
use ansible_go.Failure.{failed_with, IsFailed-failed}
use ansible_go.World.{World, on_client}
use ansible_go.World.Answered.{
  IsAnswered, Accounts, Answered, Answered-on_client, Accounts-try, Accounts-pure, Accounts-failed,
  Accounts-total, Pays-stat, Pays-file,
}
use ansible_go.Action.File.{Wish, absent, directory, touch, link, attributes, regular, dispatch}
use ansible_go.Action.File.Laws.{Reports, dispatch-Reports}

module _ (env : Env) (w : Wish) (real : w.check_mode ≡ false) (result : Dict) where
  abbrev Good : Run World Dict → Type 0
  Good m = Ensures (Answered env) m (Accounts env)

  -- The branch outside check mode.
  unchecked : (m n : Run World Dict) → Good n → Good (if w.check_mode then m else n)
  unchecked m n k = rw real k

  -- One File request, with what becomes of its answer.
  sent :
      (m : Run World Dict) (a : FileArgs) (prefix : String) (f : Dict → Dict)
      → Good (
          if w.check_mode then m else (do
            answer ← attempt (on_client (Client.file env a))
            handle answer (λ e. pure (failed_with env result prefix e)) (λ reply. pure (f reply))))
  sent m a prefix f = unchecked _ _ (
      Accounts-try env _ _ _ (Answered-on_client env _ (Pays-file env a))
        (λ e. IsFailed-failed result _) (λ r. Accounts-pure env _))

  Accounts-absent : Good (absent env result w)
  unfolding absent
  Accounts-absent = sent _ _ _ _

  Accounts-directory : Good (directory env result w)
  unfolding directory
  Accounts-directory = sent _ _ _ _

  Accounts-touch : Good (touch env result w)
  unfolding touch
  Accounts-touch = sent _ _ _ _

  Accounts-link : (state : Value) → Good (link env result state w)
  unfolding link
  Accounts-link state =
      Ensures-if (not (truthy w.src)) _ _ (λ e. Accounts-failed env result _) (λ e. sent _ _ _ _)

  Accounts-attributes : Good (attributes env result w)
  unfolding attributes
  Accounts-attributes =
      Accounts-try env _ _ _ (Answered-on_client env _ (Pays-file env _))
        (λ e. IsFailed-failed result _)
        (λ r.
          Accounts-try env _ _ _ (Answered-on_client env _ (Pays-stat env _ _ _ _))
            (λ e. IsFailed-failed _ _) (λ found. Accounts-pure env _))

  Accounts-regular : Good (regular env result w)
  unfolding regular
  Accounts-regular =
      Accounts-try env _ _ _ (Answered-on_client env _ (Pays-stat env _ _ _ _))
        (λ e. IsFailed-failed result _)
        (λ found.
          Ensures-if (not (truthy (get found "exists"))) _ _ (λ e. Accounts-pure env _)
            (λ e.
              Ensures-if (truthy (get_or found "isdir" (bool false))) _ _
                (λ f. Accounts-failed env result _) (λ f. unchecked _ _ Accounts-attributes)))

  Accounts-dispatch : (state : Value) → Good (dispatch env result w state)
  unfolding dispatch
  Accounts-dispatch state =
      Ensures-if (eq_text state "absent") _ _ (λ e. Accounts-absent)
        (λ e.
          Ensures-if (eq_text state "directory") _ _ (λ e. Accounts-directory)
            (λ e.
              Ensures-if (eq_text state "touch") _ _ (λ e. Accounts-touch)
                (λ e.
                  Ensures-if (eq_text state "link" || eq_text state "hard") _ _
                    (λ e. Accounts-link state) (λ e. Accounts-regular))))

  -- Outside check mode, behind the connect and the inference of the state, the work on a file task
  -- returns a result, whatever the agent answers and whatever state is asked for. The result is
  -- marked as failed, or each of its requests had an answer without an error, where each request
  -- before had one.
  pub dispatch-Accounts :
      (state : Value) (before : World)
      → IsAnswered env before.log
      → (d : Dict) × ((dispatch env result w state before).0 ≡ ok d)
        × Reports env w.path d
        × Accounts env d (dispatch env result w state before).1
  dispatch-Accounts state before p =
      Accounts-total env _ _ (dispatch-Reports env w result state) (Accounts-dispatch state) before
        p
