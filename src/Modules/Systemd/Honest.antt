-- ===== src/Modules/Systemd/Honest.antt =====
-- What the systemd module runs where it reports no change.
use ansible_go.Base.{
  ◌≡◌, refl, String, Bool, true, false, Option, some, none, List, [], ◌∷◌, ◌++◌, All, ◌==◌, inl,
  inr, eqb,
}
use ansible_go.Value.{Dict, get, is_none, truthy}
use ansible_go.Run.{Run, pure}
use ansible_go.Run.Keeps.{Keeps, Keeps-bind, Keeps-pure}
use ansible_go.Run.Ensures.{
  Ensures, Ensures-bind, Ensures-if, Ensures-pure, Ensures-nothing, Ensures-keeps, Ensures-weaken,
}
use ansible_go.Modules.{Call, Session, Host, Answer, failed, run_command, checked}
use ansible_go.Modules.Laws.{Keeps-run_command}
use ansible_go.Modules.Systemd.{
  systemctl, unless_check, ask, reload, mask, perform_action, set_state, set_enabled, report,
  manage, main,
}
use ansible_go.Modules.Systemd.Says.{Says, IsQuiet, Honest, Honest-Says, Honest-quiet, Says-report}

-- A run whose answers are marked as a change, from every state.
abbrev Boasts : Run Session Answer → Type 0
Boasts m = Ensures (λ s. Unit {0}) m (Says true)

-- A run that is honest, where no other command was run before.
abbrev IsHonest : Dict → Run Session Answer → Type 0
IsHonest params m = Ensures (All (IsQuiet params)) m (Honest params)

Boasts-failed : (d : Dict) {P : Session → Type 0} → Ensures P (pure (failed d)) (Says true)
Boasts-failed d = Ensures-pure (failed d) (λ s p. tt)

Honest-failed :
    (params d : Dict) {P : Session → Type 0} → Ensures P (pure (failed d)) (Honest params)
Honest-failed params d = Ensures-pure (failed d) (λ s p. tt)

module _ (h : Host) (params : Dict) where
  Boasts-IsHonest : (m : Run Session Answer) → Boasts m → IsHonest params m
  Boasts-IsHonest m k = Ensures-weaken k (λ s p. tt) (Honest-Says params)

  Boasts-checked :
      (words : List String) (message : String) (rest : Run Session Answer)
      → Boasts rest
      → Boasts (checked h words message rest)
  unfolding checked
  Boasts-checked words message rest k =
      Ensures-bind _ _ (Ensures-nothing _)
        (λ done. Ensures-if (eqb done.returncode 0) rest _ (λ e. k) (λ e. Boasts-failed _))

  module _ (check : Bool) where
    Boasts-unless_check :
        (words : List String) (message : String) (rest : Run Session Answer)
        → Boasts rest
        → Boasts (unless_check h check params words message rest)
    unfolding unless_check
    Boasts-unless_check words message rest k =
        Ensures-if check rest _ (λ e. k) (λ e. Boasts-checked _ message rest k)

    -- A part that is told of a change hands it on; one that is not is honest.
    module _ (name : String) (rest : Bool → Run Session Answer) (kt : Boasts (rest true)) where
      Boasts-perform_action :
          (action : Option String) → Boasts (perform_action h check params action name true rest)
      unfolding perform_action
      Boasts-perform_action none = kt
      Boasts-perform_action (some action) =
          Ensures-if check (rest true) _ (λ e. kt) (λ e. Boasts-checked _ _ (rest true) kt)

      Boasts-set_enabled :
          (current : Bool) → Boasts (set_enabled h check params current name true rest)
      unfolding set_enabled
      Boasts-set_enabled current = search (Ensures-if, Boasts-unless_check, kt)

      module _ (kf : IsHonest params (rest false)) where
        honest : (m : Run Session Answer) → Boasts m → IsHonest params m
        honest m k = Boasts-IsHonest m k

        Honest-unless_check :
            (words : List String) (message : String)
            → IsHonest params (unless_check h check params words message (rest true))
        Honest-unless_check words message =
            honest _ (Boasts-unless_check words message (rest true) kt)

        Honest-perform_action :
            (action : Option String)
            → IsHonest params (perform_action h check params action name false rest)
        unfolding perform_action
        Honest-perform_action none = kf
        Honest-perform_action (some action) =
            Ensures-if check (rest false) _ (λ e. kf)
              (λ e. honest _ (Boasts-checked _ _ (rest true) kt))

        Honest-set_enabled :
            (current : Bool) → IsHonest params (set_enabled h check params current name false rest)
        unfolding set_enabled
        Honest-set_enabled current = search (Ensures-if, Honest-unless_check, kf)

        Honest-set_state :
            (active : String) → IsHonest params (set_state h check params active name false rest)
        unfolding set_state
        Honest-set_state active = Honest-perform_action _

      Boasts-set_state : (active : String) → Boasts (set_state h check params active name true rest)
      unfolding set_state
      Boasts-set_state active = Boasts-perform_action _

    Quiet-ask :
        (question name : String)
        → ((call : Call)
            → call.words ≡ systemctl params ++ (question ∷ name ∷ [])
            → IsQuiet params call)
        → Keeps (All (IsQuiet params)) (ask h check params question name)
    unfolding ask
    Quiet-ask question name quiet =
        Keeps-bind _ _ (Keeps-run_command h _ [] (quiet (record { words = _; environ = [] }) refl))
          (λ done. Keeps-pure _)

    Quiet-enabled :
        (name : String) → Keeps (All (IsQuiet params)) (ask h check params "is-enabled" name)
    Quiet-enabled name = Quiet-ask "is-enabled" name (λ call e. inl (name, inr e))

    Quiet-active :
        (name : String) → Keeps (All (IsQuiet params)) (ask h check params "is-active" name)
    Quiet-active name = Quiet-ask "is-active" name (λ call e. inl (name, inl e))

    Honest-mask :
        (name : String) (rest : Bool → Run Session Answer)
        → Boasts (rest true)
        → IsHonest params (rest false)
        → IsHonest params (mask h check params name rest)
    unfolding mask
    Honest-mask name rest kt kf =
        Ensures-if (is_none (get params "masked")) (rest false) _ (λ e. kf)
          (λ e.
            Ensures-bind _ _ (Ensures-keeps (Quiet-enabled name))
              (λ shown. search (Ensures-if, Honest-unless_check name rest kt kf, kf)))

    -- The last part, with the report behind it.
    module _ (active file_state name : String) where
      Boasts-report : Boasts (pure (report h check params active file_state true))
      Boasts-report = Ensures-pure _ (λ s p. Says-report params h check active file_state true s)

      Honest-report : IsHonest params (pure (report h check params active file_state false))
      Honest-report = Ensures-pure _ (λ s q. Honest-quiet params _ s q)

      Boasts-end : Boasts (
          set_enabled h check params
            (file_state == "enabled")
            name
            true
            (λ changed. pure (report h check params active file_state changed)))
      Boasts-end = Boasts-set_enabled name _ Boasts-report _

      Honest-end : IsHonest params (
          set_enabled h check params
            (file_state == "enabled")
            name
            false
            (λ changed. pure (report h check params active file_state changed)))
      Honest-end = Honest-set_enabled name _ Boasts-report Honest-report _

    Honest-manage : (name : String) → IsHonest params (manage h check params name)
    unfolding manage
    Honest-manage name = Ensures-bind _ _ (Ensures-keeps (Quiet-active name)) (λ active.
        Ensures-bind _ _ (Ensures-keeps (Quiet-enabled name)) (λ file_state.
          Honest-mask name _ (Boasts-set_state name _ (Boasts-end active file_state name) active) (
            Honest-set_state name _ (Boasts-end active file_state name)
              (Honest-end active file_state name) active)))

    module _ (rest : Run Session Answer) (k : IsHonest params rest) where
      Honest-checked :
          (words : List String) (message : String)
          → Keeps (All (IsQuiet params)) (run_command h words [])
          → IsHonest params (checked h words message rest)
      unfolding checked
      Honest-checked words message ran =
          Ensures-bind _ _ (Ensures-keeps ran) (λ done.
            Ensures-if (eqb done.returncode 0) rest _ (λ g. k) (λ g. Honest-failed params _))

      Honest-unless_quiet :
          (words : List String) (message : String)
          → Keeps (All (IsQuiet params)) (run_command h (systemctl params ++ words) [])
          → IsHonest params (unless_check h check params words message rest)
      unfolding unless_check
      Honest-unless_quiet words message ran =
          Ensures-if check rest _ (λ f. k) (λ f. Honest-checked _ message ran)

      Honest-reload :
          (argument command : String)
          → ((call : Call) → call.words ≡ systemctl params ++ (command ∷ []) → IsQuiet params call)
          → IsHonest params (reload h check params argument command rest)
      unfolding reload
      Honest-reload argument command quiet =
          Ensures-if (truthy (get params argument)) _ rest
            (λ e.
              Honest-unless_quiet _ _
                (Keeps-run_command h _ [] (quiet (record { words = _; environ = [] }) refl)))
            (λ e. k)

    -- Where the systemd module ends with `changed` false, it ran no command but its two questions
    -- and the two that make systemd read its units again; where it ran another, it ends with
    -- `changed` true, or as failed.
    pub main-IsHonest : Ensures (All (IsQuiet params)) (main h check params) (Honest params)
    unfolding main
    main-IsHonest =
        Honest-reload _
          (Honest-reload _
            (Ensures-if (truthy (get params "name")) _ _ (λ e. Honest-manage _)
              (λ e. Ensures-pure _ (λ s q. inr q)))
            "daemon_reexec" "daemon-reexec" (λ call e. inr (inr e)))
          "daemon_reload" "daemon-reload" (λ call e. inr (inl e))
