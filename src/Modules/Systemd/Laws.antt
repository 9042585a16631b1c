-- ===== src/Modules/Systemd/Laws.antt =====
-- What the systemd module runs, and what it says of it.
use ansible_go.Base.{
  ◌≡◌, refl, String, Bool, true, Option, some, none, List, [], ◌∷◌, ◌++◌, All, ◌⊎◌, inl, inr,
}
use ansible_go.Value.{Dict}
use ansible_go.Run.{Run}
use ansible_go.Run.Keeps.{Keeps, Keeps-bind, Keeps-if, Keeps-pure, keeps_rules}
use ansible_go.Modules.{Call, Session, Host, Answer}
use ansible_go.Modules.Laws.{Keeps-run_command}
use ansible_go.Modules.Systemd.{
  systemctl, unless_check, ask, reload, mask, perform_action, set_state, set_enabled, manage, main,
}

-- The command asks systemctl for the state of a unit, and changes nothing.
abbrev pub IsQuestion : Dict → Call → Type 0
IsQuestion params call =
    (name : String) × ((call.words ≡ systemctl params ++ ("is-active" ∷ name ∷ []))
      ⊎ (call.words ≡ systemctl params ++ ("is-enabled" ∷ name ∷ [])))

module _ (h : Host) (params : Dict) where
  abbrev Asks : Session → Type 0
  Asks = All (IsQuestion params)

  Asks-active : (name : String) → Keeps Asks (ask h true params "is-active" name)
  unfolding ask
  Asks-active name =
      Keeps-bind _ _ (Keeps-run_command h _ [] (name, inl refl)) (λ done. Keeps-pure _)

  Asks-enabled : (name : String) → Keeps Asks (ask h true params "is-enabled" name)
  unfolding ask
  Asks-enabled name =
      Keeps-bind _ _ (Keeps-run_command h _ [] (name, inr refl)) (λ done. Keeps-pure _)

  module _ {rest : Run Session Answer} (k : Keeps Asks rest) where
    Asks-unless_check :
        (words : List String) (message : String)
        → Keeps Asks (unless_check h true params words message rest)
    unfolding unless_check
    Asks-unless_check words message = k

    Asks-reload :
        (argument command : String) → Keeps Asks (reload h true params argument command rest)
    unfolding reload
    Asks-reload argument command = Keeps-if _ _ _ (Asks-unless_check _ _) k

  module _ (name : String) {rest : Bool → Run Session Answer}
      (k : (b : Bool) → Keeps Asks (rest b)) where
    Asks-mask : Keeps Asks (mask h true params name rest)
    unfolding mask
    Asks-mask = search (keeps_rules, k, Asks-enabled, Asks-unless_check) depth 12

    Asks-perform_action :
        (action : Option String) (changed : Bool)
        → Keeps Asks (perform_action h true params action name changed rest)
    unfolding perform_action
    Asks-perform_action none changed = k changed
    Asks-perform_action (some action) changed = k changed

    Asks-set_state :
        (active : String) (changed : Bool)
        → Keeps Asks (set_state h true params active name changed rest)
    unfolding set_state
    Asks-set_state active changed = Asks-perform_action _ changed

    Asks-set_enabled :
        (current changed : Bool) → Keeps Asks (set_enabled h true params current name changed rest)
    unfolding set_enabled
    Asks-set_enabled current changed = search (keeps_rules, k, Asks-unless_check) depth 8

  Asks-manage : (name : String) → Keeps Asks (manage h true params name)
  unfolding manage
  Asks-manage name = Keeps-bind _ _ (Asks-active name) (λ active.
      Keeps-bind _ _ (Asks-enabled name) (λ file_state. Asks-mask name (λ masked.
        Asks-set_state name (λ acted. Asks-set_enabled name (λ changed. Keeps-pure _) _ acted)
          active masked)))

  -- In check mode the systemd module runs nothing but the two questions `is-active` and
  -- `is-enabled`.
  pub main-Asks : Keeps (All (IsQuestion params)) (main h true params)
  unfolding main
  main-Asks =
      Asks-reload
        (Asks-reload (Keeps-if _ _ _ (Asks-manage _) (Keeps-pure _)) "daemon_reexec"
          "daemon-reexec")
        "daemon_reload" "daemon-reload"
