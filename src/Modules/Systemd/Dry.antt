-- ===== src/Modules/Systemd/Dry.antt =====
-- What the systemd module reports in check mode of a task that asks for a state.
use ansible_go.Base.{◌≡◌, refl, String, Bool, true, false, Option, some, none, ◌==◌}
use ansible_go.Value.{Dict, get_or, get, is_none, truthy}
use ansible_go.Run.{Run, pure}
use ansible_go.Run.Ensures.{Ensures, Ensures-bind, Ensures-if, Ensures-pure, Ensures-nothing}
use ansible_go.Modules.{Session, Host, Answer}
use ansible_go.Modules.Systemd.{
  unless_check, reload, mask, perform_action, set_state, set_enabled, report, manage, main,
}
use ansible_go.Modules.Systemd.Says.{Says, Says-report}

abbrev Denies : Run Session Answer → Type 0
Denies m = Ensures (λ s. Unit {0}) m (Says false)

module _ (h : Host) (params : Dict) where
  Denies-reload :
      (argument command : String) (rest : Run Session Answer)
      → Denies rest
      → Denies (reload h true params argument command rest)
  unfolding reload unless_check
  Denies-reload argument command rest k =
      Ensures-if (truthy (get params argument)) rest rest (λ e. k) (λ e. k)

  module _ (name : String) (rest : Bool → Run Session Answer) (k : Denies (rest false)) where
    Denies-mask : is_none (get params "masked") ≡ true → Denies (mask h true params name rest)
    unfolding mask
    Denies-mask e = rw e k

    Denies-perform_action :
        (action : Option String) → Denies (perform_action h true params action name false rest)
    unfolding perform_action
    Denies-perform_action none = k
    Denies-perform_action (some action) = k

    Denies-set_state : (active : String) → Denies (set_state h true params active name false rest)
    unfolding set_state
    Denies-set_state active = Denies-perform_action _

    Denies-set_enabled :
        (current : Bool)
        → is_none (get params "enabled") ≡ true
        → Denies (set_enabled h true params current name false rest)
    unfolding set_enabled
    Denies-set_enabled current e = rw e k

  module _ (masked : is_none (get params "masked") ≡ true)
      (enabled : is_none (get params "enabled") ≡ true) where
    Denies-manage : (name : String) → Denies (manage h true params name)
    unfolding manage
    Denies-manage name = Ensures-bind _ _ (Ensures-nothing _) (λ active.
        Ensures-bind _ _ (Ensures-nothing _) (λ file_state.
          Denies-mask name _
            (Denies-set_state name _
              (Denies-set_enabled name
                (λ changed. pure (report h true params active file_state changed))
                (Ensures-pure _ (λ s p. Says-report params h true active file_state false s))
                (file_state == "enabled") enabled)
              active)
            masked))

    -- In check mode a task that asks for no mask and for no `enabled` is reported as one that
    -- changes nothing, whatever state it asks for and whatever the unit is in: also a stopped unit
    -- that is to be started.
    pub main-Says : Ensures (λ s. Unit {0}) (main h true params) (Says false)
    unfolding main get_or
    main-Says = Denies-reload "daemon_reload" "daemon-reload" _ (
        Denies-reload "daemon_reexec" "daemon-reexec" _ (
          Ensures-if (truthy (get params "name")) _ _ (λ e. Denies-manage _)
            (λ e. Ensures-pure _ (λ s p. refl))))
