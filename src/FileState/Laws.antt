-- ===== src/FileState/Laws.antt =====
-- Modes, and which tasks the fast path of the file module takes.
use ansible_go.Base.{
  sym, false≢true, Bool, Bool-cases, inl, inr, ◌⊎◌, not, ◌&&◌, ◌||◌, starts_with, if◌then◌else◌,
  ◌≡◌, refl, ap, ◌∙◌, ℕ, String, ◌<>◌, true, false, arith, codes,
}
use ansible_go.Value.{get_or, bool, pos, Value, null, int, str, Dict, get, is_none, eq_text, truthy}
use ansible_go.Env.{Env}
use ansible_go.Client
use ansible_go.Run.Ensures.{Ensures, Ensures-if, Ensures-pure, Ensures-bind, Ensures-nothing}
use ansible_go.Octal.{is_int8, octal, octal_value}
use ansible_go.Octal.Laws.{octal_value-octal, codes-append}
use ansible_go.FileState.{zero_prefixed, format_octal_mode, requires_builtin_file, infer_file_state}

-- A mode that is given as a number n is sent as a text that starts with a zero and whose octal
-- value is n.
pub format_octal_mode_int :
    (env : Env) (n : ℕ)
    → (s : String) × (format_octal_mode env (int (pos n)) ≡ str ("0" <> s))
      × (octal_value 0 (codes ("0" <> s)) ≡ n)
unfolding format_octal_mode
format_octal_mode_int env n =
    (octal n, refl, ap (octal_value 0) (codes-append "0" (octal n)) ∙ octal_value-octal n)

-- The mode that is sent for a mode of a task: None for none, the octal digits for a number, and a
-- text as it is or behind a zero.
abbrev pub IsModeOf : Value → Value → Type 0
IsModeOf null sent = is_none sent ≡ true
IsModeOf (int (pos n)) sent =
    (s : String) × (sent ≡ str ("0" <> s)) × (octal_value 0 (codes ("0" <> s)) ≡ n)
IsModeOf (str s) sent = (sent ≡ str s) ⊎ (sent ≡ str ("0" <> s))
IsModeOf _ sent = is_none sent ≡ false

prefixed : (s : String) → (str (zero_prefixed s) ≡ str s) ⊎ (str (zero_prefixed s) ≡ str ("0" <> s))
prefixed s = elim (Bool-cases (starts_with s "0")) [
  | inl e ↦ inl (rw e refl)
  | inr e ↦ inr (rw e refl)
]

sent_text :
    (b : Bool) (s : String)
    → (not (is_none (if b then str (zero_prefixed s) else null))) ≡ true
    → ((if b then str (zero_prefixed s) else null) ≡ str s)
      ⊎ ((if b then str (zero_prefixed s) else null) ≡ str ("0" <> s))
sent_text true s h = prefixed s
sent_text false s h = absurd (false≢true h)

-- A mode that is given and not refused is kept.
IsModeOf-format :
    (env : Env) (mode : Value)
    → (is_none (format_octal_mode env mode) && not (is_none mode)) ≡ false
    → IsModeOf mode (format_octal_mode env mode)
unfolding format_octal_mode
IsModeOf-format env null h = refl
IsModeOf-format env (int (pos n)) h = format_octal_mode_int env n
IsModeOf-format env (str s) h = sent_text (is_int8 (codes s)) s (ground arith)
IsModeOf-format env _ h = ground arith

linked : (a b : Bool) → not a ≡ false → b ≡ true → (a && b) ≡ false → ⊥
linked a b e f h = ground arith

-- The three tests that stand first are all false.
three_false :
    (a t l r : Bool)
    → (if a then true else if t then true else if l then true else r) ≡ false
    → (a ≡ false) × (t ≡ false) × (l ≡ false)
three_false true t l r h = absurd (false≢true (sym h))
three_false false true l r h = absurd (false≢true (sym h))
three_false false false true r h = absurd (false≢true (sym h))
three_false false false false r h = (refl, refl, refl)

four_true :
    (a b c d : Bool)
    → (not a || not b || not c || not d) ≡ false
    → (a ≡ true) × (b ≡ true) × (c ≡ true) × (d ≡ true)
four_true true true true true h = (refl, refl, refl, refl)
four_true false b c d h = absurd (false≢true (sym h))
four_true true false c d h = absurd (false≢true (sym h))
four_true true true false d h = absurd (false≢true (sym h))
four_true true true true false h = absurd (false≢true (sym h))

no_link : (a b c : Bool) → (a || b || c) ≡ false → (a ≡ false) × (b ≡ false) × (c ≡ false)
no_link false false false h = (refl, refl, refl)
no_link true b c h = absurd (false≢true (sym h))
no_link false true c h = absurd (false≢true (sym h))
no_link false false true h = absurd (false≢true (sym h))

-- The state that is inferred is no link.
abbrev pub IsNoLink : Value → Type 0
IsNoLink state = (eq_text state "link" ≡ false) × (eq_text state "hard" ≡ false)

IsNoLink-infer :
    (env : Env) (path state src : Value) (recurse follow : Bool)
    → IsNoLink state
    → (is_none state && truthy src) ≡ false
    → Ensures
        (λ ch. Unit {0})
        (infer_file_state env path state src recurse follow)
        (λ found ch. IsNoLink found)
unfolding infer_file_state
IsNoLink-infer env path state src recurse follow none_asked none_inferred =
    Ensures-if (not (is_none state)) _ _ (λ e. Ensures-pure state (λ ch t. none_asked))
      (λ e.
        Ensures-if (truthy src) _ _
          (λ f. absurd (linked (is_none state) (truthy src) e f none_inferred))
          (λ f.
            Ensures-if recurse _ _ (λ g. Ensures-pure _ (λ ch t. (refl, refl)))
              (λ g.
                Ensures-bind _ _ (Ensures-nothing (Client.stat env path follow false null))
                  (λ found.
                    Ensures-if
                      (truthy (get_or found "exists" (bool false))
                        && truthy (get_or found "isdir" (bool false)))
                      _ _ (λ x. Ensures-pure _ (λ ch t. (refl, refl)))
                      (λ x. Ensures-pure _ (λ ch t. (refl, refl)))))))

-- A task that the test of its arguments lets pass keeps its mode: none is sent for none, the octal
-- digits for a natural number, a text as it is or behind a zero, and some value for any other. The
-- state that is inferred for it is neither `link` nor `hard`, whatever the agent answers, and it
-- gives none of the four arguments for times.
pub fast_path_keeps_mode :
    (env : Env) (args : Dict) (path : Value) (recurse follow : Bool)
    → requires_builtin_file env args ≡ false
    → IsModeOf (get args "mode") (format_octal_mode env (get args "mode"))
      × Ensures
          (λ ch. Unit {0})
          (infer_file_state env path (get args "state") (get args "src") recurse follow)
          (λ found ch. IsNoLink found)
      × (is_none (get args "modification_time") ≡ true)
      × (is_none (get args "access_time") ≡ true)
      × (is_none (get args "modification_time_format") ≡ true)
      × (is_none (get args "access_time_format") ≡ true)
unfolding requires_builtin_file
fast_path_keeps_mode env args path recurse follow h =
    let tests = three_false _ _ _ _ h in
    let times = four_true _ _ _ _ tests.1 in
    let links = no_link _ _ _ tests.2 in
    (
      IsModeOf-format env (get args "mode") tests.0,
      IsNoLink-infer env path (get args "state") (get args "src") recurse follow (links.0, links.1)
          links.2,
      times.0,
      times.1,
      times.2,
      times.3,
    )
