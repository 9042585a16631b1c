-- ===== src/Action/Copy/Shield.antt =====
-- The builtin copy action never reaches the modules that stand in for it.
use Prim.Native.String.append
use ansible_go.Base.{
  ◌≡◌, refl, sym, String, ◌<>◌, false, starts_with, codes, length, drop_text, suc, zero, ℕ, List,
  [], ◌∷◌, arith, ap, ◌∙◌, Bool-cases, inl, inr,
}
use ansible_go.Octal.Laws.{codes-append}
use text.Mathlib.TextEquality.{starts_with_iff}
use text.Mathlib.TextBridge.{IsPrefix}
use ansible_go.Value.{str}
use ansible_go.Action.Copy.{rewrite_module_name}

-- The code point at a place of a text, and 0 behind its end.
at_place : ℕ → List ℕ → ℕ
at_place i [] = 0
at_place zero (c ∷ s) = c
at_place (suc i) (c ∷ s) = at_place i s

drop_text-append : (s t : String) → drop_text (length (codes s)) (s <> t) ≡ t
drop_text-append String.[] t = append.nil t
drop_text-append (String.◌∷◌ c s) t =
    ap (drop_text (suc (length (codes s)))) (append.cons c s t) ∙ drop_text-append s t

shielded : (rest : String) → starts_with ("ansible.builtin." <> rest) "ansible.legacy." ≡ false
unfolding at_place
shielded rest = elim (Bool-cases (starts_with ("ansible.builtin." <> rest) "ansible.legacy.")) [
  | inl h ↦ absurd (clash ((starts_with_iff _ _).0 h))
  | inr h ↦ h
]
  where
    clash : IsPrefix "ansible.legacy." ("ansible.builtin." <> rest) → ⊥
    clash p =
        let e : codes ("ansible.builtin." <> rest) ≡ codes ("ansible.legacy." <> p.0) =
          sym (ap codes p.1) in
        let l : at_place 8 (codes ("ansible.builtin." <> rest)) ≡ 98 =
          ap (at_place 8) (codes-append "ansible.builtin." rest) in
        let r : at_place 8 (codes ("ansible.legacy." <> p.0)) ≡ 108 =
          ap (at_place 8) (codes-append "ansible.legacy." p.0) in
        let same : at_place 8 (codes ("ansible.builtin." <> rest))
            ≡ at_place 8 (codes ("ansible.legacy." <> p.0)) =
          ap (at_place 8) e in
        absurd (omega arith)

rewrite_once :
    (rest : String)
    → rewrite_module_name (str ("ansible.legacy." <> rest)) ≡ str ("ansible.builtin." <> rest)
unfolding rewrite_module_name
rewrite_once rest =
    rw ((starts_with_iff ("ansible.legacy." <> rest) "ansible.legacy.").1 (rest, refl))
      (ap (λ t. str ("ansible.builtin." <> t)) (drop_text-append "ansible.legacy." rest))

-- A call of a legacy module runs the builtin module of the same name, and a call of a builtin
-- module is left as it is, so that rewriting a name again changes nothing.
pub rewrite_legacy :
    (rest : String)
    → (rewrite_module_name (str ("ansible.legacy." <> rest)) ≡ str ("ansible.builtin." <> rest))
      × (rewrite_module_name (str ("ansible.builtin." <> rest)) ≡ str ("ansible.builtin." <> rest))
unfolding rewrite_module_name
rewrite_legacy rest = (rewrite_once rest, rw (shielded rest))
