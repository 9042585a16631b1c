-- ===== src/Octal/Laws.antt =====
-- Octal numerals stand for the number that they were printed from.
use ansible_go.Base.{
  ℕ, zero, suc, ◌+◌, ◌-◌, ◌*◌, ◌/◌, ◌%◌, ◌<◌, ◌≡◌, refl, ap, ◌∙◌, String, ◌<>◌, List, [], ◌∷◌, ◌++◌,
  arith, codes, Bool-cases, inl, inr, ltb,
}
use Prim.Native.String.append
use Prim.Native.Char.{code}
use ansible_go.Octal.{digit, octal_from, octal, octal_value}

octal_value-append :
    (acc : ℕ) (s t : List ℕ) → octal_value acc (s ++ t) ≡ octal_value (octal_value acc s) t
octal_value-append acc [] t = refl
octal_value-append acc (c ∷ s) t = octal_value-append (acc * 8 + (c - b'0')) s t

pub codes-append : (s t : String) → codes (s <> t) ≡ codes s ++ codes t
codes-append String.[] t = ap codes (append.nil t)
codes-append (String.◌∷◌ c s) t =
    ap codes (append.cons c s t) ∙ ap (λ v. code c ∷ v) (codes-append s t)

codes-digit : (n : ℕ) → n < 8 → codes (digit n) ≡ (48 + n) ∷ []
codes-digit zero h = refl
codes-digit (suc zero) h = refl
codes-digit (suc (suc zero)) h = refl
codes-digit (suc (suc (suc zero))) h = refl
codes-digit (suc (suc (suc (suc zero)))) h = refl
codes-digit (suc (suc (suc (suc (suc zero))))) h = refl
codes-digit (suc (suc (suc (suc (suc (suc zero)))))) h = refl
codes-digit (suc (suc (suc (suc (suc (suc (suc zero))))))) h = refl
codes-digit (suc (suc (suc (suc (suc (suc (suc (suc n)))))))) h = absurd (omega arith)

octal_value-digit : (acc n : ℕ) → n < 8 → octal_value acc (codes (digit n)) ≡ acc * 8 + n
octal_value-digit acc n h = rw (codes-digit n h) (omega arith)

octal_value-octal_from : (fuel n : ℕ) → n < fuel → octal_value 0 (codes (octal_from fuel n)) ≡ n
unfolding octal_from
octal_value-octal_from zero n h = absurd (omega arith)
octal_value-octal_from (suc fuel) n h = elim (Bool-cases (ltb n 8)) [
  | inl small ↦ rw (small, octal_value-digit 0 n (ground arith)) (omega arith)
  | inr large ↦
      rw
        (
          large,
          codes-append (octal_from fuel (n / 8)) (digit (n % 8)),
          octal_value-append 0 (codes (octal_from fuel (n / 8))) (codes (digit (n % 8))),
          octal_value-octal_from fuel (n / 8) (ground arith),
          octal_value-digit (n / 8) (n % 8) (omega arith),
        )
        (omega arith)
]

-- The octal text of n stands for n.
pub octal_value-octal : (n : ℕ) → octal_value 0 (codes (octal n)) ≡ n
unfolding octal
octal_value-octal n = octal_value-octal_from (suc n) n (omega arith)
