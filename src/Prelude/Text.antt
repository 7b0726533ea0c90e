-- ===== src/Prelude/Text.antt =====
-- JavaScript strings as lists of code units, with the strict equality of `===`.
use Prim.Native.Char.{code}
use Prim.Native.String.{String}
use ticash_pay_demo.Prelude.Names.{
  ℕ, ◌≡◌, refl, ◌↔◌, Bool, true, false, ◌&&◌, List, [], ◌∷◌, arith, eqb, Eq,
}

abbrev pub Text : Type 0
Text = List ℕ

-- A text literal.
abbrev pub codes : String → Text
codes String.[] = []
codes (String.◌∷◌ c s) = code c ∷ codes s

unfoldable pub eq_text : Text → Text → Bool
eq_text [] [] = true
eq_text [] (_ ∷ _) = false
eq_text (_ ∷ _) [] = false
eq_text (x ∷ xs) (y ∷ ys) = eqb x y && eq_text xs ys

pub eq_text_iff : (s t : Text) → (eq_text s t ≡ true) ↔ (s ≡ t)
unfolding eq_text
eq_text_iff [] [] = (λ _. refl, λ _. refl)
eq_text_iff [] (y ∷ ys) = (λ h. cc, λ h. cc)
eq_text_iff (x ∷ xs) [] = (λ h. cc, λ h. cc)
eq_text_iff (x ∷ xs) (y ∷ ys) =
    (λ h. ground (arith, eq_text_iff xs ys), λ h. ground (arith, eq_text_iff xs ys))

pub eq_text_comm : (s t : Text) → eq_text s t ≡ eq_text t s
eq_text_comm s t = ground (arith, eq_text_iff s t, eq_text_iff t s)

instance abbrev pub text_eq : Eq Text
text_eq = record { beq = eq_text; beq_iff = eq_text_iff }
