-- ===== src/Money/Trim.antt =====
-- `String.prototype.trim`.
use ticash_pay_demo.Prelude.Names.{
  ℕ, ◌≡◌, refl, Bool, true, ◌&&◌, ◌||◌, not, [], ◌∷◌, arith, eqb, leb, if◌then◌else◌,
}
use ticash_pay_demo.Prelude.Text.{Text}

-- JavaScript's white space and line ends.
unfoldable pub is_space : ℕ → Bool
is_space c =
    (leb 9 c && leb c 13)
    || eqb c 32
    || eqb c 160
    || eqb c 5760
    || (leb 8192 c && leb c 8202)
    || eqb c 8232
    || eqb c 8233
    || eqb c 8239
    || eqb c 8287
    || eqb c 12288
    || eqb c 65279

unfoldable pub trim_start : Text → Text
trim_start [] = []
trim_start (c ∷ cs) = let rest = trim_start cs in if is_space c then rest else c ∷ cs

abbrev pub cons_unless : Bool → ℕ → Text → Text
cons_unless true c [] = []
cons_unless _ c cs = c ∷ cs

unfoldable pub trim_end : Text → Text
trim_end [] = []
trim_end (c ∷ cs) = cons_unless (is_space c) c (trim_end cs)

unfoldable pub trim : Text → Text
unfolding trim_start trim_end
trim t = trim_end (trim_start t)

unfoldable pub no_space : Text → Bool
no_space [] = true
no_space (c ∷ cs) = not (is_space c) && no_space cs

trim_end-no_space : (t : Text) → no_space t ≡ true → trim_end t ≡ t
unfolding no_space trim_end
trim_end-no_space [] h = refl
trim_end-no_space (c ∷ cs) h = ground (arith, trim_end-no_space cs)

pub trim-no_space : (t : Text) → no_space t ≡ true → trim t ≡ t
unfolding no_space trim trim_start
trim-no_space [] h = refl
trim-no_space (c ∷ cs) h = ground (arith, trim_end-no_space (c ∷ cs) h)
