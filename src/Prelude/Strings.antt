-- ===== src/Prelude/Strings.antt =====
-- Text as the list of its code points, and the ASCII case maps of Rust's `str`.
use native.Mathlib.Decide.{ℕ_discrete}
use Prim.Native.Nat.{ℕ, ◌+◌, ◌-◌}
use Prim.Native.Char.{code}
use Prim.Native.String.{String}
use mathlib.Core.Bool.{Bool, true, false, ◌&&◌}
use mathlib.Core.Path.{◌≡◌, refl}
use mathlib.Core.List.{List, [], ◌∷◌, map}
use native.Mathlib.Omega.{arith}
use plexy.Prelude.Tests.{leb, ◌==◌, if◌then◌else◌}

abbrev pub Text : Type 0
Text = List ℕ

-- `String` has its own `[]` and `∷`.
abbrev pub codes : String → Text
codes String.[] = []
codes (String.◌∷◌ c s) = code c ∷ codes s

unfoldable pub text_eq : Text → Text → Bool
text_eq [] [] = true
text_eq (a ∷ s) (b ∷ t) = a == b && text_eq s t
text_eq _ _ = false

unfoldable pub to_lower : ℕ → ℕ
to_lower c = if leb b'A' c && leb c b'Z' then c + 32 else c

unfoldable pub to_upper : ℕ → ℕ
to_upper c = if leb b'a' c && leb c b'z' then c - 32 else c

unfoldable pub to_ascii_lowercase : Text → Text
to_ascii_lowercase = map to_lower

unfoldable pub to_ascii_uppercase : Text → Text
to_ascii_uppercase = map to_upper

pub text_eq_refl : (s : Text) → text_eq s s ≡ true
unfolding text_eq
text_eq_refl [] = refl
text_eq_refl (c ∷ s) = ground (arith, text_eq_refl s)

pub text_eq-eq : (s t : Text) → text_eq s t ≡ true → s ≡ t
unfolding text_eq
text_eq-eq [] [] h = refl
text_eq-eq [] (b ∷ t) h = cc
text_eq-eq (a ∷ s) [] h = cc
text_eq-eq (a ∷ s) (b ∷ t) h = ground (arith, text_eq-eq s t)

-- Equality of texts is decided character by character.
unfoldable pub text_discrete : (s t : Text) → Dec (s ≡ t)
text_discrete [] [] = yes refl
text_discrete [] (b ∷ t) = no λ e. cc
text_discrete (a ∷ s) [] = no λ e. cc
text_discrete (a ∷ s) (b ∷ t) =
    let rest = text_discrete s t in
    elim (ℕ_discrete a b) [
      | yes p ↦ elim rest [ yes q ↦ yes cc | no q ↦ no λ e. q cc ]
      | no p ↦ no λ e. p cc
    ]
