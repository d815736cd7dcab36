-- ===== src/Prelude/Decimal.antt =====
-- Decimal numbers as Rust's standard library prints and reads them.
use Prim.Native.Nat.{ℕ, zero, suc, ◌+◌, ◌-◌, ◌*◌, ◌/◌, ◌%◌, ◌<◌}
use mathlib.Core.Bool.{Bool, true, ◌&&◌}
use mathlib.Core.List.{[], ◌∷◌, ◌++◌}
use mathlib.Core.Option.{Option, none, some}
use mathlib.Core.Path.{◌≡◌, refl}
use native.Mathlib.Omega.{arith}
use mathlib.Core.Logic.{inl, inr}
use plexy.Prelude.Tests.{ltb, leb, ◌==◌, if◌then◌else◌, Bool-cases}
use plexy.Prelude.Strings.{Text}

abbrev pub is_digit : ℕ → Bool
is_digit c = leb b'0' c && leb c b'9'

-- The number that digits spell after `n`.
abbrev pub value : ℕ → Text → ℕ
value n [] = n
value n (c ∷ s) = value (n * 10 + (c - b'0')) s

-- The digits of a number, at most so many.
unfoldable pub digits : ℕ → ℕ → Text
digits zero n = []
digits (suc fuel) n =
    let more = digits fuel (n / 10) ++ (b'0' + n % 10) ∷ [] in
    if ltb n 10 then (b'0' + n) ∷ [] else more

-- `{}` of an unsigned number
unfoldable pub decimal : ℕ → Text
unfolding digits
decimal n = digits (suc n) n

abbrev pub all_digits : Text → Bool
all_digits [] = true
all_digits (c ∷ s) = is_digit c && all_digits s

unfoldable pub read_digits : ℕ → Text → Option ℕ
read_digits bound [] = none
read_digits bound (c ∷ s) =
    if all_digits (c ∷ s) && ltb (value 0 (c ∷ s)) bound then some (value 0 (c ∷ s)) else none

-- `parse` of an unsigned integer below the bound: digits, with `+` before them or not
unfoldable pub parse_unsigned : ℕ → Text → Option ℕ
unfolding read_digits
parse_unsigned bound [] = none
parse_unsigned bound (c ∷ s) = if c == b'+' then read_digits bound s else read_digits bound (c ∷ s)

-- A test holds of every character.
abbrev pub AllOf : (ℕ → Bool) → Text → Type 0
AllOf p [] = Unit
AllOf p (c ∷ s) = (p c ≡ true) × AllOf p s

pub AllOf-append : (p : ℕ → Bool) (s t : Text) → AllOf p s → AllOf p t → AllOf p (s ++ t)
AllOf-append p [] t h k = k
AllOf-append p (c ∷ s) t (x, h) k = (x, AllOf-append p s t h k)

pub value-append : (n : ℕ) (s : Text) (c : ℕ) → value n (s ++ c ∷ []) ≡ value n s * 10 + (c - b'0')
value-append n [] c = refl
value-append n (d ∷ s) c = value-append (n * 10 + (d - b'0')) s c

value-digits : (fuel n : ℕ) → n < fuel → value 0 (digits fuel n) ≡ n
unfolding digits
value-digits zero n h = absurd (omega arith)
value-digits (suc fuel) n h =
    ground
      (arith, value-append 0 (digits fuel (n / 10)) (b'0' + n % 10), value-digits fuel (n / 10))

pub value-decimal : (n : ℕ) → value 0 (decimal n) ≡ n
unfolding decimal
value-decimal n = value-digits (suc n) n (omega arith)

digits-AllOf : (fuel n : ℕ) → AllOf is_digit (digits fuel n)
unfolding digits
digits-AllOf zero n = tt
digits-AllOf (suc fuel) n = ground (
  arith,
  AllOf-append is_digit (digits fuel (n / 10)) ((b'0' + n % 10) ∷ []),
  digits-AllOf fuel (n / 10),
)

pub decimal-AllOf : (n : ℕ) → AllOf is_digit (decimal n)
unfolding decimal
decimal-AllOf n = digits-AllOf (suc n) n

append_cons : (s t : Text) (c : ℕ) → (d : ℕ) × (u : Text) × (s ++ c ∷ t ≡ d ∷ u)
append_cons [] t c = (c, t, refl)
append_cons (d ∷ s) t c = (d, s ++ c ∷ t, refl)

-- A printed number has a first digit.
pub decimal_cons : (n : ℕ) → (c : ℕ) × (s : Text) × (decimal n ≡ c ∷ s)
unfolding decimal digits
decimal_cons n = elim (Bool-cases (ltb n 10)) [
  | inl e ↦ (b'0' + n, [], rw e)
  | inr e ↦ let (d, u, q) = append_cons (digits n (n / 10)) [] (b'0' + n % 10) in (d, u, rw e q)
]

pub all_digits-AllOf : (s : Text) → AllOf is_digit s → all_digits s ≡ true
all_digits-AllOf [] h = refl
all_digits-AllOf (c ∷ s) (x, h) = ground (arith, all_digits-AllOf s h)

read_digits-AllOf :
    (bound n : ℕ) (s t : Text) (c : ℕ)
    → s ≡ c ∷ t
    → AllOf is_digit s
    → value 0 s ≡ n
    → n < bound
    → parse_unsigned bound s ≡ some n
unfolding parse_unsigned
read_digits-AllOf bound n [] t c e h v k = cc
read_digits-AllOf bound n (d ∷ s) t c e (x, h) v k = ground (arith, all_digits-AllOf s h)

-- A printed number below the bound is read back.
pub parse_unsigned-decimal : (bound n : ℕ) → n < bound → parse_unsigned bound (decimal n) ≡ some n
parse_unsigned-decimal bound n h =
    let (c, s, e) = decimal_cons n in
    read_digits-AllOf bound n (decimal n) s c e (decimal-AllOf n) (value-decimal n) h

abbrev pub every_char : (ℕ → Bool) → Text → Bool
every_char p [] = true
every_char p (c ∷ s) = p c && every_char p s

-- On a concrete text the test is run.
pub every_char-AllOf : (p : ℕ → Bool) (s : Text) → every_char p s ≡ true → AllOf p s
every_char-AllOf p [] e = tt
every_char-AllOf p (c ∷ s) e = elim (Bool-cases (p c)) [
  | inl x ↦ (x, every_char-AllOf p s (rw x at e))
  | inr x ↦ absurd (let q = rw x at e in cc)
]
