-- ===== src/Nom/Stops.antt =====
-- Parsers that stop at a character stop there whatever follows it.
use plexy.Prelude.{
  ℕ, zero, suc, ◌≤◌, ◌≡◌, refl, ap, Bool, [], ◌∷◌, ◌++◌, Text, arith, length, length-append,
}
use plexy.Nom.Meaning.{Seen, read, front, behind, front_upto, behind_upto}

-- What a parser leaves from `c` on, it leaves whatever follows `c`.
abbrev pub Stops : {A : Type 0} → (Text → Seen A) → Type 0
Stops {A} f =
    (h : Text) (c : ℕ) (r r' : Text) (a : A)
    → f (h ++ c ∷ r) ≡ read (c ∷ r) a
    → f (h ++ c ∷ r') ≡ read (c ∷ r') a

pub Seen_rest : {A : Type 0} {r r' : Text} {a a' : A} → read r a ≡ read r' a' → r ≡ r'
Seen_rest e = cc

pub Seen_value : {A : Type 0} {r r' : Text} {a a' : A} → read r a ≡ read r' a' → a ≡ a'
Seen_value e = cc

-- No text stands behind itself and something more.
length_behind : (h : Text) (c : ℕ) (r s : Text) → length s ≤ length r → s ≡ h ++ c ∷ r → ⊥
length_behind h c r s k e =
    absurd (omega (arith, ap (λ (t : Text). length t) e, length-append h (c ∷ r)))

module _ (p : ℕ → Bool) where
  pub front-behind : (s : Text) → front p s ++ behind p s ≡ s
  front-behind [] = refl
  front-behind (c ∷ s) = ground (arith, front-behind s)

  length-behind : (s : Text) → length (behind p s) ≤ length s
  length-behind [] = omega arith
  length-behind (c ∷ s) = ground (arith, length-behind s)

  -- The front of a text that stops at `c` is what stands before `c`.
  pub behind-Stops :
      (h : Text) (c : ℕ) (r r' : Text)
      → behind p (h ++ c ∷ r) ≡ c ∷ r
      → (behind p (h ++ c ∷ r') ≡ c ∷ r') × (front p (h ++ c ∷ r') ≡ front p (h ++ c ∷ r))
  behind-Stops [] c r r' e = ground (arith, length-behind r, ap (λ (t : Text). length t) e)
  behind-Stops (d ∷ h) c r r' e =
      ground (arith, behind-Stops h c r r', ap (λ (t : Text). length t) e, length-append h (c ∷ r))

  length-behind_upto : (n : ℕ) (s : Text) → length (behind_upto n p s) ≤ length s
  length-behind_upto zero s = omega arith
  length-behind_upto (suc n) [] = omega arith
  length-behind_upto (suc n) (c ∷ s) = ground (arith, length-behind_upto n s)

  pub front_upto-behind_upto : (n : ℕ) (s : Text) → front_upto n p s ++ behind_upto n p s ≡ s
  front_upto-behind_upto zero s = refl
  front_upto-behind_upto (suc n) [] = refl
  front_upto-behind_upto (suc n) (c ∷ s) = ground (arith, front_upto-behind_upto n s)

  pub behind_upto-Stops :
      (n : ℕ) (h : Text) (c : ℕ) (r r' : Text)
      → behind_upto n p (h ++ c ∷ r) ≡ c ∷ r
      → (behind_upto n p (h ++ c ∷ r') ≡ c ∷ r')
        × (front_upto n p (h ++ c ∷ r') ≡ front_upto n p (h ++ c ∷ r))
  behind_upto-Stops zero [] c r r' e = (refl, refl)
  behind_upto-Stops zero (d ∷ h) c r r' e =
      absurd (omega (arith, ap (λ (t : Text). length t) e, length-append h (c ∷ r)))
  behind_upto-Stops (suc n) [] c r r' e =
      ground (arith, length-behind_upto n r, ap (λ (t : Text). length t) e)
  behind_upto-Stops (suc n) (d ∷ h) c r r' e =
      ground (
        arith,
        behind_upto-Stops n h c r r',
        ap (λ (t : Text). length t) e,
        length-append h (c ∷ r),
      )
