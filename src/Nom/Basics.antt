-- ===== src/Nom/Basics.antt =====
-- The basic parsers of nom and their combinations: where they stop, and what they leave.
use plexy.Prelude.{
  ℕ, ◌<◌, ◌≡◌, refl, sym, ap, ◌∙◌, Bool, true, [], ◌∷◌, ◌++◌, Text, is_digit, value, arith, length,
  length-append, ◌==◌, subst,
}
use plexy.Nom.Meaning.{
  read, front, behind, front_upto, behind_upto, seen_char, seen_while, seen_while_m_n, seen_alpha1,
  seen_number, some_front, number_front, is_alpha, Leaves,
}
use plexy.Nom.Stops.{
  Stops, Seen_rest, Seen_value, front-behind, behind-Stops, front_upto-behind_upto,
  behind_upto-Stops,
}

pub seen_while-Stops : (p : ℕ → Bool) → Stops (seen_while p)
seen_while-Stops p h c r r' a e =
    let (x, y) = behind-Stops p h c r r' (Seen_rest e) in let z = Seen_value e in rw (x, y, z) refl

pub seen_while-Leaves : (p : ℕ → Bool) → Leaves (seen_while p)
seen_while-Leaves p i rest a e =
    (front p i, sym (front-behind p i) ∙ ap (λ (t : Text). front p i ++ t) (Seen_rest e))

pub seen_while_m_n-Stops : (n : ℕ) (p : ℕ → Bool) → Stops (seen_while_m_n 0 n p)
seen_while_m_n-Stops n p h c r r' a e =
    let f : read (behind_upto n p (h ++ c ∷ r)) (front_upto n p (h ++ c ∷ r)) ≡ read (c ∷ r) a =
      ground (arith, e) in
    let (x, y) = behind_upto-Stops p n h c r r' (Seen_rest f) in
    let z = Seen_value f in ground (arith, x, y, z)

pub seen_while_m_n-Leaves : (n : ℕ) (p : ℕ → Bool) → Leaves (seen_while_m_n 0 n p)
seen_while_m_n-Leaves n p i rest a e =
    let f : read (behind_upto n p i) (front_upto n p i) ≡ read rest a = ground (arith, e) in
    (
      front_upto n p i,
      sym (front_upto-behind_upto p n i) ∙ ap (λ (t : Text). front_upto n p i ++ t) (Seen_rest f),
    )

some_front-read : (rest s r a : Text) → some_front rest s ≡ read r a → (rest ≡ r) × (s ≡ a)
some_front-read rest [] r a e = cc
some_front-read rest (c ∷ s) r a e = (Seen_rest e, Seen_value e)

some_front-other :
    (rest r r' s a : Text) → some_front rest s ≡ read r a → some_front r' s ≡ read r' a
some_front-other rest r r' [] a e = cc
some_front-other rest r r' (c ∷ s) a e = cc

pub seen_alpha1-Leaves : Leaves seen_alpha1
seen_alpha1-Leaves i rest a e =
    let (p, q) = some_front-read _ (front is_alpha i) rest a e in
    (front is_alpha i, sym (front-behind is_alpha i) ∙ ap (λ (t : Text). front is_alpha i ++ t) p)

pub seen_alpha1-Stops : Stops seen_alpha1
seen_alpha1-Stops h c r r' a e =
    let (p, q) = some_front-read _ (front is_alpha (h ++ c ∷ r)) (c ∷ r) a e in
    let (x, y) = behind-Stops is_alpha h c r r' p in
    subst (λ (s : Text). some_front (behind is_alpha (h ++ c ∷ r')) s ≡ read (c ∷ r') a) (sym y)
      (rw x (some_front-other _ (c ∷ r) (c ∷ r') (front is_alpha (h ++ c ∷ r)) a e))

number_front-read :
    (bound : ℕ) (rest s r : Text) (a : ℕ)
    → number_front bound rest s ≡ read r a
    → (rest ≡ r) × (a < bound) × (value 0 s ≡ a)
number_front-read bound rest [] r a e = cc
number_front-read bound rest (c ∷ s) r a e = ground (arith, e)

number_front-other :
    (bound : ℕ) (rest r r' s : Text) (a : ℕ)
    → number_front bound rest s ≡ read r a
    → number_front bound r' s ≡ read r' a
number_front-other bound rest r r' [] a e = cc
number_front-other bound rest r r' (c ∷ s) a e = ground (arith, e)

pub seen_number-Stops : (bound : ℕ) → Stops (seen_number bound)
seen_number-Stops bound h c r r' a e =
    let (p, _, _) = number_front-read bound _ (front is_digit (h ++ c ∷ r)) (c ∷ r) a e in
    let (x, y) = behind-Stops is_digit h c r r' p in
    subst (λ (s : Text). number_front bound (behind is_digit (h ++ c ∷ r')) s ≡ read (c ∷ r') a)
      (sym y) (rw x (number_front-other bound _ (c ∷ r) (c ∷ r') (front is_digit (h ++ c ∷ r)) a e))

pub seen_number-Leaves : (bound : ℕ) → Leaves (seen_number bound)
seen_number-Leaves bound i rest a e =
    let (p, _, _) = number_front-read bound _ (front is_digit i) rest a e in
    (front is_digit i, sym (front-behind is_digit i) ∙ ap (λ (t : Text). front is_digit i ++ t) p)

pub seen_number_lt :
    (bound : ℕ) (i rest : Text) (a : ℕ) → seen_number bound i ≡ read rest a → a < bound
seen_number_lt bound i rest a e =
    let (_, lt, _) = number_front-read bound _ (front is_digit i) rest a e in lt

seen_char-read :
    (t c : ℕ) (s r : Text) (a : ℕ)
    → seen_char t (c ∷ s) ≡ read r a
    → (s ≡ r) × ((c == t) ≡ true) × (t ≡ a)
seen_char-read t c s r a e = ground (arith, e)

pub seen_char-Stops : (t : ℕ) → Stops (seen_char t)
seen_char-Stops t [] c r r' a e =
    let (p, _, _) = seen_char-read t c r (c ∷ r) a e in
    absurd (omega (arith, ap (λ (s : Text). length s) p))
seen_char-Stops t (d ∷ []) c r r' a e =
    let (_, q, z) = seen_char-read t d (c ∷ r) (c ∷ r) a e in rw (q, z) refl
seen_char-Stops t (d ∷ x ∷ h) c r r' a e =
    let (p, _, _) = seen_char-read t d (x ∷ h ++ c ∷ r) (c ∷ r) a e in
    absurd (omega (arith, ap (λ (s : Text). length s) p, length-append h (c ∷ r)))

pub seen_char-Leaves : (t : ℕ) → Leaves (seen_char t)
seen_char-Leaves t [] rest a e = cc
seen_char-Leaves t (c ∷ s) rest a e = (c ∷ [], ground (arith, e))
