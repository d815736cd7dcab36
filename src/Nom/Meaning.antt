-- ===== src/Nom/Meaning.antt =====
-- What a parser of nom gives: the rest of the input and a value, or an error that an alternative may
-- recover from, or one that ends the parse. And what nom documents of its combinators.
use plexy.Prelude.{
  ℕ, zero, suc, ◌-◌, ◌<◌, ◌≡◌, Bool, ◌&&◌, ◌||◌, List, [], ◌∷◌, ◌++◌, Option, none, some, Text,
  is_digit, value, length, take, ltb, leb, ◌==◌, if◌then◌else◌,
}

pub data Seen (A : Type 0) : Type 0 where
  read : Text → A → Seen A
  backtrack fatal : Seen A

abbrev pub is_alpha : ℕ → Bool
is_alpha c = leb b'a' c && leb c b'z' || leb b'A' c && leb c b'Z'

-- The longest front of which a test holds, and what stands behind it.
abbrev pub front : (ℕ → Bool) → Text → Text
front p [] = []
front p (c ∷ s) = if p c then c ∷ front p s else []

abbrev pub behind : (ℕ → Bool) → Text → Text
behind p [] = []
behind p (c ∷ s) = if p c then behind p s else c ∷ s

-- The same, of at most so many characters.
abbrev pub front_upto : ℕ → (ℕ → Bool) → Text → Text
front_upto zero p s = []
front_upto (suc n) p [] = []
front_upto (suc n) p (c ∷ s) = if p c then c ∷ front_upto n p s else []

abbrev pub behind_upto : ℕ → (ℕ → Bool) → Text → Text
behind_upto zero p s = s
behind_upto (suc n) p [] = []
behind_upto (suc n) p (c ∷ s) = if p c then behind_upto n p s else c ∷ s

abbrev pub seen_then : {A B : Type 0} → Seen A → (Text → A → Seen B) → Seen B
seen_then (read rest a) k = k rest a
seen_then backtrack k = backtrack
seen_then fatal k = fatal

abbrev pub seen_map : {A B : Type 0} → (A → B) → Seen A → Seen B
seen_map f (read rest a) = read rest (f a)
seen_map f backtrack = backtrack
seen_map f fatal = fatal

abbrev pub seen_separated :
    {A S B : Type 0} → Seen A → (Text → Seen S) → (Text → Seen B) → Seen (A × B)
seen_separated s sep q =
    seen_then s (λ rest a. seen_then (sep rest) (λ after x. seen_map (λ b. (a, b)) (q after)))

abbrev pub seen_delimited : {A B C : Type 0} → Seen A → (Text → Seen B) → (Text → Seen C) → Seen B
seen_delimited s q r =
    seen_then s (λ rest a. seen_then (q rest) (λ after b. seen_map (λ x. b) (r after)))

abbrev pub seen_alt : {A : Type 0} → Seen A → Seen A → Seen A
seen_alt (read rest a) s = read rest a
seen_alt backtrack s = s
seen_alt fatal s = fatal

abbrev pub seen_opt : {A : Type 0} → Text → Seen A → Seen (Option A)
seen_opt i (read rest a) = read rest (some a)
seen_opt i backtrack = read i none
seen_opt i fatal = fatal

abbrev pub seen_recognize : {A : Type 0} → Text → Seen A → Seen Text
seen_recognize i (read rest a) = read rest (take (length i - length rest) i)
seen_recognize i backtrack = backtrack
seen_recognize i fatal = fatal

abbrev pub seen_verify : {A : Type 0} → (A → Bool) → Seen A → Seen A
seen_verify ok (read rest a) = if ok a then read rest a else backtrack
seen_verify ok backtrack = backtrack
seen_verify ok fatal = fatal

abbrev pub seen_all : {A : Type 0} → Seen A → Seen A
seen_all (read [] a) = read [] a
seen_all (read (c ∷ s) a) = backtrack
seen_all backtrack = backtrack
seen_all fatal = fatal

abbrev pub seen_tag : Text → Text → Seen Text
seen_tag [] i = read i []
seen_tag (t ∷ ts) [] = backtrack
seen_tag (t ∷ ts) (c ∷ s) =
    if c == t then seen_map (λ (u : Text). t ∷ u) (seen_tag ts s) else backtrack

abbrev pub seen_char : ℕ → Text → Seen ℕ
seen_char t [] = backtrack
seen_char t (c ∷ s) = if c == t then read s t else backtrack

abbrev pub seen_while : (ℕ → Bool) → Text → Seen Text
seen_while p i = read (behind p i) (front p i)

-- at least `m` and at most `n` characters
abbrev pub seen_while_m_n : ℕ → ℕ → (ℕ → Bool) → Text → Seen Text
seen_while_m_n m n p i =
    if leb m (length (front_upto n p i))
    then read (behind_upto n p i) (front_upto n p i)
    else backtrack

-- the longest front with at least one character
abbrev pub some_front : Text → Text → Seen Text
some_front rest [] = backtrack
some_front rest (c ∷ s) = read rest (c ∷ s)

abbrev pub seen_alpha1 : Text → Seen Text
seen_alpha1 i = some_front (behind is_alpha i) (front is_alpha i)

-- Digits that spell a number below the bound.
abbrev pub number_front : ℕ → Text → Text → Seen ℕ
number_front bound rest [] = backtrack
number_front bound rest (c ∷ s) =
    if ltb (value 0 (c ∷ s)) bound then read rest (value 0 (c ∷ s)) else backtrack

abbrev pub seen_number : ℕ → Text → Seen ℕ
seen_number bound i = number_front bound (behind is_digit i) (front is_digit i)

-- What follows the first element of a list, by `more` for the list behind a separator.
abbrev pub seen_more : {A : Type 0} → Text → A → Seen (List A) → Seen (List A)
seen_more rest a (read rest' as') = read rest' (a ∷ as')
seen_more rest a backtrack = read rest (a ∷ [])
seen_more rest a fatal = fatal

abbrev pub seen_tail : {S A : Type 0} → (Text → Seen (List A)) → Text → A → Seen S → Seen (List A)
seen_tail list rest a (read after s) = seen_more rest a (list after)
seen_tail list rest a backtrack = read rest (a ∷ [])
seen_tail list rest a fatal = fatal

-- One round of a list: an element, and if a separator follows the list behind it.
abbrev pub seen_list :
    {S A : Type 0}
    → (Text → Seen S)
    → (Text → Seen A)
    → (Text → Seen (List A))
    → Text
    → Seen (List A)
seen_list sep p list i = seen_then (p i) (λ rest a. seen_tail list rest a (sep rest))

-- A parser that always reads something, and one that leaves an end of its input.
abbrev pub Consumes : {A : Type 0} → (Text → Seen A) → Type 0
Consumes {A} f = (i rest : Text) (a : A) → f i ≡ read rest a → length rest < length i

abbrev pub Leaves : {A : Type 0} → (Text → Seen A) → Type 0
Leaves {A} f = (i rest : Text) (a : A) → f i ≡ read rest a → (h : Text) × (i ≡ h ++ rest)
