-- ===== src/Control/Printed.antt =====
-- src/controller/protocol.rs: a printed response read back line by line.
use plexy.Prelude.{
  ℕ, suc, ◌+◌, ◌-◌, ◌≡◌, refl, ap, ◌∙◌, true, false, not, List, [], ◌∷◌, ◌++◌, map, some, Text,
  codes, AllOf, arith, length, ltb, ◌==◌, Bool-cases, inl, inr, append-nil, if◌then◌else◌,
}
use plexy.Nom.Listed.{Every}
use plexy.Control.Response.{info, newline, tab, detail_lines, response_to_string}

-- A character before the first line.
abbrev add_first : ℕ → List Text → List Text
add_first c [] = (c ∷ []) ∷ []
add_first c (l ∷ ls) = (c ∷ l) ∷ ls

-- The lines of a text, one more than it has line ends.
unfoldable pub split_lines : Text → List Text
split_lines [] = [] ∷ []
split_lines (c ∷ s) =
    let rest = split_lines s in if c == newline then [] ∷ rest else add_first c rest

abbrev pub IsOneLine : Text → Type 0
IsOneLine = AllOf (λ c. not (c == newline))

split_lines-last : (s : Text) → IsOneLine s → split_lines s ≡ s ∷ []
unfolding split_lines
split_lines-last [] h = refl
split_lines-last (c ∷ s) (hc, h) = elim (Bool-cases (c == newline)) [
  | inl e ↦ absurd (ground arith)
  | inr e ↦ rw (e, split_lines-last s h) refl
]

split_lines-append : (s t : Text) → IsOneLine s → split_lines (s ++ newline ∷ t) ≡ s ∷ split_lines t
unfolding split_lines
split_lines-append [] t h = refl
split_lines-append (c ∷ s) t (hc, h) = elim (Bool-cases (c == newline)) [
  | inl e ↦ absurd (ground arith)
  | inr e ↦ rw (e, split_lines-append s t h) refl
]

tab-IsOneLine : (l : Text) → IsOneLine l → IsOneLine (tab ∷ l)
tab-IsOneLine l h = (refl, h)

ltb-false : (n size : ℕ) → n + 1 ≡ size → ltb n (size - 1) ≡ false
ltb-false n size e = ground (arith, e)

ltb-true : (n k size : ℕ) → n + suc (suc k) ≡ size → ltb n (size - 1) ≡ true
ltb-true n k size e = ground (arith, e)

split_lines-detail_lines :
    (size n : ℕ) (x : Text) (xs : List Text)
    → IsOneLine x
    → Every IsOneLine xs
    → n + length (x ∷ xs) ≡ size
    → split_lines (detail_lines size n (x ∷ xs)) ≡ map (λ l. tab ∷ l) (x ∷ xs)
unfolding detail_lines
split_lines-detail_lines size n x [] hx h e =
    rw (ltb-false n size (omega (arith, e)))
      (ap split_lines (append-nil (tab ∷ x)) ∙ split_lines-last (tab ∷ x) (tab-IsOneLine x hx))
split_lines-detail_lines size n x (y ∷ ys) hx (hy, h) e =
    rw (ltb-true n (length ys) size (omega (arith, e))) (
      split_lines-append (tab ∷ x) (detail_lines size (suc n) (y ∷ ys)) (tab-IsOneLine x hx)
      ∙ ap (λ (ls : List Text). (tab ∷ x) ∷ ls)
          (split_lines-detail_lines size (suc n) y ys hy h (omega (arith, e))))

ok-IsOneLine : (s : Text) → IsOneLine s → IsOneLine (codes "OK: " ++ s)
ok-IsOneLine s h = (refl, (refl, (refl, (refl, h))))

-- The lines of a printed response whose details are one line or more, where neither the short text
-- nor a detail has a line end in it, are "OK: " with the short text, and each detail behind a tab.
pub split_lines-response_to_string :
    (short x : Text) (xs : List Text)
    → IsOneLine short
    → IsOneLine x
    → Every IsOneLine xs
    → split_lines (response_to_string (info short (some (x ∷ xs))))
      ≡ (codes "OK: " ++ short) ∷ map (λ l. tab ∷ l) (x ∷ xs)
unfolding response_to_string
split_lines-response_to_string short x xs hs hx h =
    split_lines-append (codes "OK: " ++ short) (detail_lines (length (x ∷ xs)) 0 (x ∷ xs))
      (ok-IsOneLine short hs)
    ∙ ap (λ (ls : List Text). (codes "OK: " ++ short) ∷ ls)
        (split_lines-detail_lines (length (x ∷ xs)) 0 x xs hx h (omega arith))
