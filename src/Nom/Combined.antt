-- ===== src/Nom/Combined.antt =====
-- Combinations of parsers of nom: what a success says of the parts, where they stop, what they leave.
use plexy.Prelude.{
  ℕ, ◌-◌, ◌≡◌, refl, sym, ap, ◌∙◌, Bool, true, [], ◌∷◌, ◌++◌, append_assoc, append-nil, Text, arith,
  length, take, length-append, take-append_exact, subst,
}
use plexy.Nom.Meaning.{
  Seen, read, backtrack, fatal, seen_map, seen_then, seen_recognize, seen_verify, Leaves,
}
use plexy.Nom.Stops.{Stops}

module _ {A B : Type 0} where
  pub seen_then-read :
      (s : Seen A) (k : Text → A → Seen B) {r : Text} {b : B}
      → seen_then s k ≡ read r b
      → (rest : Text) × (a : A) × (s ≡ read rest a) × (k rest a ≡ read r b)
  seen_then-read (read rest a) k e = (rest, a, refl, e)
  seen_then-read backtrack k e = cc
  seen_then-read fatal k e = cc

  pub seen_map-read :
      (f : A → B) (s : Seen A) {r : Text} {b : B}
      → seen_map f s ≡ read r b
      → (a : A) × (s ≡ read r a) × (f a ≡ b)
  seen_map-read f (read rest a) e = (a, cc, cc)
  seen_map-read f backtrack e = cc
  seen_map-read f fatal e = cc

pub append_cancel : (h k x : Text) → h ++ x ≡ k ++ x → h ≡ k
append_cancel [] [] x e = refl
append_cancel [] (d ∷ k) x e =
    absurd (omega (arith, ap (λ (s : Text). length s) e, length-append k x))
append_cancel (d ∷ h) [] x e =
    absurd (omega (arith, ap (λ (s : Text). length s) e, length-append h x))
append_cancel (d ∷ h) (c ∷ k) x e = ground (arith, append_cancel h k x)

module _ {A : Type 0} (f : Text → Seen A) where
  pub recognized : (h rest : Text) → take (length (h ++ rest) - length rest) (h ++ rest) ≡ h
  recognized h rest =
      take-append_exact (length (h ++ rest) - length rest) h rest
        (omega (arith, length-append h rest))

  pub seen_recognize-read :
      (i : Text) (s : Seen A) {r t : Text}
      → seen_recognize i s ≡ read r t
      → (a : A) × (s ≡ read r a) × (take (length i - length r) i ≡ t)
  seen_recognize-read i (read rest a) {r} {t} e =
      let p : rest ≡ r = cc in
      let q : take (length i - length rest) i ≡ t = cc in
      (a, rw p refl, subst (λ (x : Text). take (length i - length x) i ≡ t) p q)
  seen_recognize-read i backtrack e = cc
  seen_recognize-read i fatal e = cc

  pub seen_recognize-Leaves : Leaves f → Leaves (λ i. seen_recognize i (f i))
  seen_recognize-Leaves leaves i rest t e =
      let (a, p, _) = seen_recognize-read i (f i) e in leaves i rest a p

  pub seen_recognize-Stops : Stops f → Stops (λ i. seen_recognize i (f i))
  seen_recognize-Stops stops h c r r' t e =
      let (a, p, q) = seen_recognize-read (h ++ c ∷ r) (f (h ++ c ∷ r)) e in
      ap (seen_recognize (h ++ c ∷ r')) (stops h c r r' a p)
      ∙ ap (λ (x : Text). read (c ∷ r') x) (recognized h (c ∷ r') ∙ sym (recognized h (c ∷ r)) ∙ q)

  pub seen_verify-read :
      (ok : A → Bool) (s : Seen A) {r : Text} {a : A}
      → seen_verify ok s ≡ read r a
      → (s ≡ read r a) × (ok a ≡ true)
  seen_verify-read ok (read rest a) e = ground (arith, e)
  seen_verify-read ok backtrack e = cc
  seen_verify-read ok fatal e = cc

  pub seen_verify-Leaves : (ok : A → Bool) → Leaves f → Leaves (λ i. seen_verify ok (f i))
  seen_verify-Leaves ok leaves i rest a e =
      let (p, _) = seen_verify-read ok (f i) e in leaves i rest a p

  pub seen_verify-Stops : (ok : A → Bool) → Stops f → Stops (λ i. seen_verify ok (f i))
  seen_verify-Stops ok stops h c r r' a e =
      let (p, q) = seen_verify-read ok (f (h ++ c ∷ r)) e in
      ap (seen_verify ok) (stops h c r r' a p) ∙ rw q refl

module _ {A B : Type 0} (f : Text → Seen A) (g : Text → Seen B) where
  abbrev pub seen_pair : Text → Seen (A × B)
  seen_pair i = seen_then (f i) (λ rest a. seen_map (λ b. (a, b)) (g rest))

  pub seen_pair-read :
      (i r : Text) (p : A × B)
      → seen_pair i ≡ read r p
      → (rest : Text) × (f i ≡ read rest p.0) × (g rest ≡ read r p.1)
  seen_pair-read i r (a, b) e =
      let (rest, a', x, y) = seen_then-read (f i) (λ rest a. seen_map (λ b. (a, b)) (g rest)) e in
      let (b', z, w) = seen_map-read (λ (b : B). (a', b)) (g rest) y in
      (rest, x ∙ ap (λ (u : A × B). read rest u.0) w, z ∙ ap (λ (u : A × B). read r u.1) w)

  pub seen_pair-Leaves : Leaves f → Leaves g → Leaves seen_pair
  seen_pair-Leaves lf lg i r p e =
      let (rest, x, y) = seen_pair-read i r p e in
      let (h, u) = lf i rest p.0 x in
      let (k, v) = lg rest r p.1 y in
      (h ++ k, u ∙ ap (λ (s : Text). h ++ s) v ∙ sym (append_assoc h k r))

  -- Where the first part stops, the second part or the end goes on.
  pub first-Stops :
      (h1 h2 : Text) (c : ℕ) (r r' : Text) (a : A)
      → Stops f
      → f (h1 ++ h2 ++ c ∷ r) ≡ read (h2 ++ c ∷ r) a
      → f (h1 ++ h2 ++ c ∷ r') ≡ read (h2 ++ c ∷ r') a
  first-Stops h1 [] c r r' a sf e =
      subst (λ (s : Text). f (s ++ c ∷ r') ≡ read (c ∷ r') a) (sym (append-nil h1))
        (sf h1 c r r' a (subst (λ (s : Text). f (s ++ c ∷ r) ≡ read (c ∷ r) a) (append-nil h1) e))
  first-Stops h1 (d ∷ h2) c r r' a sf e =
      subst (λ (s : Text). f s ≡ read (d ∷ h2 ++ c ∷ r') a)
        (sym (append_assoc h1 (d ∷ h2) (c ∷ r')))
        (sf h1 d (h2 ++ c ∷ r) (h2 ++ c ∷ r') a (
          subst (λ (s : Text). f s ≡ read (d ∷ h2 ++ c ∷ r) a) (append_assoc h1 (d ∷ h2) (c ∷ r))
            e))

  pub seen_pair-Stops : Leaves f → Leaves g → Stops f → Stops g → Stops seen_pair
  seen_pair-Stops lf lg sf sg h c r r' (a, b) e =
      let (rest, x, y) = seen_pair-read (h ++ c ∷ r) (c ∷ r) (a, b) e in
      let (h1, u) = lf _ rest a x in
      let (h2, v) = lg rest (c ∷ r) b y in
      let hs : h ≡ h1 ++ h2 =
        append_cancel h (h1 ++ h2) (c ∷ r)
          (u ∙ ap (λ (s : Text). h1 ++ s) v ∙ sym (append_assoc h1 h2 (c ∷ r))) in
      let x' = subst (λ (s : Text). f (s ++ c ∷ r) ≡ read rest a) hs x in
      let x'' = subst (λ (s : Text). f ((h1 ++ h2) ++ c ∷ r) ≡ read s a) v x' in
      let z = first-Stops h1 h2 c r r' a sf x'' in
      let w = sg h2 c r r' b (subst (λ (s : Text). g s ≡ read (c ∷ r) b) v y) in
      subst (λ (s : Text). seen_pair (s ++ c ∷ r') ≡ read (c ∷ r') (a, b)) (sym hs) (rw (z, w) refl)

-- What is recognized stands before the rest.
pub seen_recognize_whole :
    {A : Type 0} (f : Text → Seen A) (i r t : Text)
    → Leaves f
    → seen_recognize i (f i) ≡ read r t
    → i ≡ t ++ r
seen_recognize_whole f i r t leaves e =
    let (a, p, q) = seen_recognize-read f i (f i) e in
    let (h, u) = leaves i r a p in
    let v = recognized f h r in
    u
    ∙ ap (λ (x : Text). x ++ r)
        (sym v ∙ ap (λ (x : Text). take (length x - length r) x) (sym u) ∙ q)
