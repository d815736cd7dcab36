-- ===== src/Nom/Listed.antt =====
-- `separated_list1` of nom: what it leaves, and where it stops.
use plexy.Prelude.{
  ℕ, zero, suc, ◌<◌, ◌≡◌, refl, sym, ap, ◌∙◌, ◌⊎◌, inl, inr, List, [], ◌∷◌, ◌++◌, append_assoc,
  Text, arith, length, length-append, subst,
}
use plexy.Nom.Meaning.{
  Seen, read, backtrack, fatal, seen_list, seen_tail, seen_more, Leaves, Consumes,
}
use plexy.Nom.Stops.{Stops}
use plexy.Nom.Combined.{seen_then-read, first-Stops, append_cancel}

module _ {A : Type 0} where
  pub Seen-cases :
      (s : Seen A) → ((r : Text) × (a : A) × (s ≡ read r a)) ⊎ ((s ≡ backtrack) ⊎ (s ≡ fatal))
  Seen-cases (read r a) = inl (r, a, refl)
  Seen-cases backtrack = inr (inl refl)
  Seen-cases fatal = inr (inr refl)

-- Whether a parser backtracks is decided by the first character.
abbrev pub HeadOnly : {A : Type 0} → (Text → Seen A) → Type 0
HeadOnly f = (c : ℕ) (r r' : Text) → f (c ∷ r) ≡ backtrack → f (c ∷ r') ≡ backtrack

-- A predicate holds of every element.
abbrev pub Every : {A : Type 0} → (A → Type 0) → List A → Type 0
Every P [] = Unit
Every P (x ∷ xs) = P x × Every P xs

-- A parser that never fails.
abbrev pub Reads : {A : Type 0} → (Text → Seen A) → Type 0
Reads {A} f = (i : Text) → (r : Text) × (a : A) × (f i ≡ read r a)

module _ {S A : Type 0} (sep : Text → Seen S) (p : Text → Seen A) (list : Text → Seen (List A))
    (round : (i : Text) → list i ≡ seen_list sep p list i) where
  -- How a list was read: one element, or an element, a separator and a list.
  pub data Listed (i r : Text) (xs : List A) : Type 0 where
    single : (a : A) → p i ≡ read r a → sep r ≡ backtrack → xs ≡ a ∷ [] → Listed i r xs
    -- the element behind the separator failed
    single_before :
        (a : A) (after : Text) (x : S)
        → p i ≡ read r a
        → sep r ≡ read after x
        → list after ≡ backtrack
        → xs ≡ a ∷ []
        → Listed i r xs
    several :
        (a : A) (rest after : Text) (x : S) (more : List A)
        → p i ≡ read rest a
        → sep rest ≡ read after x
        → list after ≡ read r more
        → xs ≡ a ∷ more
        → Listed i r xs

  more-Listed :
      (i rest after r : Text) (a : A) (x : S) (xs : List A) (s : Seen (List A))
      → p i ≡ read rest a
      → sep rest ≡ read after x
      → list after ≡ s
      → seen_more rest a s ≡ read r xs
      → Listed i r xs
  more-Listed i rest after r a x xs (read r' more) pe se le e =
      several a rest after x more pe se (subst (λ (t : Text). list after ≡ read t more) (cc) le)
        (cc)
  more-Listed i rest after r a x xs backtrack pe se le e =
      let q : rest ≡ r = cc in
      single_before a after x (subst (λ (t : Text). p i ≡ read t a) q pe)
        (subst (λ (t : Text). sep t ≡ read after x) q se) le (cc)
  more-Listed i rest after r a x xs fatal pe se le e = cc

  tail-Listed :
      (i rest r : Text) (a : A) (xs : List A) (s : Seen S)
      → p i ≡ read rest a
      → sep rest ≡ s
      → seen_tail list rest a s ≡ read r xs
      → Listed i r xs
  tail-Listed i rest r a xs (read after x) pe se e =
      more-Listed i rest after r a x xs (list after) pe se refl e
  tail-Listed i rest r a xs backtrack pe se e =
      let q : rest ≡ r = cc in
      single a (subst (λ (t : Text). p i ≡ read t a) q pe)
        (subst (λ (t : Text). sep t ≡ backtrack) q se) (cc)
  tail-Listed i rest r a xs fatal pe se e = cc

  pub list-Listed : (i r : Text) (xs : List A) → list i ≡ read r xs → Listed i r xs
  list-Listed i r xs e =
      let (rest, a, pe, te) =
        seen_then-read (p i) (λ rest a. seen_tail list rest a (sep rest)) (sym (round i) ∙ e) in
      tail-Listed i rest r a xs (sep rest) pe refl te

  -- The same list is read again from the same parts.
  pub single_again :
      (i r : Text) (a : A) → p i ≡ read r a → sep r ≡ backtrack → list i ≡ read r (a ∷ [])
  single_again i r a pe se = round i ∙ rw (pe, se) refl

  pub several_again :
      (i rest after r : Text) (a : A) (x : S) (more : List A)
      → p i ≡ read rest a
      → sep rest ≡ read after x
      → list after ≡ read r more
      → list i ≡ read r (a ∷ more)
  several_again i rest after r a x more pe se le = round i ∙ rw (pe, se, le) refl

  list_ne_backtrack : Reads p → (i : Text) → list i ≡ backtrack → ⊥
  list_ne_backtrack reads i e =
      let (r, a, pe) = reads i in no_backtrack r a (sep r) (sym (rw pe at (round i)) ∙ e)
    where
      no_more : (r : Text) (a : A) (s : Seen (List A)) → seen_more r a s ≡ backtrack → ⊥
      no_more r a (read r' xs) e = cc
      no_more r a backtrack e = cc
      no_more r a fatal e = cc

      no_backtrack : (r : Text) (a : A) (s : Seen S) → seen_tail list r a s ≡ backtrack → ⊥
      no_backtrack r a (read after x) e = no_more r a (list after) e
      no_backtrack r a backtrack e = cc
      no_backtrack r a fatal e = cc

  module _ (consumes : Consumes sep) (leaves_sep : Leaves sep) (leaves : Leaves p) where
    shorter :
        (i rest after : Text) (a : A) (x : S)
        → p i ≡ read rest a
        → sep rest ≡ read after x
        → length after < length i
    shorter i rest after a x pe se =
        let (h, q) = leaves i rest a pe in
        omega (arith, consumes rest after x se, ap (λ (t : Text). length t) q, length-append h rest)

    leaves_from :
        (n : ℕ) (i r : Text) (xs : List A)
        → length i < n
        → Listed i r xs
        → (h : Text) × (i ≡ h ++ r)
    leaves_from zero i r xs lt d = absurd (omega arith)
    leaves_from (suc n) i r xs lt (single a pe se e) = leaves i r a pe
    leaves_from (suc n) i r xs lt (single_before a after x pe se le e) = leaves i r a pe
    leaves_from (suc n) i r xs lt (several a rest after x more pe se le e) =
        let (h, q) = leaves i rest a pe in
        let (k, q') = leaves_sep rest after x se in
        let (m, q'') =
          leaves_from n after r more (omega (arith, shorter i rest after a x pe se))
            (list-Listed after r more le) in
        (
          h ++ (k ++ m),
          q
              ∙ ap (λ (t : Text). h ++ t)
                  (q' ∙ ap (λ (t : Text). k ++ t) q'' ∙ sym (append_assoc k m r))
              ∙ sym (append_assoc h (k ++ m) r),
        )

    pub list-Leaves : Leaves list
    list-Leaves i r xs e = leaves_from (suc (length i)) i r xs (omega arith) (list-Listed i r xs e)

    -- What holds of every value that the element's parser reads holds of the list's elements.
    module _ (P : A → Type 0) (each : (i r : Text) (a : A) → p i ≡ read r a → P a) where
      Every-from :
          (n : ℕ) (i r : Text) (xs : List A)
          → length i < n
          → Listed i r xs
          → (y : A) × (ys : List A) × (xs ≡ y ∷ ys) × P y × Every P ys
      Every-from zero i r xs lt d = absurd (omega arith)
      Every-from (suc n) i r xs lt (single a pe se e) = (a, [], e, each i r a pe, tt)
      Every-from (suc n) i r xs lt (single_before a after x pe se le e) =
          (a, [], e, each i r a pe, tt)
      Every-from (suc n) i r xs lt (several a rest after x more pe se le e) =
          let (y, ys, q, py, pys) =
            Every-from n after r more (omega (arith, shorter i rest after a x pe se))
              (list-Listed after r more le) in
          (a, more, e, each i rest a pe, subst (λ (zs : List A). Every P zs) (sym q) (py, pys))

      pub list-Every :
          (i r : Text) (xs : List A)
          → list i ≡ read r xs
          → (y : A) × (ys : List A) × (xs ≡ y ∷ ys) × P y × Every P ys
      list-Every i r xs e = Every-from (suc (length i)) i r xs (omega arith) (list-Listed i r xs e)

    module _ (stops_sep : Stops sep) (stops : Stops p) (head : HeadOnly sep) (reads : Reads p) where
      stops_from :
          (n : ℕ) (h : Text) (c : ℕ) (r r' : Text) (xs : List A)
          → length (h ++ c ∷ r) < n
          → Listed (h ++ c ∷ r) (c ∷ r) xs
          → list (h ++ c ∷ r') ≡ read (c ∷ r') xs
      stops_from zero h c r r' xs lt d = absurd (omega arith)
      stops_from (suc n) h c r r' xs lt (single a pe se e) =
          single_again (h ++ c ∷ r') (c ∷ r') a (stops h c r r' a pe) (head c r r' se)
          ∙ ap (λ (ys : List A). read (c ∷ r') ys) (sym e)
      stops_from (suc n) h c r r' xs lt (single_before a after x pe se le e) =
          absurd (list_ne_backtrack reads after le)
      stops_from (suc n) h c r r' xs lt (several a rest after x more pe se le e) =
          let (h1, q1) = leaves (h ++ c ∷ r) rest a pe in
          let (h2, q2) = leaves_sep rest after x se in
          let (h3, q3) = list-Leaves after (c ∷ r) more le in
          let rest_is : rest ≡ (h2 ++ h3) ++ c ∷ r =
            q2 ∙ ap (λ (t : Text). h2 ++ t) q3 ∙ sym (append_assoc h2 h3 (c ∷ r)) in
          let hs : h ≡ h1 ++ (h2 ++ h3) =
            append_cancel h (h1 ++ (h2 ++ h3)) (c ∷ r) (
              q1 ∙ ap (λ (t : Text). h1 ++ t) rest_is ∙ sym (append_assoc h1 (h2 ++ h3) (c ∷ r))) in
          let pe' : p ((h1 ++ (h2 ++ h3)) ++ c ∷ r) ≡ read ((h2 ++ h3) ++ c ∷ r) a =
            rw (sym hs, sym rest_is) pe in
          let se' : sep ((h2 ++ h3) ++ c ∷ r) ≡ read (h3 ++ c ∷ r) x =
            rw (sym rest_is, sym q3) se in
          let le' : list (h3 ++ c ∷ r) ≡ read (c ∷ r) more = rw (sym q3) le in
          let short : length (h3 ++ c ∷ r) < n =
            omega
              (arith, shorter (h ++ c ∷ r) rest after a x pe se, ap (λ (t : Text). length t) q3) in
          let ih = stops_from n h3 c r r' more short (list-Listed (h3 ++ c ∷ r) (c ∷ r) more le') in
          let p' = first-Stops p sep h1 (h2 ++ h3) c r r' a stops pe' in
          let s' = first-Stops sep p h2 h3 c r r' x stops_sep se' in
          subst (λ (t : Text). list (t ++ c ∷ r') ≡ read (c ∷ r') xs) (sym hs)
            (several_again ((h1 ++ (h2 ++ h3)) ++ c ∷ r') ((h2 ++ h3) ++ c ∷ r') (h3 ++ c ∷ r')
                (c ∷ r') a x more p' s' ih
              ∙ ap (λ (ys : List A). read (c ∷ r') ys) (sym e))

      pub list-Stops : Stops list
      list-Stops h c r r' xs e =
          stops_from (suc (length (h ++ c ∷ r))) h c r r' xs (omega arith)
            (list-Listed (h ++ c ∷ r) (c ∷ r) xs e)
