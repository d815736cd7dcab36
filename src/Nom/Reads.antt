-- ===== src/Nom/Reads.antt =====
-- What a combined parser of nom reads, from what its parts read, and the other way round.
use plexy.Prelude.{
  ℕ, ◌-◌, ◌<◌, ◌≡◌, ◌⊎◌, inl, inr, refl, sym, ap, ◌∙◌, Bool, [], ◌∷◌, ◌++◌, Text, arith, length,
  take, is_digit, value, decimal, AllOf, value-decimal, decimal-AllOf, decimal_cons,
}
use plexy.Nom.{Nom, IResult, view}
use plexy.Nom.Meaning.{
  Seen, read, backtrack, fatal, seen_map, seen_then, seen_alt, seen_number, number_front, front,
  behind, Leaves, Consumes, seen_separated, seen_delimited,
}
use plexy.Nom.Stops.{Stops}
use plexy.Nom.Combined.{seen_then-read, seen_map-read}

module _ {A : Type 0} {f g : Text → Seen A} (same : (i : Text) → f i ≡ g i) where
  pub Stops-cong : Stops g → Stops f
  Stops-cong stops h c r r' a e =
      same (h ++ c ∷ r') ∙ stops h c r r' a (sym (same (h ++ c ∷ r)) ∙ e)

  pub Leaves-cong : Leaves g → Leaves f
  Leaves-cong leaves i rest a e = leaves i rest a (sym (same i) ∙ e)

  pub Consumes-cong : Consumes g → Consumes f
  Consumes-cong consumes i rest a e = consumes i rest a (sym (same i) ∙ e)

module _ {A : Type 0} where
  pub seen_alt-read :
      (s t : Seen A) (r : Text) (a : A)
      → seen_alt s t ≡ read r a
      → (s ≡ read r a) ⊎ ((s ≡ backtrack) × (t ≡ read r a))
  seen_alt-read (read rest a') t r a e = inl e
  seen_alt-read backtrack t r a e = inr (refl, e)
  seen_alt-read fatal t r a e = absurd (cc)

module _ {A S B : Type 0} where
  pub seen_separated-read :
      (s : Seen A) (sep : Text → Seen S) (q : Text → Seen B) (r : Text) (p : A × B)
      → seen_separated s sep q ≡ read r p
      → (rest after : Text) × (x : S) × (s ≡ read rest p.0)
        × (sep rest ≡ read after x)
        × (q after ≡ read r p.1)
  seen_separated-read s sep q r p e =
      let (rest, a, se, te) =
        seen_then-read s
          (λ rest a. seen_then (sep rest) (λ after x. seen_map (λ (b : B). (a, b)) (q after))) e in
      let (after, x, pe, ue) =
        seen_then-read (sep rest) (λ after x. seen_map (λ (b : B). (a, b)) (q after)) te in
      let (b, qe, w) = seen_map-read (λ (b : B). (a, b)) (q after) ue in
      (
        rest,
        after,
        x,
        se ∙ ap (λ (u : A × B). read rest u.0) w,
        pe,
        qe ∙ ap (λ (u : A × B). read r u.1) w,
      )

module _ {A B C : Type 0} where
  pub seen_delimited-read :
      (s : Seen A) (q : Text → Seen B) (t : Text → Seen C) (r : Text) (b : B)
      → seen_delimited s q t ≡ read r b
      → (rest after : Text) × (a : A) × (x : C) × (s ≡ read rest a)
        × (q rest ≡ read after b)
        × (t after ≡ read r x)
  seen_delimited-read s q t r b e =
      let (rest, a, se, te) =
        seen_then-read s
          (λ rest a. seen_then (q rest) (λ after (b : B). seen_map (λ (x : C). b) (t after))) e in
      let (after, b', qe, ue) =
        seen_then-read (q rest) (λ after (b : B). seen_map (λ (x : C). b) (t after)) te in
      let (x, pe, w) = seen_map-read (λ (x : C). b') (t after) ue in
      (rest, after, a, x, se, qe ∙ ap (λ (u : B). read after u) w, pe)

module _ (p : ℕ → Bool) where
  pub front-AllOf : (s t : Text) → AllOf p s → front p t ≡ [] → front p (s ++ t) ≡ s
  front-AllOf [] t h e = e
  front-AllOf (c ∷ s) t (x, h) e = rw (x, front-AllOf s t h e) refl

  front_nil-behind : (t : Text) → front p t ≡ [] → behind p t ≡ t
  front_nil-behind [] e = refl
  front_nil-behind (c ∷ t) e = ground (arith, e)

  pub behind-AllOf : (s t : Text) → AllOf p s → front p t ≡ [] → behind p (s ++ t) ≡ t
  behind-AllOf [] t h e = front_nil-behind t e
  behind-AllOf (c ∷ s) t (x, h) e = rw (x, behind-AllOf s t h e) refl

number_front-some :
    (bound n : ℕ) (rest s t : Text) (c : ℕ)
    → s ≡ c ∷ t
    → value 0 s ≡ n
    → n < bound
    → number_front bound rest s ≡ read rest n
number_front-some bound n rest [] t c e v k = cc
number_front-some bound n rest (d ∷ s) t c e v k = ground (arith, v)

-- A printed number is read up to what follows it.
pub seen_number-decimal :
    (bound n : ℕ) (t : Text)
    → n < bound
    → front is_digit t ≡ []
    → seen_number bound (decimal n ++ t) ≡ read t n
seen_number-decimal bound n t k e =
    let (c, s, q) = decimal_cons n in
    let all = decimal-AllOf n in
    rw (front-AllOf is_digit (decimal n) t all e, behind-AllOf is_digit (decimal n) t all e)
      (number_front-some bound n t (decimal n) s c q (value-decimal n) k)

module _ (nom : Nom) where
  module _ {A B : Type 0} (p : Text → IResult nom.Kind A) (q : Text → IResult nom.Kind B) where
    pub pair-reads :
        (i j k : Text) (a : A) (b : B)
        → view (p i) ≡ read j a
        → view (q j) ≡ read k b
        → view (nom.pair p q i) ≡ read k (a, b)
    pair-reads i j k a b x y = nom.pair-view p q i ∙ rw (x, y) refl

    pub pair-backtrack : (i : Text) → view (p i) ≡ backtrack → view (nom.pair p q i) ≡ backtrack
    pair-backtrack i u = nom.pair-view p q i ∙ rw u refl

    module _ {S : Type 0} (sep : Text → IResult nom.Kind S) where
      pub separated_pair-reads :
          (i j k l : Text) (a : A) (x : S) (b : B)
          → view (p i) ≡ read j a
          → view (sep j) ≡ read k x
          → view (q k) ≡ read l b
          → view (nom.separated_pair p sep q i) ≡ read l (a, b)
      separated_pair-reads i j k l a x b u v w =
          nom.separated_pair-view p sep q i ∙ rw (u, v, w) refl

      pub separated_pair-backtrack :
          (i : Text) → view (p i) ≡ backtrack → view (nom.separated_pair p sep q i) ≡ backtrack
      separated_pair-backtrack i u = nom.separated_pair-view p sep q i ∙ rw u refl

      pub delimited-reads :
          (i j k l : Text) (a : A) (x : S) (b : B)
          → view (p i) ≡ read j a
          → view (q j) ≡ read k b
          → view (sep k) ≡ read l x
          → view (nom.delimited p q sep i) ≡ read l b
      delimited-reads i j k l a x b u v w = nom.delimited-view p q sep i ∙ rw (u, v, w) refl

      pub delimited-backtrack :
          (i : Text) → view (p i) ≡ backtrack → view (nom.delimited p q sep i) ≡ backtrack
      delimited-backtrack i u = nom.delimited-view p q sep i ∙ rw u refl

  module _ {A B : Type 0} (p : Text → IResult nom.Kind A) (f : A → B) where
    pub map-reads :
        (i j : Text) (a : A) → view (p i) ≡ read j a → view (nom.map p f i) ≡ read j (f a)
    map-reads i j a u = nom.map-view p f i ∙ rw u refl

    pub map-backtrack : (i : Text) → view (p i) ≡ backtrack → view (nom.map p f i) ≡ backtrack
    map-backtrack i u = nom.map-view p f i ∙ rw u refl

  module _ {A : Type 0} (p : Text → IResult nom.Kind A) where
    pub recognize-backtrack :
        (i : Text) → view (p i) ≡ backtrack → view (nom.recognize p i) ≡ backtrack
    recognize-backtrack i u = nom.recognize-view p i ∙ rw u refl

    pub recognize-reads :
        (i j : Text) (a : A)
        → view (p i) ≡ read j a
        → view (nom.recognize p i) ≡ read j (take (length i - length j) i)
    recognize-reads i j a u = nom.recognize-view p i ∙ rw u refl

  module _ {A : Type 0} (p q : Text → IResult nom.Kind A) where
    pub alt-first : (i j : Text) (a : A) → view (p i) ≡ read j a → view (nom.alt p q i) ≡ read j a
    alt-first i j a u = nom.alt-view p q i ∙ rw u refl

    pub alt-second : (i : Text) → view (p i) ≡ backtrack → view (nom.alt p q i) ≡ view (q i)
    alt-second i u = nom.alt-view p q i ∙ rw u refl
