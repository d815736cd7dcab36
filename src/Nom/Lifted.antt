-- ===== src/Nom/Lifted.antt =====
-- Pairs, recognized parts, verified parsers and lists of nom: where they stop, and what they leave.
use plexy.Prelude.{◌≡◌, inl, inr, ap, sym, ◌∙◌, Bool, ◌++◌, append_assoc, Text}
use plexy.Nom.{Nom, IResult, view}
use plexy.Nom.Meaning.{Leaves, Consumes}
use plexy.Nom.Stops.{Stops}
use plexy.Nom.Combined.{
  seen_recognize-Stops, seen_verify-Stops, seen_pair-Stops, seen_pair-Leaves, seen_map-read,
}
use plexy.Nom.Listed.{HeadOnly, Reads, list-Stops, list-Leaves}
use plexy.Nom.Reads.{
  Stops-cong, Leaves-cong, seen_alt-read, seen_separated-read, seen_delimited-read,
}

three_Leaves :
    (i rest after r : Text)
    → (h : Text) × (i ≡ h ++ rest)
    → (h : Text) × (rest ≡ h ++ after)
    → (h : Text) × (after ≡ h ++ r)
    → (h : Text) × (i ≡ h ++ r)
three_Leaves i rest after r (h, u) (k, v) (m, w) = (
  h ++ (k ++ m),
  u
      ∙ ap (λ (t : Text). h ++ t) (v ∙ ap (λ (t : Text). k ++ t) w ∙ sym (append_assoc k m r))
      ∙ sym (append_assoc h (k ++ m) r),
)

module _ (nom : Nom) where
  module _ {A B : Type 0} (p : Text → IResult nom.Kind A) (q : Text → IResult nom.Kind B)
      (leaves_p : Leaves (λ i. view (p i))) (leaves_q : Leaves (λ i. view (q i))) where
    pub pair-Leaves : Leaves (λ i. view (nom.pair p q i))
    pair-Leaves =
        Leaves-cong (nom.pair-view p q)
          (seen_pair-Leaves (λ i. view (p i)) (λ i. view (q i)) leaves_p leaves_q)

    pub pair-Stops :
        Stops (λ i. view (p i)) → Stops (λ i. view (q i)) → Stops (λ i. view (nom.pair p q i))
    pair-Stops stops_p stops_q =
        Stops-cong (nom.pair-view p q)
          (seen_pair-Stops (λ i. view (p i)) (λ i. view (q i)) leaves_p leaves_q stops_p stops_q)

  module _ {A : Type 0} (p : Text → IResult nom.Kind A) where
    pub recognize-Stops : Stops (λ i. view (p i)) → Stops (λ i. view (nom.recognize p i))
    recognize-Stops stops =
        Stops-cong (nom.recognize-view p) (seen_recognize-Stops (λ i. view (p i)) stops)

    pub verify-Stops :
        (ok : A → Bool) → Stops (λ i. view (p i)) → Stops (λ i. view (nom.verify p ok i))
    verify-Stops ok stops =
        Stops-cong (nom.verify-view p ok) (seen_verify-Stops (λ i. view (p i)) ok stops)

    module _ {S : Type 0} (sep : Text → IResult nom.Kind S)
        (consumes : Consumes (λ i. view (sep i))) (leaves_sep : Leaves (λ i. view (sep i)))
        (leaves : Leaves (λ i. view (p i))) where
      pub separated_list1-Leaves : Leaves (λ i. view (nom.separated_list1 sep p i))
      separated_list1-Leaves =
          list-Leaves (λ i. view (sep i)) (λ i. view (p i))
            (λ i. view (nom.separated_list1 sep p i))
            (nom.separated_list1-view sep p consumes leaves) consumes leaves_sep leaves

      pub separated_list1-Stops :
          Stops (λ i. view (sep i))
          → Stops (λ i. view (p i))
          → HeadOnly (λ i. view (sep i))
          → Reads (λ i. view (p i))
          → Stops (λ i. view (nom.separated_list1 sep p i))
      separated_list1-Stops stops_sep stops head reads =
          list-Stops (λ i. view (sep i)) (λ i. view (p i)) (λ i. view (nom.separated_list1 sep p i))
            (nom.separated_list1-view sep p consumes leaves) consumes leaves_sep leaves stops_sep
            stops head reads

  module _ {A B : Type 0} (p : Text → IResult nom.Kind A) (f : A → B) where
    pub map-Leaves : Leaves (λ i. view (p i)) → Leaves (λ i. view (nom.map p f i))
    map-Leaves leaves i r b e =
        let (a, u, _) = seen_map-read f (view (p i)) (sym (nom.map-view p f i) ∙ e) in
        leaves i r a u

  module _ {A : Type 0} (p q : Text → IResult nom.Kind A) where
    pub alt-Leaves :
        Leaves (λ i. view (p i)) → Leaves (λ i. view (q i)) → Leaves (λ i. view (nom.alt p q i))
    alt-Leaves lp lq i r a e =
        elim (seen_alt-read (view (p i)) (view (q i)) r a (sym (nom.alt-view p q i) ∙ e)) [
          | inl u ↦ lp i r a u
          | inr (_, u) ↦ lq i r a u
        ]

  module _ {A S B : Type 0} (p : Text → IResult nom.Kind A) (sep : Text → IResult nom.Kind S)
      (q : Text → IResult nom.Kind B) (lp : Leaves (λ i. view (p i)))
      (ls : Leaves (λ i. view (sep i))) (lq : Leaves (λ i. view (q i))) where
    pub separated_pair-Leaves : Leaves (λ i. view (nom.separated_pair p sep q i))
    separated_pair-Leaves i r c e =
        let (rest, after, x, u, v, w) =
          seen_separated-read (view (p i)) (λ j. view (sep j)) (λ j. view (q j)) r c
            (sym (nom.separated_pair-view p sep q i) ∙ e) in
        three_Leaves i rest after r (lp i rest c.0 u) (ls rest after x v) (lq after r c.1 w)

    pub delimited-Leaves : Leaves (λ i. view (nom.delimited p sep q i))
    delimited-Leaves i r c e =
        let (rest, after, a, x, u, v, w) =
          seen_delimited-read (view (p i)) (λ j. view (sep j)) (λ j. view (q j)) r c
            (sym (nom.delimited-view p sep q i) ∙ e) in
        three_Leaves i rest after r (lp i rest a u) (ls rest after c v) (lq after r x w)
