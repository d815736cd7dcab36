-- ===== src/Nom/Plain.antt =====
-- A plain implementation of the combinators, for concrete runs.
use plexy.Prelude.{
  ℕ, zero, suc, ◌^◌, ◌≤◌, ◌<◌, ◌≡◌, refl, sym, ap, ◌∙◌, not, List, [], Text, arith, length,
  length-append,
}
use mathlib.Core.Path.{fun_ext}
use plexy.Nom.Meaning.{
  Seen, read, backtrack, fatal, seen_map, seen_then, seen_alt, seen_opt, seen_recognize,
  seen_verify, seen_all, seen_separated, seen_delimited, seen_list, seen_tail, seen_more, seen_tag,
  seen_char, seen_while, seen_while_m_n, seen_alpha1, seen_number, Consumes, Leaves,
}
use plexy.Nom.{IResult, done, error, failure, view, Nom}

abbrev pub Kind : Type 0
Kind = Unit

abbrev pub plain : {A : Type 0} → Seen A → IResult Kind A
plain (read rest a) = done rest a
plain backtrack = error tt []
plain fatal = failure tt []

pub view-plain : {A : Type 0} (s : Seen A) → view (plain s) ≡ s
view-plain (read rest a) = refl
view-plain backtrack = refl
view-plain fatal = refl

module _ {S A : Type 0} (sep : Text → Seen S) (p : Text → Seen A) where
  -- The elements of a list, at most so many.
  unfoldable pub elements : ℕ → Text → Seen (List A)
  elements zero i = backtrack
  elements (suc n) i = seen_list sep p (elements n) i

  module _ (consumes : Consumes sep) (leaves : Leaves p) where
    rest-le : (i rest : Text) (a : A) → p i ≡ read rest a → length rest ≤ length i
    rest-le i rest a e =
        let (h, q) = leaves i rest a e in
        omega (arith, ap (λ (t : Text). length t) q, length-append h rest)

    tail_same :
        (f g : Text → Seen (List A)) (i rest : Text) (a : A) (s : Seen S)
        → sep rest ≡ s
        → ((after : Text) → length after < length rest → f after ≡ g after)
        → seen_tail f rest a s ≡ seen_tail g rest a s
    tail_same f g i rest a (read after x) e same =
        ap (seen_more rest a) (same after (consumes rest after x e))
    tail_same f g i rest a backtrack e same = refl
    tail_same f g i rest a fatal e same = refl

    list_same :
        (f g : Text → Seen (List A)) (i : Text) (s : Seen A)
        → p i ≡ s
        → ((after : Text) → length after < length i → f after ≡ g after)
        → seen_then s (λ rest a. seen_tail f rest a (sep rest))
          ≡ seen_then s (λ rest a. seen_tail g rest a (sep rest))
    list_same f g i (read rest a) e same =
        tail_same f g i rest a (sep rest) refl
          λ after lt. same after (omega (arith, rest-le i rest a e))
    list_same f g i backtrack e same = refl
    list_same f g i fatal e same = refl

    -- More rounds than characters are enough.
    elements_same : (n m : ℕ) (i : Text) → length i < n → length i < m → elements n i ≡ elements m i
    unfolding elements
    elements_same zero m i h k = absurd (omega arith)
    elements_same (suc n) zero i h k = absurd (omega arith)
    elements_same (suc n) (suc m) i h k =
        list_same (elements n) (elements m) i (p i) refl
          λ after lt. elements_same n m after (omega arith) (omega arith)

    pub elements-round :
        (i : Text)
        → elements (suc (length i)) i ≡ seen_list sep p (λ j. elements (suc (length j)) j) i
    unfolding elements
    elements-round i =
        list_same (elements (length i)) (λ j. elements (suc (length j)) j) i (p i) refl
          λ after lt. elements_same (length i) (suc (length after)) after lt (omega arith)

unfoldable pub plain_list1 :
    {S A : Type 0}
    → (Text → IResult Kind S)
    → (Text → IResult Kind A)
    → Text
    → IResult Kind (List A)
plain_list1 sep p i = plain (elements (λ j. view (sep j)) (λ j. view (p j)) (suc (length i)) i)

pub plain_list1-view :
    {S A : Type 0} (sep : Text → IResult Kind S) (p : Text → IResult Kind A)
    → Consumes (λ i. view (sep i))
    → Leaves (λ i. view (p i))
    → (i : Text)
    → view (plain_list1 sep p i)
      ≡ seen_list (λ j. view (sep j)) (λ j. view (p j)) (λ j. view (plain_list1 sep p j)) i
unfolding plain_list1
plain_list1-view sep p c l i =
    view-plain _
    ∙ elements-round (λ j. view (sep j)) (λ j. view (p j)) c l i
    ∙ ap (λ (f : Text → Seen (List _)). seen_list (λ j. view (sep j)) (λ j. view (p j)) f i)
        (fun_ext λ j. sym (view-plain _))

abbrev pub plain_nom : Nom
plain_nom = record {
  Kind = Kind;
  debug = λ k. [];
  verify_kind = tt;
  tag = λ t i. plain (seen_tag t i);
  char = λ c i. plain (seen_char c i);
  take_while = λ p i. plain (seen_while p i);
  take_while_m_n = λ m n p i. plain (seen_while_m_n m n p i);
  take_till = λ p i. plain (seen_while (λ c. not (p c)) i);
  alpha1 = λ i. plain (seen_alpha1 i);
  u8 = λ i. plain (seen_number (2 ^ 8) i);
  u16 = λ i. plain (seen_number (2 ^ 16) i);
  map = λ p f i. plain (seen_map f (view (p i)));
  alt = λ p q i. plain (seen_alt (view (p i)) (view (q i)));
  opt = λ p i. plain (seen_opt i (view (p i)));
  recognize = λ p i. plain (seen_recognize i (view (p i)));
  verify = λ p ok i. plain (seen_verify ok (view (p i)));
  all_consuming = λ p i. plain (seen_all (view (p i)));
  pair = λ p q i. plain (seen_then (view (p i)) (λ rest a. seen_map (λ b. (a, b)) (view (q rest))));
  separated_pair =
      λ p sep q i. plain (seen_separated (view (p i)) (λ j. view (sep j)) (λ j. view (q j)));
  delimited = λ p q r i. plain (seen_delimited (view (p i)) (λ j. view (q j)) (λ j. view (r j)));
  separated_list1 = plain_list1;
  tag-view = λ t i. view-plain _;
  char-view = λ c i. view-plain _;
  take_while-view = λ p i. view-plain _;
  take_while_m_n-view = λ m n p i. view-plain _;
  take_till-view = λ p i. view-plain _;
  alpha1-view = λ i. view-plain _;
  u8-view = λ i. view-plain _;
  u16-view = λ i. view-plain _;
  map-view = λ p f i. view-plain _;
  alt-view = λ p q i. view-plain _;
  opt-view = λ p i. view-plain _;
  recognize-view = λ p i. view-plain _;
  verify-view = λ p ok i. view-plain _;
  all_consuming-view = λ p i. view-plain _;
  pair-view = λ p q i. view-plain _;
  separated_pair-view = λ p sep q i. view-plain _;
  delimited-view = λ p q r i. view-plain _;
  separated_list1-view = plain_list1-view;
}
