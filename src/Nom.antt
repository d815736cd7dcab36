-- ===== src/Nom.antt =====
-- The parser combinators of the library nom that src/tunnel/parser.rs calls, as an interface: the
-- combinators, and for each what its documentation says of the rest and the value that it gives.
pub mod Meaning
pub mod Stops
pub mod Basics
pub mod Combined
pub mod Listed
pub mod Reads
pub mod Lifted
pub mod Plain
use plexy.Prelude.{ℕ, ◌+◌, ◌^◌, ◌<◌, ◌≡◌, Bool, not, List, Option, Text, length}
use plexy.Nom.Meaning.{
  Seen, read, backtrack, fatal, seen_map, seen_then, seen_alt, seen_opt, seen_recognize,
  seen_verify, seen_all, seen_list, seen_separated, seen_delimited, seen_tag, seen_char, seen_while,
  seen_while_m_n, seen_alpha1, seen_number, Consumes, Leaves,
}

-- `IResult`: the rest with the value, or an error with its kind and the input that it stands at.
pub data IResult (K A : Type 0) : Type 0 where
  done : Text → A → IResult K A
  error failure : K → Text → IResult K A
  incomplete : IResult K A

-- What is seen of a result when the kind and the place of its error are passed over.
abbrev pub view : {K A : Type 0} → IResult K A → Seen A
view (done rest a) = read rest a
view (error k i) = backtrack
view (failure k i) = fatal
view incomplete = fatal

pub record Nom : Type 1 where
  pub Kind : Type 0
  -- `{:?}` of an error's kind
  pub debug : Kind → Text
  -- `ErrorKind::Verify`
  pub verify_kind : Kind
  pub tag : Text → Text → IResult Kind Text
  pub char : ℕ → Text → IResult Kind ℕ
  pub take_while : (ℕ → Bool) → Text → IResult Kind Text
  pub take_while_m_n : ℕ → ℕ → (ℕ → Bool) → Text → IResult Kind Text
  pub take_till : (ℕ → Bool) → Text → IResult Kind Text
  pub alpha1 : Text → IResult Kind Text
  pub u8 : Text → IResult Kind ℕ
  pub u16 : Text → IResult Kind ℕ
  pub map : {A B : Type 0} → (Text → IResult Kind A) → (A → B) → Text → IResult Kind B
  pub alt : {A : Type 0} → (Text → IResult Kind A) → (Text → IResult Kind A) → Text → IResult Kind A
  pub opt : {A : Type 0} → (Text → IResult Kind A) → Text → IResult Kind (Option A)
  pub recognize : {A : Type 0} → (Text → IResult Kind A) → Text → IResult Kind Text
  pub verify : {A : Type 0} → (Text → IResult Kind A) → (A → Bool) → Text → IResult Kind A
  pub all_consuming : {A : Type 0} → (Text → IResult Kind A) → Text → IResult Kind A
  pub pair :
      {A B : Type 0}
      → (Text → IResult Kind A)
      → (Text → IResult Kind B)
      → Text
      → IResult Kind (A × B)
  pub separated_pair :
      {A S B : Type 0}
      → (Text → IResult Kind A)
      → (Text → IResult Kind S)
      → (Text → IResult Kind B)
      → Text
      → IResult Kind (A × B)
  pub delimited :
      {A B C : Type 0}
      → (Text → IResult Kind A)
      → (Text → IResult Kind B)
      → (Text → IResult Kind C)
      → Text
      → IResult Kind B
  pub separated_list1 :
      {S A : Type 0}
      → (Text → IResult Kind S)
      → (Text → IResult Kind A)
      → Text
      → IResult Kind (List A)
  pub tag-view : (t i : Text) → view (tag t i) ≡ seen_tag t i
  pub char-view : (c : ℕ) (i : Text) → view (char c i) ≡ seen_char c i
  pub take_while-view : (p : ℕ → Bool) (i : Text) → view (take_while p i) ≡ seen_while p i
  pub take_while_m_n-view :
      (m n : ℕ) (p : ℕ → Bool) (i : Text) → view (take_while_m_n m n p i) ≡ seen_while_m_n m n p i
  pub take_till-view :
      (p : ℕ → Bool) (i : Text) → view (take_till p i) ≡ seen_while (λ c. not (p c)) i
  pub alpha1-view : (i : Text) → view (alpha1 i) ≡ seen_alpha1 i
  pub u8-view : (i : Text) → view (u8 i) ≡ seen_number (2 ^ 8) i
  pub u16-view : (i : Text) → view (u16 i) ≡ seen_number (2 ^ 16) i
  pub map-view :
      {A B : Type 0} (p : Text → IResult Kind A) (f : A → B) (i : Text)
      → view (map p f i) ≡ seen_map f (view (p i))
  pub alt-view :
      {A : Type 0} (p q : Text → IResult Kind A) (i : Text)
      → view (alt p q i) ≡ seen_alt (view (p i)) (view (q i))
  pub opt-view :
      {A : Type 0} (p : Text → IResult Kind A) (i : Text) → view (opt p i) ≡ seen_opt i (view (p i))
  pub recognize-view :
      {A : Type 0} (p : Text → IResult Kind A) (i : Text)
      → view (recognize p i) ≡ seen_recognize i (view (p i))
  pub verify-view :
      {A : Type 0} (p : Text → IResult Kind A) (ok : A → Bool) (i : Text)
      → view (verify p ok i) ≡ seen_verify ok (view (p i))
  pub all_consuming-view :
      {A : Type 0} (p : Text → IResult Kind A) (i : Text)
      → view (all_consuming p i) ≡ seen_all (view (p i))
  pub pair-view :
      {A B : Type 0} (p : Text → IResult Kind A) (q : Text → IResult Kind B) (i : Text)
      → view (pair p q i)
        ≡ seen_then (view (p i)) (λ rest a. seen_map (λ b. (a, b)) (view (q rest)))
  pub separated_pair-view :
      {A S B : Type 0} (p : Text → IResult Kind A) (sep : Text → IResult Kind S)
      (q : Text → IResult Kind B) (i : Text)
      → view (separated_pair p sep q i)
        ≡ seen_separated (view (p i)) (λ j. view (sep j)) (λ j. view (q j))
  pub delimited-view :
      {A B C : Type 0} (p : Text → IResult Kind A) (q : Text → IResult Kind B)
      (r : Text → IResult Kind C) (i : Text)
      → view (delimited p q r i) ≡ seen_delimited (view (p i)) (λ j. view (q j)) (λ j. view (r j))
  -- of a separator that always reads something, and elements that leave an end of their input
  pub separated_list1-view :
      {S A : Type 0} (sep : Text → IResult Kind S) (p : Text → IResult Kind A)
      → Consumes (λ i. view (sep i))
      → Leaves (λ i. view (p i))
      → (i : Text)
      → view (separated_list1 sep p i)
        ≡ seen_list (λ j. view (sep j)) (λ j. view (p j)) (λ j. view (separated_list1 sep p j)) i
