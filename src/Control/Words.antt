-- ===== src/Control/Words.antt =====
-- src/controller/protocol.rs: how a line is split into its command and its arguments.
use plexy.Prelude.{
  ◌≡◌, refl, not, [], ◌∷◌, ◌++◌, Option, none, some, Text, to_ascii_uppercase, AllOf, arith, ◌==◌,
}
use plexy.Tunnel.{F32, TunnelOptions}
use plexy.Nom.{Nom}
use plexy.Control.Request.{splitn2, request_from_str}

-- A word without a space.
abbrev pub IsWord : Text → Type 0
IsWord = AllOf (λ c. not (c == b' '))

pub splitn2-append : (w s : Text) → IsWord w → splitn2 (w ++ b' ' ∷ s) ≡ (w, some s)
unfolding splitn2
splitn2-append [] s h = refl
splitn2-append (c ∷ w) s (x, h) = rw (splitn2-append w s h) (ground (arith, x))

pub splitn2-word : (w : Text) → IsWord w → splitn2 w ≡ (w, none)
unfolding splitn2
splitn2-word [] h = refl
splitn2-word (c ∷ w) (x, h) = rw (splitn2-word w h) (ground (arith, x))

module _ (nom : Nom) (parse_f32 : Text → Option F32) (default : TunnelOptions) where
  -- Two words that differ in the case of ASCII letters only are the same command: with the same text
  -- behind a space they are read as the same request or refused with the same error, and so are they
  -- alone.
  pub request_from_str-case :
      (w w' : Text)
      → IsWord w
      → IsWord w'
      → to_ascii_uppercase w ≡ to_ascii_uppercase w'
      → ((s : Text)
          → request_from_str nom parse_f32 default (w ++ b' ' ∷ s)
            ≡ request_from_str nom parse_f32 default (w' ++ b' ' ∷ s))
        × (request_from_str nom parse_f32 default w ≡ request_from_str nom parse_f32 default w')
  unfolding request_from_str
  request_from_str-case w w' h h' e = (
    λ s. rw (splitn2-append w s h, splitn2-append w' s h', e) refl,
    rw (splitn2-word w h, splitn2-word w' h', e) refl,
  )
