-- ===== src/Tunnel/Accepted.antt =====
-- src/tunnel/parser.rs: which options are accepted, told from their keys and values alone.
use plexy.Prelude.{
  ◌^◌, ◌≡◌, refl, ◌⊎◌, inl, inr, Bool, true, false, ◌&&◌, ◌||◌, List, [], ◌∷◌, Option, none, some,
  is_some, Text, codes, text_eq, text_eq-eq, to_ascii_lowercase, parse_unsigned, Bool-cases,
}
use plexy.Tunnel.{F32, TunnelOptions}
use plexy.Tunnel.Parser.{Applied, applied, rejected, assign, parse_bool, set_option, set_options}
use plexy.Tunnel.Settings.{parse_strategy}

-- The key in lower case is the name, and the value can be read.
abbrev pub accepts {ℓ} : {A : Type ℓ} → Text → (Text → Option A) → Text × Text → Bool
accepts name parse (k, v) = text_eq (to_ascii_lowercase k) name && is_some (parse v)

-- Options whose test is `b` are applied if it is true, and rejected if not.
abbrev pub IsDecided : Bool → Applied → Type 0
IsDecided b r =
    ((b ≡ true) × ((o : TunnelOptions) × (r ≡ applied o)))
    ⊎ ((b ≡ false) × ((w : Text) × (r ≡ rejected w)))

assign-IsDecided :
    {A : Type 0} (v : Text) (p : Option A) (set : A → TunnelOptions)
    → IsDecided (is_some p || false) (assign v p set)
assign-IsDecided v none set = inr (refl, (v, refl))
assign-IsDecided v (some a) set = inl (refl, (set a, refl))

module _ (parse_f32 : Text → Option F32) where
  -- One of the six keys, in any case, with a value of its kind.
  unfoldable pub is_accepted : Text × Text → Bool
  is_accepted x =
      accepts (codes "strategy") parse_strategy x
      || (accepts (codes "retries") (parse_unsigned (2 ^ 16)) x
          || (accepts (codes "timeout") parse_f32 x
              || (accepts (codes "errors") (parse_unsigned (2 ^ 64)) x
                  || (accepts (codes "check-interval") parse_f32 x
                      || (accepts (codes "remote-tls") parse_bool x || false)))))

  unfoldable pub all_accepted : List (Text × Text) → Bool
  unfolding is_accepted
  all_accepted [] = true
  all_accepted (x ∷ xs) = is_accepted x && all_accepted xs

  module _ (o : TunnelOptions) (k v : Text) where
    abbrev Decided : Type 0
    Decided = IsDecided (is_accepted (k, v)) (set_option parse_f32 o k v)

    strategy-IsDecided : to_ascii_lowercase k ≡ codes "strategy" → Decided
    unfolding set_option is_accepted text_eq
    strategy-IsDecided q = rw q (assign-IsDecided v (parse_strategy v) _)

    retries-IsDecided : to_ascii_lowercase k ≡ codes "retries" → Decided
    unfolding set_option is_accepted text_eq
    retries-IsDecided q = rw q (assign-IsDecided v (parse_unsigned (2 ^ 16) v) _)

    timeout-IsDecided : to_ascii_lowercase k ≡ codes "timeout" → Decided
    unfolding set_option is_accepted text_eq
    timeout-IsDecided q = rw q (assign-IsDecided v (parse_f32 v) _)

    errors-IsDecided : to_ascii_lowercase k ≡ codes "errors" → Decided
    unfolding set_option is_accepted text_eq
    errors-IsDecided q = rw q (assign-IsDecided v (parse_unsigned (2 ^ 64) v) _)

    check_interval-IsDecided : to_ascii_lowercase k ≡ codes "check-interval" → Decided
    unfolding set_option is_accepted text_eq
    check_interval-IsDecided q = rw q (assign-IsDecided v (parse_f32 v) _)

    remote_tls-IsDecided : to_ascii_lowercase k ≡ codes "remote-tls" → Decided
    unfolding set_option is_accepted text_eq
    remote_tls-IsDecided q = rw q (assign-IsDecided v (parse_bool v) _)

    unknown-IsDecided :
        (text_eq (to_ascii_lowercase k) (codes "strategy") ≡ false)
        → (text_eq (to_ascii_lowercase k) (codes "retries") ≡ false)
        → (text_eq (to_ascii_lowercase k) (codes "timeout") ≡ false)
        → (text_eq (to_ascii_lowercase k) (codes "errors") ≡ false)
        → (text_eq (to_ascii_lowercase k) (codes "check-interval") ≡ false)
        → (text_eq (to_ascii_lowercase k) (codes "remote-tls") ≡ false)
        → Decided
    unfolding set_option is_accepted
    unknown-IsDecided a b c d e f = rw (a, b, c, d, e, f) (inr (refl, (k, refl)))

    set_option-IsDecided : Decided
    set_option-IsDecided =
        let key = to_ascii_lowercase k in
        elim (Bool-cases (text_eq key (codes "strategy"))) [
          | inl t ↦ strategy-IsDecided (text_eq-eq key (codes "strategy") t)
          | inr a ↦ elim (Bool-cases (text_eq key (codes "retries"))) [
            | inl t ↦ retries-IsDecided (text_eq-eq key (codes "retries") t)
            | inr b ↦ elim (Bool-cases (text_eq key (codes "timeout"))) [
              | inl t ↦ timeout-IsDecided (text_eq-eq key (codes "timeout") t)
              | inr c ↦ elim (Bool-cases (text_eq key (codes "errors"))) [
                | inl t ↦ errors-IsDecided (text_eq-eq key (codes "errors") t)
                | inr d ↦ elim (Bool-cases (text_eq key (codes "check-interval"))) [
                  | inl t ↦ check_interval-IsDecided (text_eq-eq key (codes "check-interval") t)
                  | inr e ↦ elim (Bool-cases (text_eq key (codes "remote-tls"))) [
                    | inl t ↦ remote_tls-IsDecided (text_eq-eq key (codes "remote-tls") t)
                    | inr f ↦ unknown-IsDecided a b c d e f
                  ]
                ]
              ]
            ]
          ]
        ]

  pub set_options-IsDecided :
      (o : TunnelOptions) (xs : List (Text × Text))
      → IsDecided (all_accepted xs) (set_options parse_f32 o xs)
  unfolding set_options all_accepted
  set_options-IsDecided o [] = inl (refl, (o, refl))
  set_options-IsDecided o ((k, v) ∷ xs) = elim (set_option-IsDecided o k v) [
    | inl (e, (u, f)) ↦ rw (e, f, set_options) (set_options-IsDecided u xs)
    | inr (e, (w, f)) ↦ rw (e, f, set_options) (inr (refl, (w, refl)))
  ]
