-- ===== src/Tunnel/Settings.antt =====
-- src/tunnel/parser.rs: what a list of options makes of each field.
use plexy.Prelude.{
  ◌^◌, ◌≡◌, refl, ap, ◌∙◌, inl, inr, ◌⊎◌, false, List, [], ◌∷◌, Option, none, some, Text, codes,
  text_eq, text_eq-eq, to_ascii_lowercase, parse_unsigned, Bool-cases, if◌then◌else◌, subst,
}
use plexy.Strategy.{TunnelLbStrategy, strategy_from_str}
use plexy.Tunnel.{F32, TunnelOptions}
use plexy.Tunnel.Parser.{
  Applied, applied, rejected, assign, result_option, parse_bool, set_option, set_options,
}

pub Applied-cases :
    (x : Applied) → ((o : TunnelOptions) × (x ≡ applied o)) ⊎ ((v : Text) × (x ≡ rejected v))
Applied-cases (applied o) = inl (o, refl)
Applied-cases (rejected v) = inr (v, refl)

abbrev pub or_old {ℓ} : {A : Type ℓ} → Option A → A → A
or_old none old = old
or_old (some a) old = a

-- A field after one option: the value, if the key in lower case is the field's.
abbrev pub setting {ℓ} : {A : Type ℓ} → Text → (Text → Option A) → Text × Text → A → A
setting name parse (k, v) old =
    if text_eq (to_ascii_lowercase k) name then or_old (parse v) old else old

-- A field after some options: the value of the last one with the field's key.
abbrev pub last_setting {ℓ} : {A : Type ℓ} → Text → (Text → Option A) → List (Text × Text) → A → A
last_setting name parse [] old = old
last_setting name parse (x ∷ xs) old = last_setting name parse xs (setting name parse x old)

assign-applied :
    {A : Type 0} (v : Text) (p : Option A) (set : A → TunnelOptions) (o : TunnelOptions)
    → assign v p set ≡ applied o
    → (a : A) × (p ≡ some a) × (set a ≡ o)
assign-applied v none set o e = cc
assign-applied v (some a) set o e = (a, refl, cc)

abbrev pub parse_strategy : Text → Option TunnelLbStrategy
parse_strategy v = result_option (strategy_from_str v)

module _ (parse_f32 : Text → Option F32) where
  -- The fields of `o'` are those of `o` as a change of settings gives them, field by field.
  abbrev pub HasFields :
      ((A : Type 0) → Text → (Text → Option A) → A → A) → TunnelOptions → TunnelOptions → Type 0
  HasFields change o o' =
      (o'.lb_strategy ≡ change _ (codes "strategy") parse_strategy o.lb_strategy)
      × (o'.remote_connect_retries
          ≡ change _ (codes "retries") (parse_unsigned (2 ^ 16)) o.remote_connect_retries)
      × (o'.options.connect_timeout
          ≡ change _ (codes "timeout") parse_f32 o.options.connect_timeout)
      × (o'.options.errors_till_dead
          ≡ change _ (codes "errors") (parse_unsigned (2 ^ 64)) o.options.errors_till_dead)
      × (o'.options.dead_retry ≡ change _ (codes "check-interval") parse_f32 o.options.dead_retry)
      × (o'.options.tls ≡ change _ (codes "remote-tls") parse_bool o.options.tls)

  AfterOption : Text × Text → TunnelOptions → TunnelOptions → Type 0
  AfterOption x = HasFields (λ A name parse old. setting name parse x old)

  strategy-set :
      (o o' : TunnelOptions) (k v : Text)
      → to_ascii_lowercase k ≡ codes "strategy"
      → set_option parse_f32 o k v ≡ applied o'
      → AfterOption (k, v) o o'
  unfolding set_option text_eq AfterOption
  strategy-set o o' k v q e =
      let (a, p, s) = assign-applied v _ _ o' (rw q at e) in
      subst (AfterOption (k, v) o) s (rw (q, p) (refl, refl, refl, refl, refl, refl))

  retries-set :
      (o o' : TunnelOptions) (k v : Text)
      → to_ascii_lowercase k ≡ codes "retries"
      → set_option parse_f32 o k v ≡ applied o'
      → AfterOption (k, v) o o'
  unfolding set_option text_eq AfterOption
  retries-set o o' k v q e =
      let (a, p, s) = assign-applied v _ _ o' (rw q at e) in
      subst (AfterOption (k, v) o) s (rw (q, p) (refl, refl, refl, refl, refl, refl))

  timeout-set :
      (o o' : TunnelOptions) (k v : Text)
      → to_ascii_lowercase k ≡ codes "timeout"
      → set_option parse_f32 o k v ≡ applied o'
      → AfterOption (k, v) o o'
  unfolding set_option text_eq AfterOption
  timeout-set o o' k v q e =
      let (a, p, s) = assign-applied v _ _ o' (rw q at e) in
      subst (AfterOption (k, v) o) s (rw (q, p) (refl, refl, refl, refl, refl, refl))

  errors-set :
      (o o' : TunnelOptions) (k v : Text)
      → to_ascii_lowercase k ≡ codes "errors"
      → set_option parse_f32 o k v ≡ applied o'
      → AfterOption (k, v) o o'
  unfolding set_option text_eq AfterOption
  errors-set o o' k v q e =
      let (a, p, s) = assign-applied v _ _ o' (rw q at e) in
      subst (AfterOption (k, v) o) s (rw (q, p) (refl, refl, refl, refl, refl, refl))

  check_interval-set :
      (o o' : TunnelOptions) (k v : Text)
      → to_ascii_lowercase k ≡ codes "check-interval"
      → set_option parse_f32 o k v ≡ applied o'
      → AfterOption (k, v) o o'
  unfolding set_option text_eq AfterOption
  check_interval-set o o' k v q e =
      let (a, p, s) = assign-applied v _ _ o' (rw q at e) in
      subst (AfterOption (k, v) o) s (rw (q, p) (refl, refl, refl, refl, refl, refl))

  remote_tls-set :
      (o o' : TunnelOptions) (k v : Text)
      → to_ascii_lowercase k ≡ codes "remote-tls"
      → set_option parse_f32 o k v ≡ applied o'
      → AfterOption (k, v) o o'
  unfolding set_option text_eq AfterOption
  remote_tls-set o o' k v q e =
      let (a, p, s) = assign-applied v _ _ o' (rw q at e) in
      subst (AfterOption (k, v) o) s (rw (q, p) (refl, refl, refl, refl, refl, refl))

  unknown-set :
      (o o' : TunnelOptions) (k v : Text)
      → (text_eq (to_ascii_lowercase k) (codes "strategy") ≡ false)
      → (text_eq (to_ascii_lowercase k) (codes "retries") ≡ false)
      → (text_eq (to_ascii_lowercase k) (codes "timeout") ≡ false)
      → (text_eq (to_ascii_lowercase k) (codes "errors") ≡ false)
      → (text_eq (to_ascii_lowercase k) (codes "check-interval") ≡ false)
      → (text_eq (to_ascii_lowercase k) (codes "remote-tls") ≡ false)
      → set_option parse_f32 o k v ≡ applied o'
      → ⊥
  unfolding set_option
  unknown-set o o' k v a b c d f g e = let q = rw (a, b, c, d, f, g) at e in cc

  set_option-AfterOption :
      (o o' : TunnelOptions) (k v : Text)
      → set_option parse_f32 o k v ≡ applied o'
      → AfterOption (k, v) o o'
  set_option-AfterOption o o' k v e =
      let key = to_ascii_lowercase k in
      elim (Bool-cases (text_eq key (codes "strategy"))) [
        | inl t ↦ strategy-set o o' k v (text_eq-eq key (codes "strategy") t) e
        | inr a ↦ elim (Bool-cases (text_eq key (codes "retries"))) [
          | inl t ↦ retries-set o o' k v (text_eq-eq key (codes "retries") t) e
          | inr b ↦ elim (Bool-cases (text_eq key (codes "timeout"))) [
            | inl t ↦ timeout-set o o' k v (text_eq-eq key (codes "timeout") t) e
            | inr c ↦ elim (Bool-cases (text_eq key (codes "errors"))) [
              | inl t ↦ errors-set o o' k v (text_eq-eq key (codes "errors") t) e
              | inr d ↦ elim (Bool-cases (text_eq key (codes "check-interval"))) [
                | inl t ↦ check_interval-set o o' k v (text_eq-eq key (codes "check-interval") t) e
                | inr f ↦ elim (Bool-cases (text_eq key (codes "remote-tls"))) [
                  | inl t ↦ remote_tls-set o o' k v (text_eq-eq key (codes "remote-tls") t) e
                  | inr g ↦ absurd (unknown-set o o' k v a b c d f g e)
                ]
              ]
            ]
          ]
        ]
      ]

  -- Options that are all accepted give each field the value of the last option whose key in lower
  -- case is the field's, and its value before where there is none.
  pub set_options-last :
      (o o' : TunnelOptions) (xs : List (Text × Text))
      → set_options parse_f32 o xs ≡ applied o'
      → HasFields (λ A name parse old. last_setting name parse xs old) o o'
  unfolding set_options AfterOption
  set_options-last o o' [] e =
      let q : o ≡ o' = cc in
      subst (HasFields (λ A name parse old. old) o) q (refl, refl, refl, refl, refl, refl)
  set_options-last o o' ((k, v) ∷ xs) e = elim (Applied-cases (set_option parse_f32 o k v)) [
    | inl (u, f) ↦
        let (a, b, c, d, g, h) = set_option-AfterOption o u k v f in
        let (a', b', c', d', g', h') = set_options-last u o' xs (rw (f, set_options) at e) in
        (
          a' ∙ ap (last_setting (codes "strategy") parse_strategy xs) a,
          b' ∙ ap (last_setting (codes "retries") (parse_unsigned (2 ^ 16)) xs) b,
          c' ∙ ap (last_setting (codes "timeout") parse_f32 xs) c,
          d' ∙ ap (last_setting (codes "errors") (parse_unsigned (2 ^ 64)) xs) d,
          g' ∙ ap (last_setting (codes "check-interval") parse_f32 xs) g,
          h' ∙ ap (last_setting (codes "remote-tls") parse_bool xs) h,
        )
    | inr (x, f) ↦ absurd (let q = rw (f, set_options) at e in cc)
  ]
