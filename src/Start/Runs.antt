-- ===== src/Start/Runs.antt =====
-- src/main.rs: the tunnels that exist when the start of the program is over.
use plexy.Prelude.{
  ℕ, suc, ◌≡◌, refl, ◌⊎◌, inl, inr, Bool, true, false, List, [], ◌∷◌, Option, none, some, Text,
  is_some, arith, Bool-cases, subst, if◌then◌else◌,
}
use plexy.Tunnel.{SocketSpec, F32, Tunnel}
use plexy.Errors.{Result, ok, err, ◌>>=◌, Result-cases}
use plexy.Config.{Args}
use plexy.Maps.{KeyedMap, IndexMap}
use plexy.Nom.{Nom}
use plexy.Nom.Listed.{Every}
use plexy.State.Store.{State, ClientConfig, new_state, add_tunnel, tunnel_exists}
use plexy.Proxy.{create_tunnel}
use plexy.Start.{cli_options, take_tunnels, Launch, launch, run_main}

if-cases : {A : Type 0} (b : Bool) (x y z : A) → (if b then x else y) ≡ z → (x ≡ z) ⊎ (y ≡ z)
if-cases true x y z e = inl e
if-cases false x y z e = inr e

bind-ok :
    {A B : Type 0} (r : Result A) (f : A → Result B) {b : B}
    → (r >>= f) ≡ ok b
    → (a : A) × (r ≡ ok a) × (f a ≡ ok b)
bind-ok (ok a) f e = (a, refl, e)
bind-ok (err x) f e = cc

module _ (im : IndexMap) (dm : KeyedMap) where
  -- The other tasks do nothing.
  pub record IsLaunchQuiet (o : Launch im dm) : Type 0 where
    pub waiting : (s : State im dm) → o.waiting s ≡ s
    pub binding : (s : State im dm) → o.binding s ≡ s

  -- The parts of a start that came to its end.
  run_main-parts :
      (nom : Nom) (parse_f32 : Text → Option F32) (create : Args → Result ClientConfig)
      (o : ℕ → Launch im dm) (args : Args) (s : State im dm)
      → run_main im dm nom parse_f32 create o args ≡ ok (some s)
      → (ts : List Tunnel) × (start : State im dm) × ((take_tunnels nom parse_f32
            (cli_options args)
            args).1
          ≡ ok ts)
        × (new_state im dm create
              (cli_options args)
              (take_tunnels nom parse_f32 (cli_options args) args).0
            ≡ ok start)
        × (launch im dm o ts start ≡ s)
  unfolding run_main
  run_main-parts nom parse_f32 create o args s e =
      elim (if-cases args.help_tunnel (ok none) _ _ e) [
        | inl x ↦ cc
        | inr x ↦
            let taken = take_tunnels nom parse_f32 (cli_options args) args in
            let (ts, f, y) =
              bind-ok taken.1
                (λ ts. new_state im dm create (cli_options args) taken.0 >>= λ u.
                  ok (some (launch im dm o ts u)))
                x in
            let (start, g, z) =
              bind-ok (new_state im dm create (cli_options args) taken.0)
                (λ u. ok (some (launch im dm o ts u))) y in
            (ts, start, f, g, cc)
      ]

  insert_keeps :
      {V : Type 0} (k l : SocketSpec) (v : V) (m : dm.Map V)
      → is_some (dm.get l m) ≡ true
      → is_some (dm.get l (dm.insert k v m)) ≡ true
  insert_keeps k l v m e = ground (arith, dm.get-insert k l v m, e)

  insert_there :
      {V : Type 0} (k : SocketSpec) (v : V) (m : dm.Map V)
      → is_some (dm.get k (dm.insert k v m)) ≡ true
  insert_there k v m = ground (arith, dm.get-insert k k v m)

  module _ (binding : State im dm → State im dm) (bound : Result (Unit {0})) (c : ℕ)
      (quiet : (s : State im dm) → binding s ≡ s) (s : State im dm) (t : Tunnel) where
    -- A tunnel that exists goes on to exist when another is created.
    create_tunnel-exists :
        (l : SocketSpec)
        → tunnel_exists im dm s l ≡ true
        → tunnel_exists im dm (create_tunnel im dm binding bound c s t).0 l ≡ true
    unfolding create_tunnel add_tunnel tunnel_exists
    create_tunnel-exists l e = elim (Bool-cases (is_some (dm.get t.local s.tunnels))) [
      | inl x ↦ rw (x, create_tunnel) e
      | inr x ↦ elim (Result-cases bound) [
        | inr (y, f) ↦ rw (x, f, quiet s, create_tunnel) e
        | inl (y, f) ↦
            rw (x, f, quiet s, create_tunnel)
              (rw (x, add_tunnel) (insert_keeps t.local l _ s.tunnels e))
      ]
    ]

    create_tunnel-there :
        (y : Unit {0})
        → bound ≡ ok y
        → tunnel_exists im dm (create_tunnel im dm binding bound c s t).0 t.local ≡ true
    unfolding create_tunnel add_tunnel tunnel_exists
    create_tunnel-there y f = elim (Bool-cases (is_some (dm.get t.local s.tunnels))) [
      | inl x ↦ rw (x, create_tunnel) x
      | inr x ↦
          rw (x, f, quiet s, create_tunnel) (rw (x, add_tunnel) (insert_there t.local _ s.tunnels))
    ]

  launch-keeps :
      (o : ℕ → Launch im dm) (ts : List Tunnel) (s : State im dm) (l : SocketSpec)
      → ((n : ℕ) → IsLaunchQuiet (o n))
      → tunnel_exists im dm s l ≡ true
      → tunnel_exists im dm (launch im dm o ts s) l ≡ true
  unfolding launch
  launch-keeps o [] s l quiet e = e
  launch-keeps o (t ∷ ts) s l quiet e =
      launch-keeps (λ n. o (suc n)) ts _ l (λ n. quiet (suc n))
        (create_tunnel-exists (o 0).binding (o 0).bound (o 0).sender (quiet 0).binding
          ((o 0).waiting s) t l (rw ((quiet 0).waiting s) e))

  launch-exists :
      (o : ℕ → Launch im dm) (ts : List Tunnel) (s : State im dm)
      → ((n : ℕ) → IsLaunchQuiet (o n))
      → ((n : ℕ) → (o n).bound ≡ ok tt)
      → Every (λ t. tunnel_exists im dm (launch im dm o ts s) t.local ≡ true) ts
  unfolding launch
  launch-exists o [] s quiet bound = tt
  launch-exists o (t ∷ ts) s quiet bound = (
    launch-keeps (λ n. o (suc n)) ts _ t.local (λ n. quiet (suc n))
        (create_tunnel-there (o 0).binding (o 0).bound (o 0).sender (quiet 0).binding
          ((o 0).waiting s) t tt (bound 0)),
    launch-exists (λ n. o (suc n)) ts _ (λ n. quiet (suc n)) (λ n. bound (suc n)),
  )

  -- When every listener is bound and the other tasks do nothing meanwhile, the start of the program,
  -- if it comes to its end, has read every tunnel of the command line, and each of them exists then.
  pub run_main-exists :
      (nom : Nom) (parse_f32 : Text → Option F32) (create : Args → Result ClientConfig)
      (o : ℕ → Launch im dm) (args : Args) (s : State im dm)
      → ((n : ℕ) → IsLaunchQuiet (o n))
      → ((n : ℕ) → (o n).bound ≡ ok tt)
      → run_main im dm nom parse_f32 create o args ≡ ok (some s)
      → (ts : List Tunnel) × ((take_tunnels nom parse_f32 (cli_options args) args).1 ≡ ok ts)
        × Every (λ t. tunnel_exists im dm s t.local ≡ true) ts
  run_main-exists nom parse_f32 create o args s quiet bound e =
      let (ts, start, f, g, q) = run_main-parts nom parse_f32 create o args s e in
      (
        ts,
        f,
        subst (λ (u : State im dm). Every (λ t. tunnel_exists im dm u t.local ≡ true) ts) q
            (launch-exists o ts start quiet bound),
      )
