-- ===== src/Maps.antt =====
-- The two map libraries that the program calls, dashmap's `DashMap` and indexmap's `IndexMap`, as
-- interfaces: their operations, with the documented laws that the code relies on. Keys are the
-- program's `SocketSpec`s.
pub mod Assoc
use plexy.Prelude.{
  ℕ, suc, ◌+◌, ◌≡◌, Text, List, [], ◌∷◌, ◌++◌, map, Option, none, some, ite, length, get_elem?,
  option_map,
}
use plexy.Tunnel.{SocketSpec, SocketSpec-discrete}

-- The part that both maps have.
pub record KeyedMap : Type 1 where
  pub Map : Type 0 → Type 0
  pub empty : {V : Type 0} → Map V
  -- `get`, and with `is_some` `contains_key`
  pub get : {V : Type 0} → SocketSpec → Map V → Option V
  pub insert : {V : Type 0} → SocketSpec → V → Map V → Map V
  -- what is left by `remove`; the value it returns is that of `get` before
  pub remove : {V : Type 0} → SocketSpec → Map V → Map V
  -- `if let Some(v) = m.get_mut(k) { *v = f(*v) }`
  pub modify : {V : Type 0} → SocketSpec → (V → V) → Map V → Map V
  -- `for (_, v) in m.iter_mut() { *v = f(*v) }`
  pub modify_all : {V : Type 0} → (V → V) → Map V → Map V
  -- `iter`, in the map's order
  pub entries : {V : Type 0} → Map V → List (SocketSpec × V)
  pub get-empty : {V : Type 0} (j : SocketSpec) → get {V = V} j empty ≡ none
  pub get-insert :
      {V : Type 0} (k j : SocketSpec) (v : V) (m : Map V)
      → get j (insert k v m) ≡ ite (SocketSpec-discrete k j) (some v) (get j m)
  pub get-remove :
      {V : Type 0} (k j : SocketSpec) (m : Map V)
      → get j (remove k m) ≡ ite (SocketSpec-discrete k j) none (get j m)
  pub get-modify :
      {V : Type 0} (k j : SocketSpec) (f : V → V) (m : Map V)
      → get j (modify k f m) ≡ ite (SocketSpec-discrete k j) (option_map f (get j m)) (get j m)
  pub get-modify_all :
      {V : Type 0} (f : V → V) (j : SocketSpec) (m : Map V)
      → get j (modify_all f m) ≡ option_map f (get j m)
  pub entries-get :
      {V : Type 0} (m : Map V) (i : ℕ) (k : SocketSpec) (v : V)
      → get_elem? (entries m) i ≡ some (k, v)
      → get k m ≡ some v
  pub get-entries :
      {V : Type 0} (m : Map V) (k : SocketSpec) (v : V)
      → get k m ≡ some v
      → (i : ℕ) × (get_elem? (entries m) i ≡ some (k, v))
  pub entries-empty : {V : Type 0} → entries (empty {V = V}) ≡ []
  -- `len`: an insertion under a new key makes the map longer by one, a removal shorter by one
  pub length-insert :
      {V : Type 0} (k : SocketSpec) (v : V) (m : Map V)
      → get k m ≡ none
      → length (entries (insert k v m)) ≡ suc (length (entries m))
  pub length-remove :
      {V : Type 0} (k : SocketSpec) (v : V) (m : Map V)
      → get k m ≡ some v
      → suc (length (entries (remove k m))) ≡ length (entries m)
  pub entries-remove_missing :
      {V : Type 0} (k : SocketSpec) (m : Map V) → get k m ≡ none → entries (remove k m) ≡ entries m
  -- a write through `get_mut` moves no entry
  pub entries-modify :
      {V : Type 0} (k : SocketSpec) (f : V → V) (m : Map V)
      → entries (modify k f m)
        ≡ map
            (λ (e : SocketSpec × V). (e.0, ite (SocketSpec-discrete k e.0) (f e.1) e.1))
            (entries m)

-- indexmap's `IndexMap`: its entries have positions.
pub record IndexMap : Type 1 where
  pub keyed : KeyedMap
  pub open keyed use *
  pub get_index : {V : Type 0} → ℕ → Map V → Option (SocketSpec × V)
  pub get_index-entries : {V : Type 0} (i : ℕ) (m : Map V) → get_index i m ≡ get_elem? (entries m) i
