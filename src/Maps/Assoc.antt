-- ===== src/Maps/Assoc.antt =====
-- A map as a list of entries with distinct keys: an instance of both interfaces, for concrete runs.
use plexy.Prelude.{
  ℕ, zero, suc, ◌≡◌, refl, ap, List, [], ◌∷◌, map, Option, none, some, ite, arith, length,
  get_elem?, option_map,
}
use plexy.Tunnel.{SocketSpec, SocketSpec-discrete}
use plexy.Maps.{KeyedMap, IndexMap}

abbrev pub Items : Type 0 → Type 0
Items V = List (SocketSpec × V)

module _ {V : Type 0} where
  abbrev pub find : SocketSpec → Items V → Option V
  find k [] = none
  find k ((j, v) ∷ l) = ite (SocketSpec-discrete j k) (some v) (find k l)

  abbrev pub put : SocketSpec → V → Items V → Items V
  put k v [] = (k, v) ∷ []
  put k v ((j, w) ∷ l) = ite (SocketSpec-discrete j k) ((j, v) ∷ l) ((j, w) ∷ put k v l)

  abbrev pub delete : SocketSpec → Items V → Items V
  delete k [] = []
  delete k ((j, w) ∷ l) = ite (SocketSpec-discrete j k) (delete k l) ((j, w) ∷ delete k l)

  abbrev pub change : SocketSpec → (V → V) → Items V → Items V
  change k f = map (λ (e : SocketSpec × V). (e.0, ite (SocketSpec-discrete k e.0) (f e.1) e.1))

  abbrev pub change_all : (V → V) → Items V → Items V
  change_all f = map (λ (e : SocketSpec × V). (e.0, f e.1))

  abbrev pub Distinct : Items V → Type 0
  Distinct [] = Unit
  Distinct ((k, v) ∷ l) = (find k l ≡ none) × Distinct l

  pub find-put :
      (k j : SocketSpec) (v : V) (l : Items V)
      → find j (put k v l) ≡ ite (SocketSpec-discrete k j) (some v) (find j l)
  find-put k j v [] = refl
  find-put k j v ((i, w) ∷ l) = ground (arith, find-put k j v l)

  pub find-delete :
      (k j : SocketSpec) (l : Items V)
      → find j (delete k l) ≡ ite (SocketSpec-discrete k j) none (find j l)
  find-delete k j [] = ground arith
  find-delete k j ((i, w) ∷ l) = ground (arith, find-delete k j l)

  pub find-change :
      (k j : SocketSpec) (f : V → V) (l : Items V)
      → find j (change k f l) ≡ ite (SocketSpec-discrete k j) (option_map f (find j l)) (find j l)
  find-change k j f [] = ground arith
  find-change k j f ((i, w) ∷ l) = ground (arith, find-change k j f l)

  pub put-Distinct : (k : SocketSpec) (v : V) (l : Items V) → Distinct l → Distinct (put k v l)
  put-Distinct k v [] d = (refl, tt)
  put-Distinct k v ((i, w) ∷ l) d = ground (arith, find-put k i v l, put-Distinct k v l d.1)

  pub delete-Distinct : (k : SocketSpec) (l : Items V) → Distinct l → Distinct (delete k l)
  delete-Distinct k [] d = tt
  delete-Distinct k ((i, w) ∷ l) d = ground (arith, find-delete k i l, delete-Distinct k l d.1)

  pub change-Distinct :
      (k : SocketSpec) (f : V → V) (l : Items V) → Distinct l → Distinct (change k f l)
  change-Distinct k f [] d = tt
  change-Distinct k f ((i, w) ∷ l) d =
      (ground (arith, find-change k i f l), change-Distinct k f l d.1)

  pub find-change_all :
      (f : V → V) (j : SocketSpec) (l : Items V) → find j (change_all f l) ≡ option_map f (find j l)
  find-change_all f j [] = refl
  find-change_all f j ((i, w) ∷ l) = ground (arith, find-change_all f j l)

  pub change_all-Distinct : (f : V → V) (l : Items V) → Distinct l → Distinct (change_all f l)
  change_all-Distinct f [] d = tt
  change_all-Distinct f ((i, w) ∷ l) d =
      (ground (arith, find-change_all f i l), change_all-Distinct f l d.1)

  pub find-at :
      (l : Items V) (i : ℕ) (k : SocketSpec) (v : V)
      → Distinct l
      → get_elem? l i ≡ some (k, v)
      → find k l ≡ some v
  find-at [] i k v d e = cc
  find-at ((j, w) ∷ l) zero k v d e = ground arith
  find-at ((j, w) ∷ l) (suc i) k v d e = ground (arith, find-at l i k v d.1 e)

  pub at-find :
      (l : Items V) (k : SocketSpec) (v : V)
      → find k l ≡ some v
      → (i : ℕ) × (get_elem? l i ≡ some (k, v))
  at-find [] k v e = cc
  at-find ((j, w) ∷ l) k v e = elim (SocketSpec-discrete j k) [
    | yes p ↦ (0, ground arith)
    | no p ↦ let r = at-find l k v (ground arith) in (suc r.0, r.1)
  ]

  pub length-put :
      (k : SocketSpec) (v : V) (l : Items V) → find k l ≡ none → length (put k v l) ≡ suc (length l)
  length-put k v [] e = refl
  length-put k v ((j, w) ∷ l) e = ground (arith, length-put k v l)

  pub delete_missing : (k : SocketSpec) (l : Items V) → find k l ≡ none → delete k l ≡ l
  delete_missing k [] e = refl
  delete_missing k ((j, w) ∷ l) e = ground (arith, delete_missing k l)

  pub length-delete :
      (k : SocketSpec) (v : V) (l : Items V)
      → Distinct l
      → find k l ≡ some v
      → suc (length (delete k l)) ≡ length l
  length-delete k v [] d e = cc
  length-delete k v ((j, w) ∷ l) d e = elim (SocketSpec-discrete j k) [
    | yes p ↦ ground (arith, ap length (delete_missing k l (ground arith)))
    | no p ↦ ground (arith, length-delete k v l d.1)
  ]

pub record Assoc (V : Type 0) : Type 0 where
  pub items : Items V
  pub distinct : Distinct items

abbrev pub assoc_map : KeyedMap
assoc_map = record {
  Map = Assoc;
  empty = record { items = []; distinct = tt };
  get = λ k m. find k m.items;
  insert =
      λ k v m. record { items = put k v m.items; distinct = put-Distinct k v m.items m.distinct };
  remove =
      λ k m. record { items = delete k m.items; distinct = delete-Distinct k m.items m.distinct };
  modify = λ k f m. record {
    items = change k f m.items;
    distinct = change-Distinct k f m.items m.distinct;
  };
  modify_all = λ f m. record {
    items = change_all f m.items;
    distinct = change_all-Distinct f m.items m.distinct;
  };
  entries = λ m. m.items;
  get-empty = λ j. refl;
  get-insert = λ k j v m. find-put k j v m.items;
  get-remove = λ k j m. find-delete k j m.items;
  get-modify = λ k j f m. find-change k j f m.items;
  get-modify_all = λ f j m. find-change_all f j m.items;
  entries-get = λ m i k v e. find-at m.items i k v m.distinct e;
  get-entries = λ m k v e. at-find m.items k v e;
  entries-empty = refl;
  length-insert = λ k v m e. length-put k v m.items e;
  length-remove = λ k v m e. length-delete k v m.items m.distinct e;
  entries-remove_missing = λ k m e. delete_missing k m.items e;
  entries-modify = λ k f m. refl;
}

abbrev pub assoc_index_map : IndexMap
assoc_index_map = record {
  keyed = assoc_map;
  get_index = λ i m. get_elem? m.items i;
  get_index-entries = λ i m. refl;
}
