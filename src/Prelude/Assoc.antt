-- ===== src/Prelude/Assoc.antt =====
-- A Go map as an association list: one entry for each key, an update in place, a new key at the end.
use Prim.Native.Nat.{suc, ◌≤◌}
use mathlib.Core.Path.{◌≡◌, refl, sym, ap}
use mathlib.Core.Logic.{inl, inr}
use mathlib.Core.Bool.{true, false}
use mathlib.Core.Option.{Option, none, some}
use mathlib.Core.List.{List, [], ◌∷◌}
use native.Mathlib.Omega.{arith}
use simian_agent.Prelude.Tests.{if◌then◌else◌, Eq, ◌==◌, Bool-cases}
use simian_agent.Prelude.Lists.{length}

module _ {ℓ κ} {K : Type ℓ} {V : Type κ} ⦃e : Eq K⦄ where
  unfoldable pub lookup : K → List (K × V) → Option V
  lookup k [] = none
  lookup k ((key, found) ∷ rest) = if key == k then some found else lookup k rest

  unfoldable pub insert : K → V → List (K × V) → List (K × V)
  insert k v [] = (k, v) ∷ []
  insert k v ((key, old) ∷ rest) = if key == k then (k, v) ∷ rest else (key, old) ∷ insert k v rest

  unfoldable pub delete : K → List (K × V) → List (K × V)
  delete k [] = []
  delete k ((j, w) ∷ m) = if j == k then delete k m else (j, w) ∷ delete k m

  abbrev pub keys : List (K × V) → List K
  keys [] = []
  keys ((j, w) ∷ m) = j ∷ keys m

  abbrev pub values : List (K × V) → List V
  values [] = []
  values ((j, w) ∷ m) = w ∷ values m

  abbrev pub Absent : K → List (K × V) → Type 0
  Absent k [] = Unit
  Absent k ((j, w) ∷ m) = ((j == k) ≡ false) × Absent k m

  -- Each key stands once.
  abbrev pub IsMap : List (K × V) → Type 0
  IsMap [] = Unit
  IsMap ((j, w) ∷ m) = Absent j m × IsMap m

  pub lookup-insert :
      (k at : K) (v : V) (ps : List (K × V))
      → lookup at (insert k v ps) ≡ (if k == at then some v else lookup at ps)
  unfolding lookup insert
  lookup-insert k j v [] = refl
  lookup-insert k j v ((key, old) ∷ rest) =
      ground (lookup-insert k j v rest, e.beq_iff key k, e.beq_iff key j, e.beq_iff k j, arith)

  pub lookup-delete :
      (k j : K) (m : List (K × V)) → lookup j (delete k m) ≡ (if k == j then none else lookup j m)
  unfolding lookup delete
  lookup-delete k j [] = ground arith
  lookup-delete k j ((i, w) ∷ m) =
      ground (arith, e.beq_iff k j, e.beq_iff i k, e.beq_iff i j, lookup-delete k j m)

  pub length-insert-le : (k : K) (v : V) (m : List (K × V)) → length (insert k v m) ≤ suc (length m)
  unfolding insert
  length-insert-le k v [] = omega arith
  length-insert-le k v ((j, w) ∷ m) = ground (arith, length-insert-le k v m)

  pub length-delete-le : (k : K) (m : List (K × V)) → length (delete k m) ≤ length m
  unfolding delete
  length-delete-le k [] = omega arith
  length-delete-le k ((j, w) ∷ m) = ground (arith, length-delete-le k m)

  pub length-values : (m : List (K × V)) → length (values m) ≡ length m
  length-values [] = refl
  length-values ((j, w) ∷ m) = ap suc (length-values m)

  Absent-insert :
      (i k : K) (v : V) (m : List (K × V)) → (k == i) ≡ false → Absent i m → Absent i (insert k v m)
  unfolding insert
  Absent-insert i k v [] h a = (h, tt)
  Absent-insert i k v ((j, w) ∷ m) h a = ground (arith, Absent-insert i k v m)

  Absent-delete : (i k : K) (m : List (K × V)) → Absent i m → Absent i (delete k m)
  unfolding delete
  Absent-delete i k [] a = tt
  Absent-delete i k ((j, w) ∷ m) a = ground (arith, Absent-delete i k m)

  pub insert-IsMap : (k : K) (v : V) (m : List (K × V)) → IsMap m → IsMap (insert k v m)
  unfolding insert
  insert-IsMap k v [] h = (tt, tt)
  insert-IsMap k v ((j, w) ∷ m) h =
      ground (arith, e.beq_iff j k, e.beq_iff k j, Absent-insert j k v m, insert-IsMap k v m)

  pub delete-IsMap : (k : K) (m : List (K × V)) → IsMap m → IsMap (delete k m)
  unfolding delete
  delete-IsMap k [] h = tt
  delete-IsMap k ((j, w) ∷ m) h = ground (arith, Absent-delete j k m, delete-IsMap k m)

  pub lookup_of_Absent : (k : K) (m : List (K × V)) → Absent k m → lookup k m ≡ none
  unfolding lookup
  lookup_of_Absent k [] a = refl
  lookup_of_Absent k ((j, w) ∷ m) a = ground (arith, lookup_of_Absent k m)

  -- Deleting a key that is there takes one entry away.
  length-delete-Absent : (k : K) (m : List (K × V)) → Absent k m → length (delete k m) ≡ length m
  unfolding delete
  length-delete-Absent k [] a = refl
  length-delete-Absent k ((j, w) ∷ m) a = ground (arith, length-delete-Absent k m)

  Absent-of_eq : (j k : K) (m : List (K × V)) → (j == k) ≡ true → Absent j m → Absent k m
  Absent-of_eq j k m t a = let p : k ≡ j = sym ((e.beq_iff j k).0 t) in rw p a

  pub length-delete :
      (k : K) (v : V) (m : List (K × V))
      → IsMap m
      → lookup k m ≡ some v
      → suc (length (delete k m)) ≡ length m
  unfolding delete lookup
  length-delete k v [] h p = cc
  length-delete k v ((j, w) ∷ m) h p = elim (Bool-cases (j == k)) [
    | inl t ↦ rw t (ap suc (length-delete-Absent k m (Absent-of_eq j k m t h.0)))
    | inr f ↦ rw f (ap suc (length-delete k v m h.1 (rw f at p)))
  ]

  -- Writing a key that is there adds no entry.
  pub length-insert_known :
      (k : K) (v w : V) (m : List (K × V)) → lookup k m ≡ some v → length (insert k w m) ≡ length m
  unfolding insert lookup
  length-insert_known k v w [] p = cc
  length-insert_known k v w ((j, u) ∷ m) p = elim (Bool-cases (j == k)) [
    | inl t ↦ rw t refl
    | inr f ↦ rw f (ap suc (length-insert_known k v w m (rw f at p)))
  ]

  pub length-insert_new :
      (k : K) (w : V) (m : List (K × V))
      → lookup k m ≡ none
      → length (insert k w m) ≡ suc (length m)
  unfolding insert lookup
  length-insert_new k w [] p = refl
  length-insert_new k w ((j, u) ∷ m) p = elim (Bool-cases (j == k)) [
    | inl t ↦ let q : some u ≡ none = rw t at p in absurd (cc)
    | inr f ↦ rw f (ap suc (length-insert_new k w m (rw f at p)))
  ]
