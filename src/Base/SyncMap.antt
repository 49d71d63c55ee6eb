-- ===== src/Base/SyncMap.antt =====
-- Go's `sync.Map` (and `map`) as a list of entries. `Range` visits the entries in the order of the
-- list: Go leaves that order open, and the theorems hold for every list, so for every order.
use mathlib.Core.Path.{◌≡◌, refl}
use mathlib.Core.Logic.{ite, inl, inr}
use mathlib.Core.List.{List, [], ◌∷◌}
use mathlib.Core.Option.{Option, none, some}
use native.Mathlib.Omega.{arith}
use greatestworks.Base.Lists.{In, length}
use Prim.Native.Nat.{suc}
use mathlib.Core.Logic.{◌⊎◌}

abbrev pub SyncMap {ℓ} : Type ℓ → Type ℓ → Type ℓ
SyncMap K V = List (K × V)

module _ {K V : Type 0} where
  abbrev pub keys : SyncMap K V → List K
  keys [] = []
  keys ((k, v) ∷ m) = k ∷ keys m

  -- Each key occurs once.
  abbrev pub Distinct : SyncMap K V → Type 0
  Distinct [] = Unit
  Distinct ((k, v) ∷ m) = (¬ In k (keys m)) × Distinct m

module _ {ℓ} {K V : Type ℓ} (dec : Discrete K) where
  abbrev pub load : K → SyncMap K V → Option V
  load k [] = none
  load k ((j, v) ∷ m) = ite (dec j k) (some v) (load k m)

  -- `Store` replaces the value of a key that is there, and adds an entry otherwise.
  abbrev pub store : K → V → SyncMap K V → SyncMap K V
  store k v [] = (k, v) ∷ []
  store k v ((j, w) ∷ m) = ite (dec j k) ((k, v) ∷ m) ((j, w) ∷ store k v m)

  abbrev pub delete : K → SyncMap K V → SyncMap K V
  delete k [] = []
  delete k ((j, w) ∷ m) = ite (dec j k) (delete k m) ((j, w) ∷ delete k m)

  pub load-store :
      (k j : K) (v : V) (m : SyncMap K V) → load j (store k v m) ≡ ite (dec k j) (some v) (load j m)
  load-store k j v [] = refl
  load-store k j v ((i, w) ∷ m) = ground (arith, load-store k j v m)

  pub load-delete :
      (k j : K) (m : SyncMap K V) → load j (delete k m) ≡ ite (dec k j) none (load j m)
  load-delete k j [] = ground arith
  load-delete k j ((i, w) ∷ m) = ground (arith, load-delete k j m)

-- How a store and a removal change the size of a map whose keys are distinct.
module _ {K V : Type 0} (dec : Discrete K) where
  In-keys-store :
      (j k : K) (v : V) (m : SyncMap K V) → In j (keys (store dec k v m)) → (j ≡ k) ⊎ In j (keys m)
  In-keys-store j k v [] h = h
  In-keys-store j k v ((i, w) ∷ m) h = ground (arith, In-keys-store j k v m)

  In-keys-delete : (j k : K) (m : SyncMap K V) → In j (keys (delete dec k m)) → In j (keys m)
  In-keys-delete j k [] h = h
  In-keys-delete j k ((i, w) ∷ m) h = ground (arith, In-keys-delete j k m)

  load-In : (k : K) (m : SyncMap K V) → ¬ In k (keys m) → load dec k m ≡ none
  load-In k [] h = refl
  load-In k ((i, w) ∷ m) h = ground (arith, load-In k m)

  pub store-Distinct :
      (k : K) (v : V) (m : SyncMap K V)
      → load dec k m ≡ none
      → Distinct m
      → Distinct (store dec k v m)
  store-Distinct k v [] h d = ground arith
  store-Distinct k v ((i, w) ∷ m) h d = ground (arith, store-Distinct k v m, In-keys-store i k v m)

  pub store_keeps_Distinct :
      (k : K) (v : V) (m : SyncMap K V) → Distinct m → Distinct (store dec k v m)
  store_keeps_Distinct k v [] d = ground arith
  store_keeps_Distinct k v ((i, w) ∷ m) (h, d) =
      elim (dec i k) as (λ e. Distinct (ite e ((k, v) ∷ m) ((i, w) ∷ store dec k v m))) [
        | yes e ↦ (rw e at h, d)
        | no n ↦ (
          (λ x. elim (In-keys-store i k v m x) [ inl e ↦ absurd (n e) | inr y ↦ absurd (h y) ]),
          store_keeps_Distinct k v m d,
        )
      ]

  pub delete-Distinct : (k : K) (m : SyncMap K V) → Distinct m → Distinct (delete dec k m)
  delete-Distinct k [] d = d
  delete-Distinct k ((i, w) ∷ m) d = ground (arith, delete-Distinct k m, In-keys-delete i k m)

  pub length-store :
      (k : K) (v : V) (m : SyncMap K V)
      → length (store dec k v m) ≡ elim (load dec k m) [ none ↦ suc (length m) | some w ↦ length m ]
  length-store k v [] = refl
  length-store k v ((i, w) ∷ m) = ground (arith, length-store k v m)

  length-delete_absent :
      (k : K) (m : SyncMap K V) → load dec k m ≡ none → length (delete dec k m) ≡ length m
  length-delete_absent k [] h = refl
  length-delete_absent k ((i, w) ∷ m) h = ground (arith, length-delete_absent k m)

  pub length-delete :
      (k : K) (v : V) (m : SyncMap K V)
      → Distinct m
      → load dec k m ≡ some v
      → suc (length (delete dec k m)) ≡ length m
  length-delete k v [] d h = absurd (cc)
  length-delete k v ((i, w) ∷ m) d h =
      ground (arith, length-delete k v m, load-In k m, length-delete_absent k m)
