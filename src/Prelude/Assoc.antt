-- ===== src/Prelude/Assoc.antt =====
-- Go maps as association lists. A write to a present key replaces its entry in place, so a key
-- has one entry; the order stands for Go's unspecified order of iteration.
use Prim.Native.Nat.{◌+◌, ◌≤◌}
use mathlib.Core.Path.{◌≡◌, refl}
use mathlib.Core.Logic.{◌≢◌, ◌⊎◌, inl, inr, ite}
use mathlib.Core.Bool.{Bool, true}
use mathlib.Core.List.{List, [], ◌∷◌}
use mathlib.Core.Option.{Option, none, some}
use native.Mathlib.Omega.{arith}
use wildtoken.Prelude.Lists.{length, keep}

abbrev pub Assoc {ℓ} : Type ℓ → Type ℓ → Type ℓ
Assoc K V = List (K × V)

module _ {ℓ} {K V : Type ℓ} (dec : Discrete K) where
  unfoldable pub get : K → Assoc K V → Option V
  get k [] = none
  get k ((j, v) ∷ m) = ite (dec j k) (some v) (get k m)

  unfoldable pub put : K → V → Assoc K V → Assoc K V
  put k v [] = (k, v) ∷ []
  put k v ((j, w) ∷ m) = ite (dec j k) ((k, v) ∷ m) ((j, w) ∷ put k v m)

  unfoldable pub delete : K → Assoc K V → Assoc K V
  delete k [] = []
  delete k ((j, w) ∷ m) = let rest = delete k m in ite (dec j k) rest ((j, w) ∷ rest)

  pub get-put :
      (k j : K) (v : V) (m : Assoc K V) → get j (put k v m) ≡ ite (dec k j) (some v) (get j m)
  unfolding get put
  get-put k j v [] = refl
  get-put k j v ((i, w) ∷ m) = ground (arith, get-put k j v m)

  pub get-delete : (k j : K) (m : Assoc K V) → get j (delete k m) ≡ ite (dec k j) none (get j m)
  unfolding get delete
  get-delete k j [] = ground arith
  get-delete k j ((i, w) ∷ m) = ground (arith, get-delete k j m)

  pub get-put_self : (k : K) (v : V) (m : Assoc K V) → get k (put k v m) ≡ some v
  get-put_self k v m = ground (arith, get-put k k v m)

  pub get-put_ne : (k j : K) (v : V) (m : Assoc K V) → k ≢ j → get j (put k v m) ≡ get j m
  get-put_ne k j v m h = ground (arith, get-put k j v m)

  pub get-put_cases :
      (k j : K) (v w : V) (m : Assoc K V)
      → get j (put k v m) ≡ some w
      → (k ≡ j) × (v ≡ w) ⊎ (get j m ≡ some w)
  get-put_cases k j v w m h = elim (dec k j) [
    | yes same ↦ inl (same, ground (arith, get-put k j v m))
    | no other ↦ inr (ground (arith, get-put k j v m))
  ]

  pub get-delete_self : (k : K) (m : Assoc K V) → get k (delete k m) ≡ none
  get-delete_self k m = ground (arith, get-delete k k m)

  pub get-delete_ne : (k j : K) (m : Assoc K V) → k ≢ j → get j (delete k m) ≡ get j m
  get-delete_ne k j m h = ground (arith, get-delete k j m)

  pub length-put_le : (k : K) (v : V) (m : Assoc K V) → length (put k v m) ≤ length m + 1
  unfolding put
  length-put_le k v [] = omega arith
  length-put_le k v ((j, w) ∷ m) = ground (arith, length-put_le k v m)

  pub length-put_present :
      (k : K) (v w : V) (m : Assoc K V) → get k m ≡ some w → length (put k v m) ≡ length m
  unfolding put get
  length-put_present k v w [] h = absurd (ground arith)
  length-put_present k v w ((j, u) ∷ m) h = ground (arith, length-put_present k v w m)

  pub length-delete_le : (k : K) (m : Assoc K V) → length (delete k m) ≤ length m
  unfolding delete
  length-delete_le k [] = omega arith
  length-delete_le k ((j, w) ∷ m) = ground (arith, length-delete_le k m)

  -- An entry that passes the test is still found after the others are dropped.
  pub get-keep_pass :
      (p : K × V → Bool) (k : K) (v : V) (m : Assoc K V)
      → get k m ≡ some v
      → p (k, v) ≡ true
      → get k (keep p m) ≡ some v
  unfolding get
  get-keep_pass p k v [] h e = h
  get-keep_pass p k v ((j, w) ∷ m) h e = ground (arith, get-keep_pass p k v m)
