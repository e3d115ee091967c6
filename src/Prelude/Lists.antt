-- ===== src/Prelude/Lists.antt =====
-- Lists measured and indexed by native numbers, under the library's names.
use Prim.Native.Nat.{ℕ, zero, suc, ◌+◌, ◌-◌, ◌≤◌, ◌<◌}
use mathlib.Core.Path.{◌≡◌, refl, sym, ap, ◌∙◌, subst}
use mathlib.Core.Bool.{Bool, true, false, ◌||◌}
use mathlib.Core.List.{List, [], ◌∷◌, ◌++◌, map}
use mathlib.Core.Option.{Option, none, some}
use native.Mathlib.Omega.{arith}
use mathlib.Core.Logic.{◌⊎◌, inl, inr}
use wildtoken.Prelude.Tests.{if◌then◌else◌, Bool-cases}

module _ {ℓ} {A : Type ℓ} where
  abbrev pub length : List A → ℕ
  length [] = 0
  length (x ∷ xs) = suc (length xs)

  abbrev pub get_elem? : List A → ℕ → Option A
  get_elem? [] i = none
  get_elem? (x ∷ xs) zero = some x
  get_elem? (x ∷ xs) (suc i) = get_elem? xs i

  abbrev pub drop : ℕ → List A → List A
  drop zero xs = xs
  drop (suc n) [] = []
  drop (suc n) (x ∷ xs) = drop n xs

  abbrev pub replicate : ℕ → A → List A
  replicate zero a = []
  replicate (suc n) a = a ∷ replicate n a

  -- The elements that pass a Boolean test, in order.
  abbrev pub keep : (A → Bool) → List A → List A
  keep p [] = []
  keep p (x ∷ xs) = let rest = keep p xs in if p x then x ∷ rest else rest

  -- Every element has the property.
  abbrev pub All {κ} : (A → Type κ) → List A → Type κ
  All P [] = Unit
  All P (x ∷ xs) = P x × All P xs

  -- The element stands in the list; a proof is its position.
  pub data Occurs (a : A) : List A → Type ℓ where
    first : {xs : List A} → Occurs a (a ∷ xs)
    later : {x : A} {xs : List A} → Occurs a xs → Occurs a (x ∷ xs)

module _ {ℓ} {A : Type ℓ} where
  pub length-append : (xs ys : List A) → length (xs ++ ys) ≡ length xs + length ys
  length-append [] ys = omega arith
  length-append (x ∷ xs) ys = omega (arith, length-append xs ys)

  pub length-drop : (n : ℕ) (xs : List A) → length (drop n xs) ≡ length xs - n
  length-drop zero xs = omega arith
  length-drop (suc n) [] = omega arith
  length-drop (suc n) (x ∷ xs) = omega (arith, length-drop n xs)

  pub nil_of_length : (xs : List A) → length xs ≡ 0 → xs ≡ []
  nil_of_length [] h = refl
  nil_of_length (x ∷ xs) h = absurd (omega arith)

  pub length-keep-le : (p : A → Bool) (xs : List A) → length (keep p xs) ≤ length xs
  length-keep-le p [] = omega arith
  length-keep-le p (x ∷ xs) = ground (arith, length-keep-le p xs)

  pub drop-append : (xs ys : List A) → drop (length xs) (xs ++ ys) ≡ ys
  drop-append [] ys = refl
  drop-append (x ∷ xs) ys = drop-append xs ys

  pub drop-append_le :
      (n : ℕ) (xs ys : List A) → n ≤ length xs → drop n (xs ++ ys) ≡ drop n xs ++ ys
  drop-append_le zero xs ys h = refl
  drop-append_le (suc n) [] ys h = absurd (omega arith)
  drop-append_le (suc n) (x ∷ xs) ys h = drop-append_le n xs ys (omega arith)

  pub All-of-Occurs {κ} : (P : A → Type κ) (a : A) {xs : List A} → Occurs a xs → All P xs → P a
  All-of-Occurs P a first h = h.0
  All-of-Occurs P a (later o) h = All-of-Occurs P a o h.1

  pub Occurs-at : (xs : List A) (i : ℕ) (a : A) → get_elem? xs i ≡ some a → Occurs a xs
  Occurs-at [] i a e = absurd (cc)
  Occurs-at (x ∷ xs) zero a e =
      let same : x ≡ a = cc in subst (λ y. Occurs a (y ∷ xs)) (sym same) first
  Occurs-at (x ∷ xs) (suc i) a e = later (Occurs-at xs i a e)

  pub index_of_Occurs :
      {a : A} {xs : List A} → Occurs a xs → (i : ℕ) × (i < length xs) × (get_elem? xs i ≡ some a)
  index_of_Occurs first = (0, omega arith, refl)
  index_of_Occurs (later o) = let (i, h, e) = index_of_Occurs o in (suc i, omega arith, e)

  pub get_elem?-some : (xs : List A) (i : ℕ) → i < length xs → (a : A) × (get_elem? xs i ≡ some a)
  get_elem?-some [] i h = absurd (omega arith)
  get_elem?-some (x ∷ xs) zero h = (x, refl)
  get_elem?-some (x ∷ xs) (suc i) h = get_elem?-some xs i (omega arith)

  pub not-Occurs-nil : {a : A} → ¬ Occurs a []
  not-Occurs-nil o = let (i, h, e) = index_of_Occurs o in absurd (omega (arith, h))

  -- Whether some element passes the test.
  abbrev pub any : (A → Bool) → List A → Bool
  any p [] = false
  any p (x ∷ xs) = p x || any p xs

  keep_pass : (p : A → Bool) (x : A) (xs : List A) → p x ≡ true → keep p (x ∷ xs) ≡ x ∷ keep p xs
  keep_pass p x xs e = ground (arith, e)

  keep_fail : (p : A → Bool) (x : A) (xs : List A) → p x ≡ false → keep p (x ∷ xs) ≡ keep p xs
  keep_fail p x xs e = ground (arith, e)

  pub Occurs-cases : {a x : A} {xs : List A} → Occurs a (x ∷ xs) → (a ≡ x) ⊎ Occurs a xs
  Occurs-cases first = inl refl
  Occurs-cases (later o) = inr o

  pub Occurs-keep :
      (p : A → Bool) (a : A) {xs : List A} → Occurs a xs → p a ≡ true → Occurs a (keep p xs)
  Occurs-keep p a (first {xs = xs}) e =
      subst (Occurs a) (sym (keep_pass p a xs e)) (first {xs = keep p xs})
  Occurs-keep p a (later {x = x} {xs = xs} o) e = elim (Bool-cases (p x)) [
    | inl pass ↦
        subst (Occurs a) (sym (keep_pass p x xs pass)) (later {x = x} (Occurs-keep p a o e))
    | inr fail ↦ subst (Occurs a) (sym (keep_fail p x xs fail)) (Occurs-keep p a o e)
  ]

  pub keep-Occurs :
      (p : A → Bool) (a : A) (xs : List A) → Occurs a (keep p xs) → Occurs a xs × (p a ≡ true)
  keep-Occurs p a [] o = let (i, h, e) = index_of_Occurs o in absurd (omega (arith, h))
  keep-Occurs p a (x ∷ xs) o = elim (Bool-cases (p x)) [
    | inl pass ↦ elim (Occurs-cases (subst (Occurs a) (keep_pass p x xs pass) o)) [
      | inl e ↦ (subst (λ y. Occurs a (y ∷ xs)) e first, ap p e ∙ pass)
      | inr o' ↦ let (o'', e) = keep-Occurs p a xs o' in (later o'', e)
    ]
    | inr fail ↦
        let (o', e) = keep-Occurs p a xs (subst (Occurs a) (keep_fail p x xs fail) o) in
        (later o', e)
  ]

module _ {ℓ} {A B : Type ℓ} where
  pub length-map : (xs : List A) (f : A → B) → length (map f xs) ≡ length xs
  length-map [] f = refl
  length-map (x ∷ xs) f = ap suc (length-map xs f)
