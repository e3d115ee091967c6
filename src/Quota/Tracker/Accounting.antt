-- ===== src/Quota/Tracker/Accounting.antt =====
-- The tracker as a book of plain numbers: for every token the admitted requests that were not
-- released, and the metered usage that was not settled.
use mathlib.Core.Logic.{ite}
use wildtoken.Prelude.{
  ℕ, ◌+◌, ◌-◌, ◌*◌, ◌≤◌, ◌≡◌, refl, ap, ap₂, ◌∙◌, Bool, true, false, ◌&&◌, Option, none, some, List,
  [], ◌∷◌, arith, leb, ◌==◌, if◌then◌else◌, Bool-cases, Option-cases, ◌⊎◌, inl, inr, ℕ_discrete,
}
use wildtoken.Prelude.Int64
use wildtoken.Prelude.Int64.{max_int}
use wildtoken.Prelude.Assoc
use wildtoken.Quota.Tracker.{
  Outstanding, Tracker, nothing, provisional_cost, weight, entry_of, projected, admit, meter,
  settle, discard_if_idle, outstanding, release_token, not_negative,
}

abbrev pub Book : Type 0
Book = ℕ → Outstanding

abbrev pub set_at : ℕ → Outstanding → Book → Book
set_at token v b k = ite (ℕ_discrete token k) v (b k)

-- What a token weighs, without bound.
abbrev pub cost : Outstanding → ℕ
cost o = o.metered + o.requests * provisional_cost

-- A token that holds nothing has no entry.
abbrev pub slot_of : Outstanding → Option Outstanding
slot_of o = if o.requests == 0 && o.metered == 0 then none else some o

pub record Represents (t : Tracker) (b : Book) : Type 0 where
  pub at_token : (token : ℕ) → Assoc.get ℕ_discrete token t ≡ slot_of (b token)

pub data Event : Type 0 where
  admits : ℕ → ℕ → ℕ → Event
  meters : ℕ → ℕ → Event
  settles : ℕ → ℕ → Event
  releases : ℕ → Event

-- One call on the tracker, with the answer of an admission.
unfoldable pub step : Tracker → Event → Tracker × Bool
step t (admits token stored limit) =
    let (t', r, admitted) = admit t token stored (some limit) in (t', admitted)
step t (meters token used) = (meter t token used, true)
step t (settles token used) = (settle t token used, true)
step t (releases token) = (release_token t token, true)

-- The same call on the book.
unfoldable pub booked : Book → Event → Book × Bool
booked b (admits token stored limit) =
    if leb limit (stored + cost (b token))
    then (b, false)
    else (set_at token (record (b token) { requests = (b token).requests + 1 }) b, true)
booked b (meters token used) =
    (set_at token (record (b token) { metered = (b token).metered + used }) b, true)
booked b (settles token used) =
    (set_at token (record (b token) { metered = (b token).metered - used }) b, true)
booked b (releases token) =
    (set_at token (record (b token) { requests = (b token).requests - 1 }) b, true)

-- The amounts of a call fit an int64, and so does what the token weighs after it.
abbrev pub Fits : Book → Event → Type 0
Fits b (admits token stored limit) =
    (limit ≤ max_int) × (stored + cost (b token) + provisional_cost ≤ max_int)
Fits b (meters token used) = cost (b token) + used ≤ max_int
Fits b (settles token used) = (cost (b token) ≤ max_int) × (used ≤ max_int)
Fits b (releases token) = cost (b token) ≤ max_int

slot-found : (o : Outstanding) → entry_of (slot_of o) ≡ o
slot-found o = ground arith

Represents-put :
    (t : Tracker) (b : Book) (token : ℕ) (u v : Outstanding)
    → u ≡ v
    → slot_of v ≡ some v
    → Represents t b
    → Represents (Assoc.put ℕ_discrete token u t) (set_at token v b)
Represents-put t b token u v same full r = record {
  at_token = λ k. ground (arith, Assoc.get-put ℕ_discrete token k u t, r.at_token k, full);
}

Represents-discard :
    (t : Tracker) (b : Book) (token : ℕ) (u v : Outstanding)
    → u ≡ v
    → Represents t b
    → Represents (discard_if_idle t token u) (set_at token v b)
unfolding discard_if_idle
Represents-discard t b token u v same r = record {
  at_token = λ k. ground (
    arith,
    Assoc.get-put ℕ_discrete token k u t,
    Assoc.get-delete ℕ_discrete token k (Assoc.put ℕ_discrete token u t),
    r.at_token k,
  );
}

-- Writing a token's own entry to the book changes nothing.
Represents-same :
    (t : Tracker) (b : Book) (token : ℕ) (v : Outstanding)
    → v ≡ b token
    → Represents t b
    → Represents t (set_at token v b)
Represents-same t b token v same r = record { at_token = λ k. ground (arith, r.at_token k, same) }

slot-some : (o p : Outstanding) → slot_of o ≡ some p → p ≡ o
slot-some o p h = ground arith

slot-none : (o : Outstanding) → slot_of o ≡ none → (o.requests ≡ 0) × (o.metered ≡ 0)
slot-none o h = ground arith

weight-eq-cost : (o : Outstanding) → cost o ≤ max_int → weight o ≡ cost o
weight-eq-cost o h =
    let product = Int64.mul_lem o.requests provisional_cost (omega arith) in
    ap (Int64.add o.metered) product
    ∙ Int64.add_lem o.metered (o.requests * provisional_cost) (omega arith)

projected-eq :
    (stored : ℕ) (o : Outstanding)
    → stored + cost o ≤ max_int
    → projected stored (slot_of o) ≡ stored + cost o
unfolding projected
projected-eq stored o h =
    let w = weight-eq-cost o (omega arith) in ground (arith, w, Int64.add_lem stored (weight o))

not_negative-sub : (a b : ℕ) → a ≤ max_int → b ≤ max_int → not_negative (Int64.sub a b) ≡ a - b
unfolding Int64.sub Int64.lt
not_negative-sub a b h k = ground arith

module _ (t : Tracker) (b : Book) (r : Represents t b) (token : ℕ) where
  found-entry : entry_of (Assoc.get ℕ_discrete token t) ≡ b token
  found-entry = ap entry_of (r.at_token token) ∙ slot-found (b token)

  admit-booked :
      (stored limit : ℕ)
      → Fits b (admits token stored limit)
      → Represents (step t (admits token stored limit)).0 (booked b (admits token stored limit)).0
        × ((step t (admits token stored limit)).1 ≡ (booked b (admits token stored limit)).1)
  unfolding step booked admit
  admit-booked stored limit f =
      let test =
        ap (λ (o : Option Outstanding). Int64.le limit (projected stored o)) (r.at_token token)
        ∙ ap (Int64.le limit) (projected-eq stored (b token) (omega arith))
        ∙ Int64.le_lem limit (stored + cost (b token)) f.0 (omega arith) in
      let one_more : Int64.add (entry_of (Assoc.get ℕ_discrete token t)).requests 1
          ≡ (b token).requests + 1 =
        ap (λ (o : Outstanding). Int64.add o.requests 1) found-entry
        ∙ Int64.add_lem (b token).requests 1 (omega arith) in
      elim (Bool-cases (leb limit (stored + cost (b token)))) [
        | inl over ↦ rw (test ∙ over, over) (r, refl)
        | inr room ↦
            rw (test ∙ room, room)
              (
                Represents-put t b token _ _ (ground (arith, one_more, found-entry)) (ground arith)
                    r,
                refl,
              )
      ]

  -- The entry of a token, or its absence where the book holds nothing.
  entry_cases :
      (Assoc.get ℕ_discrete token t ≡ none) × ((b token).requests ≡ 0) × ((b token).metered ≡ 0)
      ⊎ (Assoc.get ℕ_discrete token t ≡ some (b token))
  entry_cases = elim (Option-cases (slot_of (b token))) [
    | inl e ↦ let (q, m) = slot-none (b token) e in inl (r.at_token token ∙ e, q, m)
    | inr (o, e) ↦ inr (r.at_token token ∙ e ∙ ap some (slot-some (b token) o e))
  ]

  settle-booked :
      (used : ℕ)
      → Fits b (settles token used)
      → Represents (settle t token used) (booked b (settles token used)).0
  unfolding settle booked
  settle-booked used f = elim (Bool-cases (Int64.le used 0)) [
    | inl idle ↦
        rw idle
          (Represents-same t b token _ (ground (arith, Int64.le_lem used 0 f.1 (omega arith))) r)
    | inr busy ↦ elim entry_cases [
      | inl (e, q, m) ↦ rw (busy, e) (Represents-same t b token _ (ground arith) r)
      | inr e ↦
          rw (busy, e)
            (Represents-discard t b token
              (record (b token) { metered = not_negative (Int64.sub (b token).metered used) })
              (record (b token) { metered = (b token).metered - used })
              (ground (arith, not_negative-sub (b token).metered used)) r)
    ]
  ]

  release-booked :
      Fits b (releases token) → Represents (release_token t token) (booked b (releases token)).0
  unfolding release_token booked
  release-booked f = elim entry_cases [
    | inl (e, q, m) ↦ rw (e, release_token) (Represents-same t b token _ (ground arith) r)
    | inr e ↦
        rw (e, release_token)
          (Represents-discard t b token
            (record (b token) { requests = not_negative (Int64.sub (b token).requests 1) })
            (record (b token) { requests = (b token).requests - 1 })
            (ground (arith, not_negative-sub (b token).requests 1)) r)
  ]

  meter-booked :
      (used : ℕ)
      → Fits b (meters token used)
      → Represents (meter t token used) (booked b (meters token used)).0
  unfolding meter booked
  meter-booked used f = elim (Bool-cases (Int64.le used 0)) [
    | inl idle ↦ rw idle (
        Represents-same t b token _
          (ground (arith, Int64.le_lem used 0 (omega arith) (omega arith))) r)
    | inr busy ↦ rw busy (
        Represents-put t b token _ _
          (ground (arith, found-entry, Int64.add_lem (b token).metered used (omega arith)))
          (ground (arith, Int64.le_lem used 0 (omega arith) (omega arith))) r)
  ]

-- The book after a run of calls, and their answers.
unfoldable pub answers : Tracker → List Event → List Bool
answers t [] = []
answers t (e ∷ es) = let (t', a) = step t e in a ∷ answers t' es

unfoldable pub after : Tracker → List Event → Tracker
after t [] = t
after t (e ∷ es) = after (step t e).0 es

unfoldable pub booked_answers : Book → List Event → List Bool
booked_answers b [] = []
booked_answers b (e ∷ es) = let (b', a) = booked b e in a ∷ booked_answers b' es

unfoldable pub book_after : Book → List Event → Book
book_after b [] = b
book_after b (e ∷ es) = book_after (booked b e).0 es

-- Every call's amounts fit, at the book that it meets.
abbrev pub AllFit : Book → List Event → Type 0
AllFit b [] = Unit {0}
AllFit b (e ∷ es) = Fits b e × AllFit (booked b e).0 es

step-booked :
    (t : Tracker) (b : Book) (e : Event)
    → Represents t b
    → Fits b e
    → Represents (step t e).0 (booked b e).0 × ((step t e).1 ≡ (booked b e).1)
step-booked t b (admits token stored limit) r f = admit-booked t b r token stored limit f
step-booked t b (meters token used) r f =
    unfold step booked in (meter-booked t b r token used f, refl)
step-booked t b (settles token used) r f =
    unfold step booked in (settle-booked t b r token used f, refl)
step-booked t b (releases token) r f = unfold step booked in (release-booked t b r token f, refl)

run-booked :
    (t : Tracker) (b : Book) (es : List Event)
    → Represents t b
    → AllFit b es
    → Represents (after t es) (book_after b es) × (answers t es ≡ booked_answers b es)
unfolding after book_after answers booked_answers
run-booked t b [] r f = (r, refl)
run-booked t b (e ∷ es) r f =
    let (r', a) = step-booked t b e r f.0 in
    let (final, rest) = run-booked (step t e).0 (booked b e).0 es r' f.1 in (final, ap₂ ◌∷◌ a rest)

abbrev pub empty_book : Book
empty_book _ = nothing

-- From an empty tracker, any run of admissions, meterings, settlements and releases whose amounts
-- fit an int64 answers as the book of plain numbers does; afterwards each token has the entry that
-- the book gives it, and none at all if it holds nothing.
pub run-Represents :
    (es : List Event)
    → AllFit empty_book es
    → Represents (after [] es) (book_after empty_book es)
      × (answers [] es ≡ booked_answers empty_book es)
run-Represents es f =
    run-booked [] empty_book es (record { at_token = λ k. unfold Assoc.get in refl }) f

-- What the tracker reports as outstanding for a token, if it fits an int64, is what the book that
-- the tracker represents holds for it.
pub outstanding-cost :
    (t : Tracker) (b : Book) (token : ℕ)
    → Represents t b
    → cost (b token) ≤ max_int
    → outstanding t token ≡ cost (b token)
unfolding outstanding
outstanding-cost t b token r h = elim (entry_cases t b r token) [
  | inl (e, q, m) ↦ rw (e, outstanding) (ground arith)
  | inr e ↦ rw (e, outstanding) (weight-eq-cost (b token) h)
]
