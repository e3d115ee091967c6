-- ===== src/Quota/Examples.antt =====
-- Runs of the quota tracker on small inputs, and the theorems at such inputs.
use wildtoken.Prelude.{
  ◌==◌, ◌≡◌, refl, true, false, List, [], ◌∷◌, arith, ℕ_discrete, min, if◌then◌else◌,
}
use wildtoken.Prelude.Int64
use wildtoken.Prelude.Assoc
use wildtoken.Quota.Tracker.{
  Tracker, projected, admit, meter, settle, discard_if_idle, release, release_token,
}
use wildtoken.Quota.Tracker.Accounting.{
  Book, Event, admits, meters, settles, releases, Represents, AllFit, empty_book, after, answers,
  book_after, booked, booked_answers, step, run-Represents,
}
use wildtoken.Quota.Tracker.Budget.{admissions, burst, room, admissions-burst}

-- Token 7 is admitted twice, metered, settled and released.
abbrev day : List Event
day =
    admits 7 100 10_000
    ∷ admits 7 100 10_000
    ∷ meters 7 2_000
    ∷ admits 7 100 10_000
    ∷ releases 7
    ∷ settles 7 2_000
    ∷ []

day-answers : answers [] day ≡ true ∷ true ∷ true ∷ false ∷ true ∷ true ∷ []
unfolding answers step admit meter settle release_token discard_if_idle projected Assoc.get
    Assoc.put Assoc.delete Int64.add Int64.sub Int64.mul Int64.le Int64.lt ℕ_discrete
day-answers = refl

day-AllFit : AllFit empty_book day
unfolding booked ℕ_discrete
day-AllFit = omega arith

run-Represents_example :
    Represents (after [] day) (book_after empty_book day)
    × (answers [] day ≡ booked_answers empty_book day)
run-Represents_example = run-Represents day day-AllFit

-- One request of token 7 is in flight, and 50 tokens of it are not settled.
abbrev held : Tracker
held = (7, record { requests = 1; metered = 50 }) ∷ []

abbrev held_book : Book
held_book token =
    if token == 7
    then record { requests = 1; metered = 50 }
    else record { requests = 0; metered = 0 }

held-Represents : Represents held held_book
unfolding Assoc.get
held-Represents = record { at_token = λ token. ground arith }

admissions-burst_example : admissions (answers [] (burst 7 100 10_000 5)) ≡ min 5 (room 10_000 100)
admissions-burst_example = admissions-burst 7 100 10_000 5 (omega arith) (omega arith)

-- A reservation is spent once: the second release changes nothing.
second_release :
    (let (t, r) = release held (record { token = 7; held = true }) in release t r)
    ≡ ((7, record { requests = 0; metered = 50 }) ∷ [], record { token = 7; held = false })
unfolding release release_token discard_if_idle Assoc.get Assoc.put Assoc.delete Int64.sub Int64.lt
    ℕ_discrete
second_release = refl
