-- ===== src/Handlers/Failover/Examples.antt =====
-- Two channels, of which the first refuses every request, and the theorem at a request to them.
use wildtoken.Prelude.{
  arith, ℕ, suc, ◌≤◌, ◌≡◌, refl, subst, true, false, not, Option, none, some, List, [], ◌∷◌, ◌==◌,
  if◌then◌else◌, Bool-cases, inl, inr, Occurs, first, later,
}
use wildtoken.Handlers.Failover.{
  Selection, Selected, broken, found, Response, early_row, delivered, has_content, account_lost,
  Services, Config, member, run_proxy_attempts,
}
use wildtoken.Handlers.Failover.Rounds.{IsRouting, fuel}
use wildtoken.Handlers.Failover.Keeps.{final_rows, early_rows}
use wildtoken.Handlers.Failover.Early.{Tallies}
use wildtoken.Handlers.Failover.Pending.{HasFinals}
use wildtoken.Handlers.Failover.Bounded.{run_proxy_attempts-ends}

abbrev one : Selection
one = record { upstream = 1; keys = 11 ∷ [] }

abbrev two : Selection
two = record { upstream = 2; keys = [] }

abbrev refusing : Option Response
refusing = some (record { status = 400; streaming = false })

abbrev serving : Option Response
serving = some (record { status = 200; streaming = false })

abbrev next_channel : List ℕ → Selected
next_channel excluded =
    if not (member 1 excluded)
    then found (some one)
    else if not (member 2 excluded)
    then found (some two)
    else found none

-- The state counts the requests that were forwarded.
abbrev two_channels : Services ℕ
two_channels = record {
  select = λ w excluded. (w, next_channel excluded);
  pick = λ w s refused. (w, some (11, false));
  prepare = λ w s key. true;
  admits = λ w s. (w, true);
  charge = λ w id. w;
  forward = λ w s key. (suc w, (if s.upstream == 1 then refusing else serving));
  prime = λ w response. (w, has_content);
  clear = λ w key. w;
  bench = λ w key. w;
  has_fresh = λ w s refused. false;
  client_gone = λ w. false;
  wait = λ w. (w, false);
  route_key = λ s. none;
  credentials_match = λ s key. true;
}

abbrev thrice : Config
thrice = record {
  max_retries = 3;
  selector = false;
  direct_selection = none;
  response_route = false;
  holds_stream = true;
  waits = false;
}

abbrev channels : List ℕ
channels = 1 ∷ 2 ∷ []

abbrev IsFresh : List ℕ → Selected → Type 0
IsFresh excluded broken = Unit
IsFresh excluded (found none) = Unit
IsFresh excluded (found (some s)) =
    Occurs s.upstream channels × (member s.upstream excluded ≡ false)

next_channel-IsFresh : (excluded : List ℕ) → IsFresh excluded (next_channel excluded)
next_channel-IsFresh excluded = elim (Bool-cases (member 1 excluded)) [
  | inr free ↦ rw (free, IsFresh) (first, free)
  | inl out ↦ elim (Bool-cases (member 2 excluded)) [
    | inr free ↦ rw (out, free, IsFresh) (later first, free)
    | inl gone ↦ rw (out, gone, IsFresh) tt
  ]
]

two_channels-IsRouting : IsRouting channels two_channels thrice
two_channels-IsRouting = record {
  select_fresh = λ w excluded s e. subst (IsFresh excluded) e (next_channel-IsFresh excluded);
  direct_known = λ s e. absurd (cc);
}

-- The second channel serves the request, in the second attempt.
two_attempts : (run_proxy_attempts two_channels thrice (fuel channels) 0).0.world ≡ 2
unfolding run_proxy_attempts
two_attempts = refl

-- The same where the first channel streams, and the account of its stream is lost while it is primed:
-- the row of that attempt is written early, and the second channel serves the request. The state
-- is the requests that were forwarded, and the accounts that were lost.
abbrev starting : Option Response
starting = some (record { status = 200; streaming = true })

abbrev lost_account : Services (ℕ × ℕ)
lost_account = record {
  select = λ w excluded. (w, next_channel excluded);
  pick = λ w s refused. (w, some (11, false));
  prepare = λ w s key. true;
  admits = λ w s. (w, true);
  charge = λ w id. w;
  forward = λ w s key. ((suc w.0, w.1), (if s.upstream == 1 then starting else serving));
  prime = λ w response. ((w.0, suc w.1), account_lost);
  clear = λ w key. w;
  bench = λ w key. w;
  has_fresh = λ w s refused. false;
  client_gone = λ w. false;
  wait = λ w. (w, false);
  route_key = λ s. none;
  credentials_match = λ s key. true;
}

abbrev lost_accounts : ℕ × ℕ → ℕ
lost_accounts w = w.1

lost_account-Tallies : Tallies lost_account lost_accounts
lost_account-Tallies = record {
  select = λ w excluded. refl;
  pick = λ w s refused. refl;
  admits = λ w s. refl;
  charge = λ w id. refl;
  forward = λ w s key. refl;
  prime = λ w response. omega arith;
  clear = λ w key. refl;
  bench = λ w key. refl;
  wait = λ w. refl;
}

lost_account-IsRouting : IsRouting channels lost_account thrice
lost_account-IsRouting = record {
  select_fresh = λ w excluded s e. subst (IsFresh excluded) e (next_channel-IsFresh excluded);
  direct_known = λ s e. absurd (cc);
}

run_proxy_attempts-ends_example :
    ((run_proxy_attempts lost_account thrice (fuel channels) (0, 0)).0.forwards ≤ suc 3)
    × HasFinals
        (run_proxy_attempts lost_account thrice (fuel channels) (0, 0)).1
        (final_rows (run_proxy_attempts lost_account thrice (fuel channels) (0, 0)).0.rows)
    × (early_rows (run_proxy_attempts lost_account thrice (fuel channels) (0, 0)).0.rows
        ≡ lost_accounts (run_proxy_attempts lost_account thrice (fuel channels) (0, 0)).0.world)
run_proxy_attempts-ends_example =
    run_proxy_attempts-ends lost_account thrice channels lost_account-IsRouting lost_accounts (0, 0)
      lost_account-Tallies refl

lost_row : (run_proxy_attempts lost_account thrice (fuel channels) (0, 0)).0.rows ≡ early_row ∷ []
unfolding run_proxy_attempts
lost_row = refl

lost_served :
    (run_proxy_attempts lost_account thrice (fuel channels) (0, 0)).1
    ≡ delivered 1 (record { status = 200; streaming = false })
unfolding run_proxy_attempts
lost_served = refl
