-- ===== src/Proxy/Active/Handles.antt =====
-- A request that was released is never shown again.
use wildtoken.Prelude.{
  ℕ, ◌+◌, ◌^◌, ◌≤◌, ◌<◌, ◌≡◌, ◌≢◌, refl, sym, ap, ◌∙◌, none, some, arith, option_all_eq, ℕ_discrete,
}
use wildtoken.Prelude.Int64
use wildtoken.Prelude.Assoc
use wildtoken.Text.{Text}
use wildtoken.Proxy.Active.{Request, Registry, begin, begun_id, fresh_request, update, release}

-- A call on the registry; every setter of a handle is an update. Fewer than 2 ^ 63 requests begin.
pub data Step : Registry → Registry → Type 0 where
  begins :
      {r : Registry} (unknown http_method request_path : Text) (now : ℕ)
      → r.next_id + 1 < 2 ^ 63
      → Step r (begin r unknown http_method request_path now)
  updates : {r : Registry} (id : ℕ) (mutate : Request → Request) → Step r (update r id mutate)
  releases : {r : Registry} (id : ℕ) → Step r (release r id)

pub data Steps : Registry → Registry → Type 0 where
  stands : {r : Registry} → Steps r r
  goes_on : {r q p : Registry} → Step r q → Steps q p → Steps r p

-- A handle that was given out and is not in the set.
pub record IsGone (id : ℕ) (r : Registry) : Type 0 where
  pub issued : id ≤ r.next_id
  pub absent : Assoc.get ℕ_discrete id r.entries ≡ none

apart :
    (id j : ℕ) (r : Registry) (a : Request)
    → Assoc.get ℕ_discrete id r.entries ≡ none
    → Assoc.get ℕ_discrete j r.entries ≡ some a
    → j ≢ id
apart id j r a absent present same = absurd (
    let both : none ≡ some a =
      sym absent ∙ ap (λ k. Assoc.get ℕ_discrete k r.entries) (sym same) ∙ present in
    cc)

Step-IsGone : (id : ℕ) {r q : Registry} → Step r q → IsGone id r → IsGone id q
unfolding begin update release Int64.add
Step-IsGone id (begins {r = r} unknown http_method request_path now few) g = record {
  issued = omega (arith, g.issued, few);
  absent =
      Assoc.get-put_ne ℕ_discrete (begun_id r) id
        (fresh_request unknown http_method request_path now) r.entries
        (λ same. absurd (omega (arith, g.issued, few)))
      ∙ g.absent;
}
Step-IsGone id (updates {r = r} j mutate) g =
    option_all_eq (IsGone id) (Assoc.get ℕ_discrete j r.entries) _ _ (λ _. g)
      (λ a present. record {
        issued = g.issued;
        absent =
            Assoc.get-put_ne ℕ_discrete j id (mutate a) r.entries (apart id j r a g.absent present)
            ∙ g.absent;
      })
Step-IsGone id (releases {r = r} j) g =
    option_all_eq (IsGone id) (Assoc.get ℕ_discrete j r.entries) _ _ (λ _. g)
      (λ a present. record {
        issued = g.issued;
        absent =
            Assoc.get-delete_ne ℕ_discrete j id r.entries (apart id j r a g.absent present)
            ∙ g.absent;
      })

Steps-IsGone : (id : ℕ) {r q : Registry} → Steps r q → IsGone id r → IsGone id q
Steps-IsGone id stands g = g
Steps-IsGone id (goes_on step rest) g = Steps-IsGone id rest (Step-IsGone id step g)

release-IsGone : (r : Registry) (id : ℕ) → id ≤ r.next_id → IsGone id (release r id)
unfolding release
release-IsGone r id issued =
    option_all_eq (IsGone id) (Assoc.get ℕ_discrete id r.entries) _ _
      (λ absent. record { issued = issued; absent = absent })
      (λ a _. record { issued = issued; absent = Assoc.get-delete_self ℕ_discrete id r.entries })

update-gone :
    (q : Registry) (id : ℕ) (mutate : Request → Request)
    → Assoc.get ℕ_discrete id q.entries ≡ none
    → update q id mutate ≡ q
unfolding update
update-gone q id mutate absent =
    option_all_eq (λ (p : Registry). p ≡ q) (Assoc.get ℕ_discrete id q.entries) _ _ (λ _. refl)
      (λ a present. absurd (cc))

-- Once a request that was given out is released, it is in no later state of the registry, whatever
-- handles are updated, released again or begun after it, its own among them, while fewer than 2 ^ 63
-- requests begin; and a late update of it changes nothing.
pub release-final :
    (r : Registry) (id : ℕ) {q : Registry} (mutate : Request → Request)
    → id ≤ r.next_id
    → Steps (release r id) q
    → (Assoc.get ℕ_discrete id q.entries ≡ none) × (update q id mutate ≡ q)
release-final r id {q = q} mutate issued steps =
    let gone : IsGone id q = Steps-IsGone id steps (release-IsGone r id issued) in
    (gone.absent, update-gone q id mutate gone.absent)
