-- ===== src/Proxy/Active.antt =====
-- internal/proxy/active.go: the requests in flight. Every method holds the registry's lock throughout,
-- so each is one step. A handle is its id; what the registry drops stays with the handle, of which the
-- code looks at nothing but that it is released, so a handle that is gone is one that is released.
-- The nil registry and nil handles are left out: they hold nothing. The count of attempts is the
-- bit pattern of an int32, which wraps.
pub mod Handles
mod Examples
use wildtoken.Prelude.{
  ℕ, suc, ◌+◌, ◌%◌, ◌^◌, ◌*◌, ◌-◌, ◌/◌, Bool, true, false, not, ◌&&◌, ◌||◌, Option, none, some,
  List, [], ◌∷◌, ◌++◌, map, ltb, leb, ◌==◌, if◌then◌else◌, ℕ_discrete, length,
}
use wildtoken.Prelude.Int64
use wildtoken.Prelude.Assoc
use wildtoken.Prelude.Assoc.{Assoc}
use wildtoken.Text.{Text}
use wildtoken.Clock.{elapsed_since}

pub record Request : Type 0 where
  pub started_at : ℕ
  pub http_method : Text
  pub request_path : Text
  pub downstream_token : Option (ℕ × Text)
  pub client_ip : Option Text
  pub client_type : Text
  pub upstream : Option (ℕ × Text)
  pub upstream_key : ℕ × Text
  pub model : Option Text
  pub request_model : Option Text
  pub upstream_model : Option Text
  pub reasoning_effort : Option Text
  pub upstream_reasoning_effort : Option Text
  pub attempt : ℕ

-- type ActiveRegistry
pub record Registry : Type 0 where
  pub next_id : ℕ
  pub entries : Assoc ℕ Request
  pub version : ℕ

abbrev pub new_registry : Registry
new_registry = record { next_id = 0; entries = []; version = 0 }

abbrev fresh_request : Text → Text → Text → ℕ → Request
fresh_request unknown http_method request_path now = record {
  started_at = now;
  http_method = http_method;
  request_path = request_path;
  downstream_token = none;
  client_ip = none;
  client_type = unknown;
  upstream = none;
  upstream_key = (0, []);
  model = none;
  request_model = none;
  upstream_model = none;
  reasoning_effort = none;
  upstream_reasoning_effort = none;
  attempt = 0;
}

-- A uint64 that counts up.
abbrev pub advanced : ℕ → ℕ
advanced version = (version + 1) % 2 ^ 64

abbrev pub begun_id : Registry → ℕ
begun_id r = Int64.add r.next_id 1

unfoldable pub begin : Registry → Text → Text → Text → ℕ → Registry
unfolding Int64.add Assoc.put
begin r unknown http_method request_path now = record {
  next_id = begun_id r;
  entries =
      Assoc.put ℕ_discrete (begun_id r) (fresh_request unknown http_method request_path now)
        r.entries;
  version = advanced r.version;
}

-- update: nothing for a handle that is released.
unfoldable pub update : Registry → ℕ → (Request → Request) → Registry
unfolding Assoc.get Assoc.put
update r id mutate = elim (Assoc.get ℕ_discrete id r.entries) [
  | none ↦ r
  | some a ↦ record r {
    entries = Assoc.put ℕ_discrete id (mutate a) r.entries;
    version = advanced r.version;
  }
]

-- The setters, each with the mutation that it passes to update.
unfoldable pub set_downstream_token : Registry → ℕ → ℕ → Text → Registry
unfolding update
set_downstream_token r id token_id token_name =
    update r id (λ a. record a { downstream_token = some (token_id, token_name) })

unfoldable pub set_client_ip : Registry → ℕ → Text → Registry
unfolding update
set_client_ip r id [] = r
set_client_ip r id (c ∷ cs) = update r id (λ a. record a { client_ip = some (c ∷ cs) })

unfoldable pub set_client_type : Registry → ℕ → Text → Registry
unfolding update
set_client_type r id client_type = update r id (λ a. record a { client_type = client_type })

unfoldable pub set_model : Registry → ℕ → Option Text → Registry
unfolding update
set_model r id model = update r id (λ a. record a { model = model; request_model = model })

abbrev forward_or : Option Text → Option Text → Option Text
forward_or none model = model
forward_or (some forward) model = some forward

unfoldable pub set_upstream : Registry → ℕ → ℕ → Text → Option Text → Registry
unfolding update
set_upstream r id upstream_id upstream_name forward_model = update r id (λ a. record a {
  upstream = some (upstream_id, upstream_name);
  upstream_key = (0, []);
  upstream_model = forward_model;
  model = forward_or forward_model a.model;
  attempt = (a.attempt + 1) % 2 ^ 32;
})

unfoldable pub set_key : Registry → ℕ → ℕ → Text → Registry
unfolding update
set_key r id key_id key_name = update r id (λ a. record a { upstream_key = (key_id, key_name) })

unfoldable pub set_reasoning_effort : Registry → ℕ → Option Text → Option Text → Registry
unfolding update
set_reasoning_effort r id request upstream =
    update r id (λ a. record a { reasoning_effort = request; upstream_reasoning_effort = upstream })

-- Release
unfoldable pub release : Registry → ℕ → Registry
unfolding Assoc.get Assoc.delete
release r id = elim (Assoc.get ℕ_discrete id r.entries) [
  | none ↦ r
  | some a ↦ record r {
    entries = Assoc.delete ℕ_discrete id r.entries;
    version = advanced r.version;
  }
]

-- Len
abbrev pub len : Registry → ℕ
len r = length r.entries

-- What a snapshot shows of a request: its id, the whole milliseconds that it has taken, and itself.
abbrev pub Shown : Type 0
Shown = ℕ × ℕ × Request

abbrev elapsed_ms : ℕ → Request → ℕ
elapsed_ms now a = elapsed_since now a.started_at / 1_000_000

abbrev shown_before : Shown → Shown → Bool
shown_before (i, e, a) (j, f, b) = if e == f then ltb j i else ltb e f

abbrev insert_shown : Shown → List Shown → List Shown
insert_shown s [] = s ∷ []
insert_shown s (t ∷ ts) =
    let rest = insert_shown s ts in if shown_before s t then s ∷ t ∷ ts else t ∷ rest

abbrev sort_shown : List Shown → List Shown
sort_shown [] = []
sort_shown (s ∷ ss) = insert_shown s (sort_shown ss)

abbrev show_entry : ℕ → ℕ × Request → Shown
show_entry now (id, a) = (id, elapsed_ms now a, a)

abbrev first_shown : ℕ → List Shown → List Shown
first_shown limit [] = []
first_shown limit (s ∷ ss) = if limit == 0 then [] else s ∷ first_shown (limit - 1) ss

-- ActiveSnapshotLimit
abbrev pub active_snapshot_limit : ℕ
active_snapshot_limit = 200

pub record Snapshot : Type 0 where
  pub version : ℕ
  pub total : ℕ
  pub requests : List Shown

unfoldable pub snapshot : Registry → ℕ → Snapshot
snapshot r now =
    let shown = sort_shown (map (show_entry now) r.entries) in
    record {
      version = r.version;
      total = length shown;
      requests = first_shown active_snapshot_limit shown;
    }
