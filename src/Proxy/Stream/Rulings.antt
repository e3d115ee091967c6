-- ===== src/Proxy/Stream/Rulings.antt =====
-- The ways in which a stream finishes keep its account.
use wildtoken.Prelude.{
  ℕ, ◌≡◌, ◌⊎◌, refl, sym, ap, ◌∙◌, subst, Bool, true, false, not, ◌&&◌, Option, none, some, List,
  [], ◌++◌, ◌==◌, Bool-cases, inl, inr, if_all_eq, option_all_eq,
}
use wildtoken.Text.{Text}
use wildtoken.Json.{Fields}
use wildtoken.Proxy.Sse.{codes}
use wildtoken.Proxy.Sse.Observation
use wildtoken.Proxy.Sse.Observation.{Observation, push, observe_chunk}
use wildtoken.Proxy.Sse.Observation.Errors.{HasError, finish-HasError}
use wildtoken.Proxy.Stream.{
  ReadError, Moment, Entry, Row, HealthCall, record_success, record_failure, Metric, Stream,
  log_row, with_call, finish_log, charged_if, finish_complete, finish_interrupted, client_left,
  read_error_text, sse_complete, sse_upstream_error, sse_client_disconnect,
}
use wildtoken.Proxy.Stream.Account.{
  Verdict, completed, reported, forgiven, cut_off, walked_away, account_lost, Account, pending,
  logged, IsBalanced, Allows, moved,
}

module _ (decode decode_first : Text → Option Fields) where
  -- The verdict of a call of finishLog, before the estimate changes the row's message.
  pub data Ruling (blames : Bool) (status : ℕ) (o : Observation) (code : ℕ)
      : Option Text → Option HealthCall → Type 0 where
    ended_well : code ≡ status → Ruling blames status o code none (some record_success)
    faulty :
        {message : Text}
        → HasError message true o
        → code ≡ 502
        → Ruling blames status o code (some message) (some record_failure)
    harmless :
        {message : Text}
        → HasError message false o
        → code ≡ 502
        → Ruling blames status o code (some message) none
    interrupted :
        {message : Text}
        → blames ≡ true
        → (code ≡ 502) ⊎ (code ≡ 504)
        → Ruling blames status o code (some message) (some record_failure)
    abandoned : {message : Text} → code ≡ 499 → Ruling blames status o code (some message) none
    misplaced : {message : Text} → code ≡ 500 → Ruling blames status o code (some message) none

  log_row-failure :
      (s : Stream) (o : Observation) (e : Entry) (code : ℕ) (message : Text)
      → (noted : Text) × ((log_row decode decode_first s o e code (some message)).failure
          ≡ some noted)
  unfolding log_row
  log_row-failure s o e code message = elim (Bool-cases (code == 499 && not o.final_usage_seen)) [
    | inl estimates ↦ (message ++ codes "; usage estimated", rw estimates refl)
    | inr plain ↦ (message, rw plain refl)
  ]

  -- Only a 499 has its message changed.
  log_row-502 :
      (s : Stream) (o : Observation) (e : Entry) (code : ℕ) (message : Text)
      → code ≡ 502
      → (log_row decode decode_first s o e code (some message)).failure ≡ some message
  unfolding log_row
  log_row-502 s o e code message h =
      let plain : (code == 499) ≡ false = ap (λ n. n == 499) h in rw plain refl

  log_row-status :
      (s : Stream) (o : Observation) (e : Entry) (code : ℕ) (failure : Option Text)
      → (log_row decode decode_first s o e code failure).status_code ≡ code
  unfolding log_row
  log_row-status s o e code failure = refl

  ruled :
      (s : Stream) (o : Observation) (e : Entry) (code status : ℕ) {blames : Bool}
      {failure : Option Text} {call : Option HealthCall}
      → Ruling blames status o code failure call
      → Verdict blames status o
          (log_row decode decode_first s o e code failure)
          (with_call decode decode_first [] call)
  ruled s o e code status (ended_well h) = completed (log_row-status s o e code none ∙ h)
  ruled s o e code status (faulty {message = message} h c) =
      reported h (log_row-status s o e code (some message) ∙ c) (log_row-502 s o e code message c)
  ruled s o e code status (harmless {message = message} h c) =
      forgiven h (log_row-status s o e code (some message) ∙ c) (log_row-502 s o e code message c)
  ruled s o e code status (interrupted {message = message} b c) =
      cut_off b
        (subst (λ n. (n ≡ 502) ⊎ (n ≡ 504)) (sym (log_row-status s o e code (some message))) c)
        (log_row-failure s o e code message).1
  ruled s o e code status (abandoned {message = message} c) =
      walked_away (log_row-status s o e code (some message) ∙ c)
        (log_row-failure s o e code message).1
  ruled s o e code status (misplaced {message = message} c) =
      account_lost (log_row-status s o e code (some message) ∙ c)
        (log_row-failure s o e code message).1

  moved-Ruling :
      {blames : Bool} {status code : ℕ} {o p : Observation} {failure : Option Text}
      {call : Option HealthCall}
      → ((message : Text) (fault : Bool) → HasError message fault o → HasError message fault p)
      → Ruling blames status o code failure call
      → Ruling blames status p code failure call
  moved-Ruling keeps (ended_well c) = ended_well c
  moved-Ruling keeps (faulty {message = message} h c) = faulty (keeps message true h) c
  moved-Ruling keeps (harmless {message = message} h c) = harmless (keeps message false h) c
  moved-Ruling keeps (interrupted b c) = interrupted b c
  moved-Ruling keeps (abandoned c) = abandoned c
  moved-Ruling keeps (misplaced c) = misplaced c

  pub finish-keeps :
      (o : Observation) (elapsed : ℕ) (message : Text) (fault : Bool)
      → HasError message fault o
      → HasError message fault (Observation.finish decode decode_first o elapsed)
  finish-keeps o elapsed message fault h =
      finish-HasError decode decode_first message fault o elapsed h

  finish_log-Account :
      (s : Stream) (code : ℕ) (failure : Option Text) (call : Option HealthCall)
      (metric : Option Metric) (elapsed : ℕ) {blames : Bool} {entry : Option Entry}
      {rows : List Row} {calls : List HealthCall}
      → Ruling blames s.upstream_status s.observation code failure call
      → Account blames s.upstream_status s.observation entry rows calls
      → IsBalanced blames (
          finish_log decode decode_first
            (record s { entry = entry; rows = rows; health = calls })
            code
            failure
            call
            metric
            elapsed)
  unfolding finish_log
  finish_log-Account s code failure call metric elapsed ruling (pending {e = e}) = logged (
      ruled (record s { entry = some e; rows = []; health = [] })
        (Observation.finish decode decode_first s.observation elapsed) e code s.upstream_status
        (moved-Ruling (finish-keeps s.observation elapsed) ruling))
  finish_log-Account s code failure call metric elapsed ruling (logged v) = logged v

  module _ (blames : Bool) where
    pub finish_log-IsBalanced :
        (s : Stream) (code : ℕ) (failure : Option Text) (call : Option HealthCall)
        (metric : Option Metric) (elapsed : ℕ)
        → Ruling blames s.upstream_status s.observation code failure call
        → IsBalanced blames s
        → IsBalanced blames (finish_log decode decode_first s code failure call metric elapsed)
    finish_log-IsBalanced s code failure call metric elapsed ruling b =
        finish_log-Account s code failure call metric elapsed ruling b

    charged-Ruling :
        (status : ℕ) (o : Observation) (message : Text) (fault : Bool)
        → HasError message fault o
        → Ruling blames status o 502 (some message) (charged_if decode decode_first fault)
    charged-Ruling status o message true h = faulty h refl
    charged-Ruling status o message false h = harmless h refl

    pub finish_complete-IsBalanced :
        (s : Stream) (m : Moment)
        → IsBalanced blames s
        → IsBalanced blames (finish_complete decode decode_first s m)
    unfolding finish_complete
    finish_complete-IsBalanced s m b =
        let o = Observation.finish decode decode_first s.observation m.elapsed in
        let settled : Stream = record s { observation = o } in
        let k : IsBalanced blames settled = moved (finish-keeps s.observation m.elapsed) b in
        option_all_eq (IsBalanced blames) o.stream_error _ _
          (λ none_seen.
            finish_log-IsBalanced settled s.upstream_status none (some record_success)
              (some sse_complete) m.elapsed (ended_well refl) k)
          (λ message e.
            finish_log-IsBalanced settled 502 (some message)
              (charged_if decode decode_first o.stream_error_fault) (some sse_upstream_error)
              m.elapsed (charged-Ruling s.upstream_status o message o.stream_error_fault (e, refl))
              k)

    blamed : (m : Moment) → Allows blames m → m.expired ≡ true → blames ≡ true
    blamed m (inl b) e = b
    blamed m (inr (in_time, gone)) e = cc

    blamed_here : (m : Moment) → Allows blames m → m.client_gone ≡ false → blames ≡ true
    blamed_here m (inl b) e = b
    blamed_here m (inr (in_time, gone)) e = cc

    pub finish_interrupted-IsBalanced :
        (s : Stream) (err : ReadError) (m : Moment)
        → Allows blames m
        → IsBalanced blames s
        → IsBalanced blames (finish_interrupted decode decode_first s err m)
    unfolding finish_interrupted
    finish_interrupted-IsBalanced s err m allowed b =
        let failed = some (read_error_text err) in
        if_all_eq (IsBalanced blames) m.expired _ _
          (λ late.
            finish_log-IsBalanced s 504 failed (some record_failure) (some sse_upstream_error)
              m.elapsed (interrupted (blamed m allowed late) (inr refl)) b)
          (λ in_time.
            if_all_eq (IsBalanced blames) m.client_gone _ _
              (λ gone.
                finish_log-IsBalanced s 499 (some client_left) none (some sse_client_disconnect)
                  m.elapsed (abandoned refl) b)
              (λ here.
                finish_log-IsBalanced s 502 failed (some record_failure) (some sse_upstream_error)
                  m.elapsed (interrupted (blamed_here m allowed here) (inl refl)) b))
