-- ===== src/Proxy/Stream/Once.antt =====
-- A stream is logged exactly once by the time it is closed, whatever is called before.
use Prim.Native.String.{String}
use wildtoken.Prelude.{
  ℕ, ◌≡◌, refl, ap, ◌∙◌, Bool, true, false, not, ◌&&◌, Option, none, some, List, if◌then◌else◌,
  Option-cases, inl, inr, if_all, option_all,
}
use wildtoken.Text.{Text}
use wildtoken.Json.{Fields}
use wildtoken.Proxy.Sse.Observation
use wildtoken.Proxy.Sse.Observation.{Observation}
use wildtoken.Proxy.Stream.{
  Answer, Moment, Entry, Row, HealthCall, Metric, Stream, new_stream, finish_log, finish_complete,
  charged_if, drain, close_pending, has_entry, close, read, prime, abandon, client_left,
  record_success, sse_complete, sse_upstream_error, sse_client_disconnect,
}
use wildtoken.Proxy.Stream.Account.{Account, pending, logged, IsBalanced}
use wildtoken.Proxy.Stream.Calls.{
  read-IsBalanced, prime-IsBalanced, abandon-IsBalanced, close-IsBalanced,
}

module _ (decode decode_first : Text → Option Fields) (preserve : String → Option Text) where
  -- The streams that calls of the type's methods lead to, at any moments.
  pub data Reachable : Stream → Type 0 where
    opens :
        (upstream : List Answer) (status capture_bytes request_tokens : ℕ) (remembers : Bool)
        → Reachable (new_stream upstream status capture_bytes request_tokens remembers)
    reads :
        {s : Stream} (room : ℕ) (m : Moment)
        → Reachable s
        → Reachable (read decode decode_first preserve s room m).0
    primes :
        {s : Stream} (m : Moment)
        → Reachable s
        → Reachable (prime decode decode_first preserve s.upstream s m).0
    abandons : {s : Stream} (m : Moment) → Reachable s → Reachable (abandon decode decode_first s m)
    closes : {s : Stream} (m : Moment) → Reachable s → Reachable (close decode decode_first s m)

  Reachable-IsBalanced : {s : Stream} → Reachable s → IsBalanced true s
  Reachable-IsBalanced (opens upstream status capture_bytes request_tokens remembers) = pending
  Reachable-IsBalanced (reads {s = s} room m r) =
      read-IsBalanced decode decode_first true preserve s room m (inl refl) (Reachable-IsBalanced r)
  Reachable-IsBalanced (primes {s = s} m r) =
      prime-IsBalanced decode decode_first true preserve s.upstream s m (Reachable-IsBalanced r)
  Reachable-IsBalanced (abandons {s = s} m r) =
      abandon-IsBalanced decode decode_first true s m refl (Reachable-IsBalanced r)
  Reachable-IsBalanced (closes {s = s} m r) =
      close-IsBalanced decode decode_first true s m (Reachable-IsBalanced r)

  log_entry :
      (s : Stream) (entry : Option Entry) (code : ℕ) (failure : Option Text)
      (call : Option HealthCall) (metric : Option Metric) (elapsed : ℕ)
      → (finish_log decode decode_first
          (record s { entry = entry })
          code
          failure
          call
          metric
          elapsed).entry
        ≡ none
  unfolding finish_log
  log_entry s none code failure call metric elapsed = refl
  log_entry s (some e) code failure call metric elapsed = refl

  finish_complete-entry :
      (s : Stream) (m : Moment) → (finish_complete decode decode_first s m).entry ≡ none
  unfolding finish_complete
  finish_complete-entry s m =
      let o = Observation.finish decode decode_first s.observation m.elapsed in
      option_all (λ (t : Stream). t.entry ≡ none) o.stream_error _ _
        (log_entry (record s { observation = o }) s.entry s.upstream_status none
          (some record_success) (some sse_complete) m.elapsed)
        (λ message.
          log_entry (record s { observation = o }) s.entry 502 (some message)
            (charged_if decode decode_first o.stream_error_fault) (some sse_upstream_error)
            m.elapsed)

  close_pending-entry :
      (s : Stream) (m : Moment) → (close_pending decode decode_first s m).entry ≡ none
  unfolding close_pending
  close_pending-entry s m =
      let o = s.observation in
      let drained = not o.terminal_event_seen && not o.terminal_event_pending in
      let read = if drained then drain decode decode_first s.upstream s m else s in
      let settled : Stream = record read {
        observation = Observation.finish decode decode_first read.observation m.elapsed;
      } in
      if_all (λ (t : Stream). t.entry ≡ none)
        (settled.observation.terminal_event_seen && not drained) _ _
        (finish_complete-entry settled m)
        (log_entry settled settled.entry 499 (some client_left) none (some sse_client_disconnect)
          m.elapsed)

  pub close-entry : (s : Stream) (m : Moment) → (close decode decode_first s m).entry ≡ none
  unfolding close
  close-entry s m = elim (Option-cases s.entry) [
    | inl done ↦
        let over : has_entry decode decode_first s.entry ≡ false = rw done refl in
        ap (λ b. (if b then close_pending decode decode_first s m else s).entry) over ∙ done
    | inr (e, open_) ↦
        let over : has_entry decode decode_first s.entry ≡ true = rw open_ refl in
        ap (λ b. (if b then close_pending decode decode_first s m else s).entry) over
        ∙ close_pending-entry s m
  ]

  -- The streams that reads, primes and closes lead to from one whose client is gone, while the time of
  -- the attempt is not over.
  pub data Unattended (s : Stream) : Stream → Type 0 where
    leaves : Unattended s s
    reads :
        {t : Stream} (room : ℕ) (m : Moment)
        → m.expired ≡ false
        → m.client_gone ≡ true
        → Unattended s t
        → Unattended s (read decode decode_first preserve t room m).0
    primes :
        {t : Stream} (m : Moment)
        → m.expired ≡ false
        → m.client_gone ≡ true
        → Unattended s t
        → Unattended s (prime decode decode_first preserve t.upstream t m).0
    closes :
        {t : Stream} (m : Moment)
        → m.expired ≡ false
        → m.client_gone ≡ true
        → Unattended s t
        → Unattended s (close decode decode_first t m)

  -- A stream that is not logged has no account yet, whoever may be blamed.
  unlogged :
      {status : ℕ} {o : Observation} {entry : Option Entry} {e : Entry} {rows : List Row}
      {calls : List HealthCall}
      → Account true status o entry rows calls
      → entry ≡ some e
      → Account false status o entry rows calls
  unlogged pending e = pending
  unlogged (logged v) e = absurd (cc)

  Unattended-IsBalanced : {s t : Stream} → IsBalanced false s → Unattended s t → IsBalanced false t
  Unattended-IsBalanced b leaves = b
  Unattended-IsBalanced b (reads {t = t} room m in_time gone u) =
      read-IsBalanced decode decode_first false preserve t room m (inr (in_time, gone))
        (Unattended-IsBalanced b u)
  Unattended-IsBalanced b (primes {t = t} m in_time gone u) =
      prime-IsBalanced decode decode_first false preserve t.upstream t m (Unattended-IsBalanced b u)
  Unattended-IsBalanced b (closes {t = t} m in_time gone u) =
      close-IsBalanced decode decode_first false t m (Unattended-IsBalanced b u)

  -- A client that leaves before the stream is logged costs its channel nothing. From then on, while
  -- the attempt's time is not over, whatever calls of Read, prime and Close follow and whatever the
  -- upstream answers: either the stream is not logged, without a call of the health manager, or it
  -- is logged in one row. That row goes with a charge only where it is a 502 with the message of an
  -- error that the stream itself reported and that blames the channel. It goes with a success only
  -- where it carries the upstream's own status. Otherwise it has a message, goes with no call, and
  -- is a 499, a 500, or a 502 for a reported error that does not blame the channel.
  pub disconnect_spares :
      {s t : Stream} {e : Entry}
      → Reachable s
      → s.entry ≡ some e
      → Unattended s t
      → Account false t.upstream_status t.observation t.entry t.rows t.health
  disconnect_spares reached open_ gone =
      Unattended-IsBalanced (unlogged (Reachable-IsBalanced reached) open_) gone
