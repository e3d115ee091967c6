-- ===== src/Proxy/Stream/Calls.antt =====
-- Every call of a stream keeps its account.
use Prim.Native.String.{String}
use text.Mathlib.Text.{◌==◌ as str_eq}
use wildtoken.Prelude.{
  ℕ, ◌≡◌, refl, Bool, true, not, ◌&&◌, ◌||◌, Option, none, some, List, [], ◌∷◌, ◌++◌, if◌then◌else◌,
  length, ◌==◌, inl, drop, if_all, option_all, list_all,
}
use wildtoken.Text.{Text}
use wildtoken.Json.{Fields}
use wildtoken.Proxy.Sse.{codes}
use wildtoken.Proxy.Sse.Observation
use wildtoken.Proxy.Sse.Observation.{Observation, push, observe_chunk}
use wildtoken.Proxy.Sse.Observation.Errors.{observe_chunk-HasError}
use wildtoken.Proxy.Stream.{
  ended_observation, settled_observation, ReadError, eof, broken, Answer, Moment, Entry, Row,
  HealthCall, record_failure, Stream, next_answer, finish_read, take_answer, drain, close_pending,
  has_entry, close, remember, after_answer, observe_answer, hold_answer, read_upstream, read,
  prime_answer, prime, mark_retried, broken_err, log_abandoned, abandon, client_left,
  sse_upstream_error, sse_client_disconnect,
}
use wildtoken.Proxy.Stream.Account.{Account, pending, logged, IsBalanced, Allows, moved}
use wildtoken.Proxy.Stream.Rulings.{
  interrupted, abandoned, misplaced, finish-keeps, finish_log-IsBalanced,
  finish_complete-IsBalanced, finish_interrupted-IsBalanced,
}

module _ (decode decode_first : Text → Option Fields) where
  module _ (blames : Bool) where
    finish_read-IsBalanced :
        (s : Stream) (err : Option ReadError) (m : Moment)
        → Allows blames m
        → IsBalanced blames s
        → IsBalanced blames (finish_read decode decode_first s err m)
    unfolding finish_read
    finish_read-IsBalanced s none m allowed b = b
    finish_read-IsBalanced s (some eof) m allowed b =
        finish_complete-IsBalanced decode decode_first blames s m b
    finish_read-IsBalanced s (some (broken message)) m allowed b =
        finish_interrupted-IsBalanced decode decode_first blames s (broken message) m allowed b

    take_answer-IsBalanced :
        (s : Stream) (a : Answer) (m : Moment)
        → IsBalanced blames s
        → IsBalanced blames (take_answer decode decode_first s a m)
    unfolding take_answer
    take_answer-IsBalanced s a m b =
        moved
          (λ message fault h.
            observe_chunk-HasError decode decode_first message fault s.observation a.bytes m.elapsed
              h)
          b

    settled-IsBalanced :
        (s : Stream) (m : Moment)
        → IsBalanced blames s
        → IsBalanced blames (record s {
          observation = Observation.finish decode decode_first s.observation m.elapsed;
        })
    settled-IsBalanced s m b = moved (finish-keeps decode decode_first s.observation m.elapsed) b

    drain-IsBalanced :
        (rest : List Answer) (s : Stream) (m : Moment)
        → IsBalanced blames s
        → IsBalanced blames (drain decode decode_first rest s m)
    unfolding drain
    drain-IsBalanced [] s m b = b
    drain-IsBalanced (a ∷ rest) s m b =
        let taken = take_answer decode decode_first s a m in
        let k = take_answer-IsBalanced s a m b in
        if_all (IsBalanced blames) s.observation.terminal_event_seen _ _ b (
          option_all (IsBalanced blames) a.failure _ _ (drain-IsBalanced rest taken m k) (λ err. k))

    close_pending-IsBalanced :
        (s : Stream) (m : Moment)
        → IsBalanced blames s
        → IsBalanced blames (close_pending decode decode_first s m)
    unfolding close_pending
    close_pending-IsBalanced s m b =
        let o = s.observation in
        let drained = not o.terminal_event_seen && not o.terminal_event_pending in
        let read = if drained then drain decode decode_first s.upstream s m else s in
        let read_b : IsBalanced blames read =
          if_all (IsBalanced blames) drained _ _ (drain-IsBalanced s.upstream s m b) b in
        let settled : Stream = record read {
          observation = Observation.finish decode decode_first read.observation m.elapsed;
        } in
        let settled_b : IsBalanced blames settled = settled-IsBalanced read m read_b in
        if_all (IsBalanced blames) (settled.observation.terminal_event_seen && not drained) _ _
          (finish_complete-IsBalanced decode decode_first blames settled m settled_b)
          (finish_log-IsBalanced decode decode_first blames settled 499 (some client_left) none
            (some sse_client_disconnect) m.elapsed (abandoned refl) settled_b)

    pub close-IsBalanced :
        (s : Stream) (m : Moment)
        → IsBalanced blames s
        → IsBalanced blames (close decode decode_first s m)
    unfolding close
    close-IsBalanced s m b =
        if_all (IsBalanced blames) (has_entry decode decode_first s.entry) _ _
          (close_pending-IsBalanced s m b) b

    mark_retried-Account :
        {status : ℕ} {o : Observation} {entry : Option Entry} {rows : List Row}
        {calls : List HealthCall}
        → Account blames status o entry rows calls
        → Account blames status o (mark_retried decode decode_first entry) rows calls
    mark_retried-Account pending = pending
    mark_retried-Account (logged v) = logged v

    log_abandoned-IsBalanced :
        (s : Stream) (m : Moment)
        → blames ≡ true
        → IsBalanced blames s
        → IsBalanced blames (log_abandoned decode decode_first s m)
    unfolding log_abandoned
    log_abandoned-IsBalanced s m blaming b =
        let marked : Stream = record s { entry = mark_retried decode decode_first s.entry } in
        let marked_b : IsBalanced blames marked = mark_retried-Account b in
        option_all (IsBalanced blames) s.observation.stream_error _ _
          (option_all (IsBalanced blames) (broken_err decode decode_first s.held_err) _ _
            (finish_log-IsBalanced decode decode_first blames marked 502
              (some (codes "upstream ended the stream before any content")) (some record_failure)
              (some sse_upstream_error) m.elapsed (interrupted blaming (inl refl)) marked_b)
            (λ err.
              finish_interrupted-IsBalanced decode decode_first blames marked err m (inl blaming)
                marked_b))
          (λ message. finish_complete-IsBalanced decode decode_first blames marked m marked_b)

    pub abandon-IsBalanced :
        (s : Stream) (m : Moment)
        → blames ≡ true
        → IsBalanced blames s
        → IsBalanced blames (abandon decode decode_first s m)
    unfolding abandon
    abandon-IsBalanced s m blaming b =
        close-IsBalanced (log_abandoned decode decode_first s m) m
          (log_abandoned-IsBalanced s m blaming b)

    module _ (preserve : String → Option Text) where
      remember-IsBalanced :
          (s : Stream) (m : Moment)
          → IsBalanced blames s
          → IsBalanced blames (remember decode decode_first preserve s m).0
      unfolding remember
      remember-IsBalanced s m b =
          let id = s.observation.response_id in
          let kept = λ (r : Stream × Option ReadError). IsBalanced blames r.0 in
          if_all kept (not s.remembers || str_eq id "" || str_eq id s.remembered_id) _ _ b (
            option_all kept (preserve id) _ _ b (λ message.
              finish_log-IsBalanced decode decode_first blames s 500
                (some (codes "could not preserve response account: " ++ message)) none none
                m.elapsed (misplaced refl) b))

      after_answer-IsBalanced :
          (s : Stream) (a : Answer) (m : Moment)
          → Allows blames m
          → IsBalanced blames s
          → IsBalanced blames (after_answer decode decode_first preserve s a m).0
      unfolding after_answer
      after_answer-IsBalanced s a m allowed b =
          let routed = (remember decode decode_first preserve s m).0 in
          let routed_b : IsBalanced blames routed = remember-IsBalanced s m b in
          option_all (λ (r : Stream × (Text × Option ReadError)). IsBalanced blames r.0)
            (remember decode decode_first preserve s m).1 _ _
            (finish_read-IsBalanced _ a.failure m allowed (
              if_all (IsBalanced blames) routed.observation.terminal_event_seen _ _
                (finish_complete-IsBalanced decode decode_first blames routed m routed_b) routed_b))
            (λ err. routed_b)

      ended-IsBalanced :
          (failure : Option ReadError) (s : Stream) (m : Moment)
          → IsBalanced blames s
          → IsBalanced blames (record s {
            observation =
                ended_observation decode decode_first preserve failure s.observation m.elapsed;
          })
      ended-IsBalanced none s m b = b
      ended-IsBalanced (some eof) s m b = settled-IsBalanced s m b
      ended-IsBalanced (some (broken message)) s m b = b

      observe_answer-IsBalanced :
          (s : Stream) (m : Moment)
          → IsBalanced blames s
          → IsBalanced blames (observe_answer decode decode_first preserve s m)
      unfolding observe_answer
      observe_answer-IsBalanced s m b =
          let (a, rest) = next_answer s.upstream in
          let open_ : Stream = record s { upstream = rest } in
          ended-IsBalanced a.failure (take_answer decode decode_first open_ a m) m
            (take_answer-IsBalanced open_ a m b)

      read_upstream-IsBalanced :
          (s : Stream) (m : Moment)
          → Allows blames m
          → IsBalanced blames s
          → IsBalanced blames (read_upstream decode decode_first preserve s m).0
      unfolding read_upstream
      read_upstream-IsBalanced s m allowed b =
          after_answer-IsBalanced (observe_answer decode decode_first preserve s m)
            (next_answer s.upstream).0 m allowed (observe_answer-IsBalanced s m b)

      pub read-IsBalanced :
          (s : Stream) (room : ℕ) (m : Moment)
          → Allows blames m
          → IsBalanced blames s
          → IsBalanced blames (read decode decode_first preserve s room m).0
      unfolding read
      read-IsBalanced s room m allowed b =
          let handed : Stream = record s { held = drop room s.held } in
          let kept = λ (r : Stream × (Text × Option ReadError)). IsBalanced blames r.0 in
          list_all kept s.held _ _
            (option_all kept s.held_err _ _ (read_upstream-IsBalanced s m allowed b)
              (λ err. finish_read-IsBalanced s (some err) m allowed b))
            (λ c cs.
              if_all (IsBalanced blames)
                (length (drop room s.held) == 0 && s.observation.terminal_event_seen) _ _
                (finish_complete-IsBalanced decode decode_first blames handed m b) b)

      held_answer-IsBalanced :
          (failure : Option ReadError) (s : Stream) (m : Moment)
          → IsBalanced blames s
          → IsBalanced blames (record s {
            observation =
                settled_observation decode decode_first preserve failure s.observation m.elapsed;
          })
      held_answer-IsBalanced none s m b = b
      held_answer-IsBalanced (some err) s m b = settled-IsBalanced s m b

      hold_answer-IsBalanced :
          (s : Stream) (a : Answer) (m : Moment)
          → IsBalanced blames s
          → IsBalanced blames (hold_answer decode decode_first preserve s a m)
      unfolding hold_answer
      hold_answer-IsBalanced s a m b =
          held_answer-IsBalanced a.failure (take_answer decode decode_first s a m) m
            (take_answer-IsBalanced s a m b)

      prime_answer-IsBalanced :
          (s : Stream) (a : Answer) (m : Moment)
          → IsBalanced blames s
          → IsBalanced blames (prime_answer decode decode_first preserve s a m).0
      unfolding prime_answer
      prime_answer-IsBalanced s a m b =
          let held = hold_answer decode decode_first preserve s a m in
          let routed_b = remember-IsBalanced held m (hold_answer-IsBalanced s a m b) in
          option_all (λ (r : Stream × Option Bool). IsBalanced blames r.0)
            (remember decode decode_first preserve held m).1 _ _ routed_b (λ err. routed_b)

      pub prime-IsBalanced :
          (rest : List Answer) (s : Stream) (m : Moment)
          → IsBalanced blames s
          → IsBalanced blames (prime decode decode_first preserve rest s m).0
      unfolding prime
      prime-IsBalanced [] s m b =
          prime_answer-IsBalanced (record s { upstream = [] })
            (record { bytes = []; failure = some eof }) m b
      prime-IsBalanced (a ∷ rest) s m b =
          let next_b = prime_answer-IsBalanced (record s { upstream = rest }) a m b in
          option_all (λ (r : Stream × Bool). IsBalanced blames r.0)
            (prime_answer decode decode_first preserve (record s { upstream = rest }) a m).1 _ _
            (prime-IsBalanced rest _ m next_b) (λ delivered. next_b)
