-- ===== src/Proxy/Sse/Examples.antt =====
-- A small stream, cut in the middle of a line, and the theorems at it.
use wildtoken.Prelude.{◌≡◌, refl, Option, some, none, [], ◌∷◌, ◌++◌, arith, if◌then◌else◌}
use wildtoken.Text.{Text, text_eq}
use wildtoken.Json.{string, object, Fields, end, field}
use wildtoken.Proxy.Usage.Examples.{claude}
use wildtoken.Proxy.Sse.{codes, sse_lines}
use wildtoken.Proxy.Sse.Observation.{nothing_observed, observe_chunk, finish, token_usage}
use wildtoken.Proxy.Sse.Observation.Chunks.{observe_chunk-append}
use wildtoken.Proxy.Sse.Observation.Bounds.{IsBounded, observe_chunk-IsBounded, finish-finish}
use wildtoken.Proxy.Sse.Buffered.{extract_usage, is_sse_content_type}
use wildtoken.Proxy.Sse.Buffered.Agreement.{joined, observe_chunks, streamed_usage}

-- A decoder that knows two documents.
abbrev pub known : Text → Option Fields
known s =
    if text_eq s (codes "U")
    then some (field "usage" (object claude) end)
    else if text_eq s (codes "E")
    then some (field "type" (string "error") (field "message" (string "no") end))
    else none

abbrev start : Text
start = codes "da"

abbrev rest : Text
rest = codes "ta: U\n\ndata: [DONE]\n"

abbrev event_stream : Text
event_stream = codes "text/event-stream"

observe_chunk-append_example :
    observe_chunk known known (observe_chunk known known nothing_observed start 7) rest 7
    ≡ observe_chunk known known nothing_observed (start ++ rest) 7
observe_chunk-append_example = observe_chunk-append known known 7 nothing_observed start rest

observe_chunk-IsBounded_example : IsBounded (observe_chunk known known nothing_observed rest 7)
observe_chunk-IsBounded_example =
    observe_chunk-IsBounded known known nothing_observed rest 7
      (record { line_fits = omega arith; tail_fits = omega arith })

streamed_usage_example :
    token_usage
      (finish known known (observe_chunks known known nothing_observed (start ∷ rest ∷ []) 7) 9)
    ≡ extract_usage known (joined (start ∷ rest ∷ [])) event_stream
unfolding is_sse_content_type sse_lines text_eq
streamed_usage_example =
    streamed_usage known known (start ∷ rest ∷ []) event_stream 7 9 refl refl
      (omega arith, (omega arith, (omega arith, tt)))

finish-finish_example :
    finish known known (finish known known (observe_chunk known known nothing_observed start 7) 8) 9
    ≡ finish known known (observe_chunk known known nothing_observed start 7) 8
finish-finish_example =
    finish-finish known known (observe_chunk known known nothing_observed start 7) 8 9
