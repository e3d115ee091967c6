-- ===== src/Lib.antt =====
-- A verification library for wildtoken, a gateway that forwards requests to LLM providers. The part
-- that is modelled is what decides about a request: whether its token may send it, which upstream
-- (channel) serves it, with which key, what follows a failure, and how a streamed answer is
-- observed, logged and charged.
--
-- How the parts interact. A request's rate limit expression is parsed (RateLimit.Parser) and
-- checked by the limiter (RateLimit.Limiter), which keeps one window of counts for each token
-- (RateLimit.Window); an upstream that has a limit is guarded by a limiter of the same kind. The
-- quota tracker (Quota.Tracker) weighs the request against the token's budget and holds a
-- reservation for it. The matcher (Proxy.Matcher) selects an upstream from a snapshot of the
-- enabled rows, which the routing cache (Proxy.Cache) holds until a change invalidates it; its
-- weights come from the health scores (Proxy.Health), which failures and successes move; the
-- settings (Models.Settings) give the scores their policy. The key picker (Proxy.Keys) chooses one
-- of the upstream's keys and benches those that were refused. The middleware
-- (Middleware.Downstream) asks the quota tracker and then the limiter before a request is let in.
-- While it is forwarded, the registry (Proxy.Active) shows it. The failover loop
-- (Handlers.Failover) asks these parts for one channel after another until one serves the request.
-- A streamed answer is observed as it passes (Proxy.Sse), for the usage it reports (Proxy.Usage)
-- and its end, and the stream that forwards it (Proxy.Stream) writes its log row and credits or
-- charges the upstream. Apart from that path, the throttle (AuthState.Throttle) decides who may pay
-- for the verification of an admin token, and a queue (AuthState.Queue) lets one of them at a time.
--
-- Files and the code they model:
--   RateLimit/Window, RateLimit/Limiter   internal/ratelimit/limiter.go
--   RateLimit/Parser                      internal/ratelimit/parser.go
--   Quota/Tracker                         internal/quota/tracker.go
--   Proxy/Health                          internal/proxy/health.go
--   Proxy/Keys                            internal/proxy/keys.go
--   Proxy/Matcher, Proxy/Matcher/Select   internal/proxy/matcher.go
--   Proxy/Cache                           internal/proxy/matcher.go, type RoutingCache
--   Json, Proxy/Usage, Proxy/Sse          internal/proxy/sse.go
--   Proxy/Sse/Estimate                    internal/proxy/estimate.go
--   Proxy/Stream                          internal/proxy/ssestream.go
--   Proxy/Active                          internal/proxy/active.go
--   Middleware/Downstream                 internal/middleware/auth.go, RequireDownstream
--   Handlers/Failover                     internal/handlers/proxy.go, runProxyAttempts
--   AuthState/Throttle, AuthState/Queue   internal/authstate/throttle.go
--   Models/Settings                       internal/models/settings.go
-- Below each of them, the child modules hold its lemmas and theorems, named for what they prove;
-- the Examples modules hold runs on concrete inputs. Prelude passes on the names that the
-- components share: tests, lists, maps as association lists (Prelude.Assoc), and Go's int64
-- (Prelude.Int64). Clock holds what the code uses of Go's time, Text what it uses of strings and
-- strconv.
--
-- Choices. Functions keep the code's names in snake case (getOrCreateWindow is get_or_create). An
-- int64 is its bit pattern, a number below 2 ^ 64: arithmetic wraps as in Go, and the order is the
-- signed one. An instant is its nanoseconds since Go's zero time, a duration is its nanoseconds and
-- not negative. State is passed explicitly; a method that holds its lock throughout is one step,
-- and the clock's reading is an argument. A selection reads the clock once, where the code reads it
-- for each candidate. Limiter.cleanup takes its locks twice, so it is two steps, between which
-- checks may run; the second works off any list. Throttle.Admit and Throttle.RecordFailure take one
-- lock after the other, so they too are two steps each; so is RoutingCache.Invalidate, and a round
-- of getOrLoad is an observation of the revision, the queries, and the locked end. An IP address is
-- a number. Two calls that race for a missing window are two steps in some order. The random draw
-- of the weighted choice is a parameter, a function of the total; so are the normalization of model
-- names (strings.ToLower after strings.TrimSpace), and, for the settings, strings.TrimSpace,
-- url.Parse and the test of a float. A row of the database comes with its JSON columns decoded, or
-- none where they are malformed, and with its mappings in the order of their sorted keys. JSON
-- decoding (encoding/json) is a parameter: a decoded document is a Json whose strings are native
-- strings and whose float64 is its 64 bits; the bytes of a stream are numbers, and bytes.TrimSpace
-- is written out on UTF-8. The answers of an upstream's body are a script, after which it is at its
-- end; the rows, the calls of the health manager and the metrics of a stream are lists. The
-- failover loop works on an interface, a record of the operations that it calls over a state of
-- their own. Loops are recursions over what is left, so no fuel is needed; the rounds of
-- KeyPicker.Pick count down from the number of keys, and the attempts of a request from the retries
-- that are configured. The choice of a channel is on fuel, one more than the rounds that are left
-- to it, which is enough.
--
-- Not modelled: the database, the HTTP transport, the other handlers and the console, which are
-- I/O; the parser of Retry-After headers, which reads dates; EffectiveWeight, a float for display;
-- the goroutine that calls cleanup.
pub mod AuthState
pub mod Clock
pub mod Handlers
pub mod Json
pub mod Middleware
pub mod Models
pub mod Prelude
pub mod Proxy
pub mod Quota
pub mod RateLimit
pub mod Text
