-- ===== src/Proxy/Stream/Examples.antt =====
-- A stream that its client leaves, and the theorems at it.
use Prim.Native.String.{String}
use wildtoken.Prelude.{◌≡◌, refl, true, false, Option, some, map, none, [], ◌∷◌}
use wildtoken.Text.{Text}
use wildtoken.Proxy.Sse.{codes}
use wildtoken.Proxy.Sse.Examples.{known}
use wildtoken.Proxy.Stream.{Moment, Row, Stream, new_stream, read, broken}
use wildtoken.Proxy.Stream.Account.{Account}
use wildtoken.Proxy.Stream.Once.{opens, Unattended, disconnect_spares}

abbrev preserved : String → Option Text
preserved id = none

abbrev later : Moment
later = record { elapsed = 12; expired = false; client_gone = true }

-- The upstream had sent one line that ends nothing, and was cut off.
abbrev opened : Stream
opened = new_stream (record { bytes = codes "data: U\n"; failure = none } ∷ []) 200 4096 5 true

-- The upstream breaks off while its client is gone.
abbrev breaking : Stream
breaking =
    new_stream (record { bytes = []; failure = some (broken (codes "reset")) } ∷ []) 200 4096 5 true

abbrev left : Stream
left = (read known known preserved breaking 32 later).0

disconnect_spares_example :
    Account false left.upstream_status left.observation left.entry left.rows left.health
disconnect_spares_example =
    disconnect_spares known known preserved (opens _ 200 4096 5 true) refl
      (Unattended.reads 32 later refl refl Unattended.leaves)

left_code : map (λ (r : Row). r.status_code) left.rows ≡ 499 ∷ []
unfolding read
left_code = refl
