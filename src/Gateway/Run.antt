-- ===== src/Gateway/Run.antt =====
-- `Run` of observe-gateway/internal/server/server.go: what it makes of the end of its context and of
-- the end of its listener, in whatever order these come. Where both are ready, Go takes either.
use xscope_hub.Prelude.{Bytes, Option, none, some, List, [], ◌∷◌, Outcome, ok, err, ◌≡◌, refl}

-- How `ListenAndServe` ends.
pub data ListenError : Type 0 where
  server_closed : ListenError
  listen_failed : Bytes → ListenError

-- The context is done; the listener has ended.
pub data RunEvent : Type 0 where
  cancelled : RunEvent
  ended : ListenError → RunEvent

-- A listener that was closed has not failed.
abbrev pub result_of : ListenError → Outcome Bytes (Unit {0})
result_of server_closed = ok tt
result_of (listen_failed e) = err e

-- Behind the call of `Shutdown`, whose error is dropped.
unfoldable pub await_end : List RunEvent → Option (Outcome Bytes (Unit {0}))
await_end [] = none
await_end (cancelled ∷ es) = await_end es
await_end (ended e ∷ es) = some (result_of e)

-- `Run`: what it gives, none while it waits.
unfoldable pub run : List RunEvent → Option (Outcome Bytes (Unit {0}))
unfolding await_end
run [] = none
run (cancelled ∷ es) = await_end es
run (ended e ∷ es) = some (result_of e)

-- Whether the context ends before the listener makes no difference to what `Run` gives: it is what the
-- listener ended with.
run-cancelled : (es : List RunEvent) → run (cancelled ∷ es) ≡ run es
unfolding run await_end
run-cancelled [] = refl
run-cancelled (cancelled ∷ es) = refl
run-cancelled (ended e ∷ es) = refl
