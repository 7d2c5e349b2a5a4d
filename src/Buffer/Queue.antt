-- ===== src/Buffer/Queue.antt =====
-- What the ring of internal/buffer/buffer.go promises: a queue of messages with a limit on their number and on their charge.
use mqtt2db_go.Prelude.{
  ℕ, ◌+◌, Bool, true, false, ◌&&◌, List, ◌∷◌, [], ◌++◌, ltb, leb, if◌then◌else◌, length, take, drop,
}
use mqtt2db_go.Message.{Message, message_size}
use mqtt2db_go.Buffer.Valid.{total_size}

unfoldable pub offer : ℕ → ℕ → List Message → Message → List Message × Bool
offer max_messages max_bytes q msg =
    if ltb (length q) max_messages && leb (total_size q + message_size msg) max_bytes
    then (q ++ msg ∷ [], true)
    else (q, false)

unfoldable pub poll : List Message → ℕ → List Message × List Message
poll q n = (drop n q, take n q)
