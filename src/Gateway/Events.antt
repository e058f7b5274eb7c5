-- ===== src/Gateway/Events.antt =====
-- `GatewaySSEManager` of gateway/server.py: the connections of browsers, each with a queue of events.
use llama_net.Prelude.{ℕ, Bool, List, [], ◌∷◌, ◌++◌, String, str_eq, leb, if◌then◌else◌, length}
use llama_net.Prelude.Dict
use llama_net.Prelude.Dict.{Dict}

-- An event, without its time: its type, and what it is about.
pub record Event : Type 0 where
  pub kind : String
  pub node_hash : String
  pub detail : List ℕ

abbrev pub queue_size : ℕ
queue_size = 100

abbrev pub Connections : Type 0
Connections = Dict (List Event)

unfoldable pub add_connection : String → Connections → Connections
add_connection id cs = Dict.put cs id []

unfoldable pub remove_connection : String → Connections → Connections
remove_connection id cs = Dict.pop cs id

abbrev pub is_full : List Event → Bool
is_full queue = leb queue_size (length queue)

-- `put_nowait` into each queue; a connection whose queue is full is dropped.
unfoldable pub broadcast : Event → Connections → Connections
broadcast e [] = []
broadcast e ((id, queue) ∷ cs) =
    let rest = broadcast e cs in if is_full queue then rest else (id, queue ++ e ∷ []) ∷ rest

abbrev behind_first : List Event → List Event
behind_first [] = []
behind_first (e ∷ es) = es

-- The stream of a browser takes the oldest event of its queue.
unfoldable pub take_event : String → Connections → Connections
take_event id [] = []
take_event id ((j, queue) ∷ cs) =
    (j, if str_eq j id then behind_first queue else queue) ∷ take_event id cs
