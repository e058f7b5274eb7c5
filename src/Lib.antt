-- ===== src/Lib.antt =====
-- llama-net: a gateway that routes requests for language models to inference nodes, the nodes that run
-- the models, and clients that choose among nodes.
--
-- The program and its model. A request reaches the gateway (gateway/server.py), which counts it
-- against rate limits (common/rate_limiter.py), finds its user (gateway/auth.py), checks its body
-- (common/request_validator.py) and hands it to the router (gateway/router.py); the router holds a
-- slot and the budgets of the API key, selects a node among the rows of the database
-- (gateway/supabase_client.py) for the slug of the model (gateway/node_registry.py), and forwards the
-- request. Nodes publish themselves (inference_node/gateway_client.py) and are let in by a quality gate
-- (common/quality_gate.py). A node keeps its requests in a queue with one worker
-- (inference_node/request_queue.py) and its models in a pool (inference_node/model_pool.py), and
-- downloads them (inference_node/download_manager.py). A client may choose a node itself
-- (client/router.py). Answers are streamed as server-sent events (common/sse_handler.py).
--
--   RateLimit     RateLimiter and TokenBucket of common/rate_limiter.py. Bucket: `consume`; Limiter:
--                 the tables, `_cleanup_stale_buckets`; Check: `check_rate_limit` and
--                 `check_node_publish`, a gate for each limit, in the order of the source; Counters:
--                 the concurrency and SSE counters. Window, Retry, Sweep, Leaves, Unmoved, Admission
--                 and Connections hold the proofs.
--   Validate      RequestValidator of common/request_validator.py. Checks: what they share; Requests:
--                 the checks of bodies; Nodes: `validate_node_url` and `validate_node_registration`.
--                 Accepted, Hosts and Costs hold the proofs; Costs joins the validator to the router.
--   Slug          `model_name_to_slug` of gateway/node_registry.py; Shape holds the proofs.
--   Router        ModelRouter of gateway/router.py. State: its tables, and the World that one request
--                 reads; Select: `_select_node`; Budget: the slots and budgets; Route: the handlers
--                 and `_forward_request`. Selection, Strategies, Affinity, Sticky, Slots, Spending
--                 and Interleaving hold the proofs; Interleaving has a step for each piece of a handler
--                 between two waits that touches the slots.
--   QualityGate   NodeQualityGate of common/quality_gate.py: Gate, Hardware, Metrics; Admits holds
--                 the proofs.
--   NodeAuth      common/gateway_auth.py, the tokens with which the gateway calls nodes. Tokens:
--                 NodeTokenManager; Verify: `verify_node_request`; Issued holds the proofs.
--   RequestQueue  RequestQueueManager of inference_node/request_queue.py. State: the store of the
--                 request objects, which the queue, the table and the worker share by id; Operations:
--                 each method, cut where it waits; Steps: the interleavings. Counts, Quiet, Work,
--                 Bounds, Futures and Running hold the proofs.
--   Pool          ModelPool of inference_node/model_pool.py: State, Operations; Eviction, Sound and
--                 Loads hold the proofs.
--   Downloads     DownloadManager of inference_node/download_manager.py: State; Operations, cut where a
--                 download waits; Steps: the interleavings; Files holds the proofs.
--   Client        SimpleNodeDiscovery and NodeSelector of client/router.py: Nodes, Select; Sorting,
--                 Chosen and Turns hold the proofs.
--   Sse           common/sse_handler.py and the framing of common/models.py. Parser: `SSEParser`; Framing:
--                 what a node writes; Stream: `OpenAISSETransformer` and the streams that are read
--                 from a response, a list of decoded chunks and how it ends. Chunks and Delivery hold
--                 the proofs.
--   Database      SupabaseManager of gateway/supabase_client.py. State: the tables and the token cache;
--                 Calls: methods, in which any call of the database may raise, as a schedule says;
--                 Tokens: the token accounting; Models, Nodes, Register: the rows of nodes and of
--                 their models; Routing: the rows for the router; Keys: users, API keys and the use of
--                 tokens. Ledger, Effects, Totals, Revoked, Usage, Urls and Moving hold the proofs.
--   NodeClient    GatewayClient of inference_node/gateway_client.py. State, Register, Peers; Heartbeat:
--                 the turns of `heartbeat_loop`, with departures, events and refreshes of peers
--                 between them. Rejected holds the
--                 proofs.
--   Gateway       The handlers of gateway/server.py. Events: `GatewaySSEManager`; State: what they share,
--                 and the body of a publication; Publication and Publish: `publish_node`; Departures:
--                 `unpublish_node`; Beat, Changes and Heartbeat: `node_heartbeat`; Peers:
--                 `handle_peer_notification`; Auth: `AuthManager` of gateway/auth.py; Completions:
--                 `openai_chat_completions` and `openai_completions`, over the router and the
--                 database. A handler is made of stages, a function for each early return. Admitted,
--                 Permitted, Vetted, Urls, Registered and Joining hold the proofs; Steps has a step for
--                 heartbeats, peer notifications, departures and publications. The other handlers that
--                 change the table of nodes (node events, registrations and deletions by a user) have
--                 none.
--   Json          what `json.loads` builds, with the tests that Python makes on it.
--   Prelude       names passed on, lists and integers over native numbers, dictionaries in insertion
--                 order with their laws, texts, and texts as code points (Codes).
--
-- Conventions. State is passed explicitly: an operation takes a record and returns the new one. Each
-- reading of the clock is an argument of its own, in microseconds, and need not run forwards unless a
-- theorem says so. Token levels and compute units are exact integers in a unit small enough for the
-- source's divisions, where the source has floating point; the rounding of floats is not modelled. A
-- refusal or an HTTP error is a value, and so is an exception of Python's that leaves a function. Loops
-- are structural recursion on lists, so none needs fuel.
--
-- What is read from outside is a parameter: SHA-256, `str.lower`, `urlparse`, `ip_address`, `json.loads`
-- and the decoding of a stream, what the identity service says of a token, a node's answer, random
-- draws, the sizes of files and the load of a model. The tables of the database are part of the state;
-- the router by itself takes the rows and the tokens used as parameters. A text that stands where the
-- code reads a text, as in the body of a publication, is typed so, and a number likewise.
--
-- Not modelled: the texts of messages and log lines; the bodies of streamed answers
-- (`_stream_response`) and `list_models` in gateway/router.py; the registry beyond the slug, which
-- provisions tunnels over the network; the searches and statistics of gateway/supabase_client.py; the
-- node events, the heartbeat monitor, the pages and the lists of gateway/server.py; the server of a
-- node, inference_node/server.py; the payloads that a node builds for the gateway; the calls of
-- llama.cpp; the listeners and the local files of the download manager, and its network I/O; the
-- queues of common/sse_handler.py; metrics, configuration, network discovery and the tools. A
-- content-length that is no number is left out, and so is an integer beyond the floats where one is
-- formatted.
pub mod Prelude
pub mod Client
pub mod Database
pub mod Downloads
pub mod Gateway
pub mod Json
pub mod NodeAuth
pub mod NodeClient
pub mod Pool
pub mod QualityGate
pub mod RateLimit
pub mod RequestQueue
pub mod Router
pub mod Slug
pub mod Sse
pub mod Validate
