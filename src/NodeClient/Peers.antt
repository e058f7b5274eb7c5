-- ===== src/NodeClient/Peers.antt =====
-- The peers of inference_node/gateway_client.py: `_refresh_peers`, `get_peers` and `select_node`.
-- `str.lower` is a parameter, and "" stands for a model that is not given.
use llama_net.Prelude.{
  ℕ, ◌+◌, ◌%◌, Bool, true, false, not, Option, none, some, List, [], ◌∷◌, ◌++◌, String, str_eq, ltb,
  if◌then◌else◌, length, get_elem?, keep, map,
}
use llama_net.Prelude.Dict
use llama_net.Prelude.Codes.{contains}
use llama_net.Prelude.Text.{codes}
use llama_net.NodeClient.State.{Peer, GatewayClient, is_blank}

-- A model that the gateway lists, with its nodes.
pub record ModelInfo : Type 0 where
  pub model_name : String
  pub nodes : List Peer

abbrev has_url : Peer → Bool
has_url p = not (is_blank p.url)

abbrev as_peer : String → Peer → Peer
as_peer name p = record p { model = name }

unfoldable pub listed_peers : List ModelInfo → List Peer
listed_peers [] = []
listed_peers (info ∷ models) =
    map (as_peer info.model_name) (keep has_url info.nodes) ++ listed_peers models

-- `_refresh_peers`: without an answer of status 200 the list stays as it is.
unfoldable pub refresh_peers : Option (List ModelInfo) → GatewayClient → GatewayClient
unfolding listed_peers
refresh_peers none c = c
refresh_peers (some models) c = record c { peers = listed_peers models }

abbrev none_known : GatewayClient → Bool
none_known c = elim c.peers [ [] ↦ true | _ ↦ false ]

unfoldable pub get_peers : Bool → Option (List ModelInfo) → GatewayClient → GatewayClient
unfolding refresh_peers
get_peers force reply c =
    if force then refresh_peers reply c else if none_known c then refresh_peers reply c else c

-- `min(peers, key=…)`: the first of the least loaded.
unfoldable pub least_loaded_peer : Peer → List Peer → Peer
least_loaded_peer best [] = best
least_loaded_peer best (p ∷ ps) = least_loaded_peer (if ltb p.load best.load then p else best) ps

unfoldable pub by_peer_strategy :
    String → String → ℕ → Peer → List Peer → GatewayClient → Option Peer × GatewayClient
unfolding least_loaded_peer
by_peer_strategy strategy model draw p ps c =
    if str_eq strategy "round_robin"
    then (let idx = Dict.get_or c.rr_index model 0 % length (p ∷ ps) in
        (get_elem? (p ∷ ps) idx, record c { rr_index = Dict.put c.rr_index model (idx + 1) }))
    else if str_eq strategy "random"
    then (get_elem? (p ∷ ps) (draw % length (p ∷ ps)), c)
    else (some (least_loaded_peer p ps), c)

module _ (lower : List ℕ → List ℕ) where
  abbrev pub serves_model : String → Peer → Bool
  serves_model model p = contains (lower (codes model)) (lower (codes p.model))

  -- The peers for the model, or all of them if none serves it.
  unfoldable pub model_filter : String → List Peer → List Peer
  unfolding contains codes
  model_filter model peers =
      if is_blank model
      then peers
      else (elim (keep (serves_model model) peers) [ [] ↦ peers | p ∷ ps ↦ p ∷ ps ])

  abbrev pub others : String → List Peer → List Peer
  others id peers = keep (λ p. not (str_eq p.node_id id)) peers

  unfoldable pub select_node :
      Option (List ModelInfo) → String → String → ℕ → GatewayClient → Option Peer × GatewayClient
  unfolding get_peers model_filter by_peer_strategy
  select_node reply model strategy draw c =
      let known = get_peers false reply c in
      elim (others c.node_id (model_filter model known.peers)) [
        | [] ↦ (none, known)
        | p ∷ ps ↦ by_peer_strategy strategy model draw p ps known
      ]
