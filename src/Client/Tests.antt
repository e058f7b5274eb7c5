-- ===== src/Client/Tests.antt =====
-- Choices of a client, and the theorems at them.
use llama_net.Prelude.{◌+◌, ◌≤◌, ◌≡◌, ◌⊎◌, refl, true, none, some, [], ◌∷◌, All}
use llama_net.Prelude.Dict
use llama_net.Prelude.Dict.{Dict}
use llama_net.Client.Nodes.{NodeInfo, tenth}
use llama_net.Client.Select.{load_balanced_select, Criteria, select_node}
use llama_net.Client.Chosen.{Named, Suitable, select_node-Suitable}
use llama_net.Client.Turns.{load_balanced_select-le}

abbrev slow : NodeInfo
slow = record { node_id = "b"; model = "llama-7b"; load = 300; tps = 4000 }

abbrev busy : NodeInfo
busy = record { node_id = "a"; model = "llama-13b"; load = 350; tps = 9000 }

abbrev known : Dict NodeInfo
known = ("b", slow) ∷ ("a", busy) ∷ []

abbrev wanted : Criteria
wanted = record {
  model = some "LLAMA";
  target_model = some "llama-13b";
  min_tps = 5000;
  max_load = 1000;
  strategy = "round_robin";
  randomize = true;
}

chosen : (select_node (λ s. s) wanted 0 known 0).0 ≡ some busy
unfolding select_node
chosen = refl

select_node-Suitable_example :
    (((select_node (λ s. s) wanted 0 known 0).0 ≡ none)
      × All (λ n. ¬ Named (λ s. s) wanted n) (Dict.values known))
    ⊎ ((m : NodeInfo) × ((select_node (λ s. s) wanted 0 known 0).0 ≡ some m)
        × Suitable (λ s. s) wanted known m)
select_node-Suitable_example = select_node-Suitable (λ s. s) wanted 0 known 0

least : load_balanced_select true 1 (busy ∷ slow ∷ []) ≡ some busy
unfolding load_balanced_select
least = refl

load_balanced_select-le_example : All (λ n. busy.load ≤ n.load + tenth) (busy ∷ slow ∷ [])
load_balanced_select-le_example = load_balanced_select-le true 1 (busy ∷ slow ∷ []) busy least
