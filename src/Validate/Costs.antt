-- ===== src/Validate/Costs.antt =====
-- The cost of a request that the validator has accepted: between common/request_validator.py and
-- gateway/router.py.
use llama_net.Prelude.{
  some_inj, ℕ, ◌*◌, ◌≤◌, ◌≡◌, refl, sym, ◌∙◌, Option, some, List, [], ◌∷◌, String, arith, inl, inr,
  Option-cases, All,
}
use native.Mathlib.Nat.{mul-le-mul}
use llama_net.Prelude.Text.{codes}
use llama_net.Prelude.Int.{ℤ, pos, negsuc, pos-mul, ◌*ℤ◌, ◌≤ℤ◌, int_laws}
use llama_net.Json
use llama_net.Json.{Value, null, bool, int, real, str, arr, obj, Fields}
use llama_net.Validate.Checks.{passed, max_max_tokens, not_null, given}
use llama_net.Validate.Accepted.{GoodTokens, validate_chat_request-GoodChat}
use llama_net.Validate.Requests.{validate_chat_request}
use llama_net.Router.State.{World, ModelRouter}
use llama_net.Router.Budget.{model_size_tiers, multiplier_in, estimate_request_cost}
use llama_net.Router.Route.{object, chat, Cost, model_of, request_cost, route}
use llama_net.Router.Spending.{Solvent, route_keeps_budget}

multiplier_range :
    (tiers : List (String × ℕ)) (name : List ℕ)
    → All (λ t. (1 ≤ t.1) × (t.1 ≤ 8)) tiers
    → (1 ≤ multiplier_in tiers name) × (multiplier_in tiers name ≤ 8)
unfolding multiplier_in
multiplier_range [] name h = (omega arith, omega arith)
multiplier_range ((p, m) ∷ tiers) name h = ground (arith, h.0, multiplier_range tiers name h.1)

tiers_range : All (λ t. (1 ≤ t.1) × (t.1 ≤ 8)) model_size_tiers
tiers_range = ground arith

not_null_lem : (v : Value) (n : ℤ) → Json.as_int v ≡ some n → not_null v ≡ some v
unfolding Json.as_int
not_null_lem null n h = absurd (ground (arith, h))
not_null_lem (bool b) n h = refl
not_null_lem (int k) n h = refl
not_null_lem (real x) n h = refl
not_null_lem (str s) n h = refl
not_null_lem (arr xs) n h = refl
not_null_lem (obj f) n h = refl

-- The number that the router reads, 100 by default, is one that the validator has looked at.
tokens_range :
    (body : Fields) (n : ℤ)
    → GoodTokens (given body "max_tokens")
    → Json.as_int (Json.get_or body "max_tokens" (int (pos 100))) ≡ some n
    → (pos 1 ≤ℤ n) × (n ≤ℤ pos max_max_tokens)
tokens_range body n g q = elim (Option-cases (Json.get body "max_tokens")) [
  | inl e ↦ unfold Json.as_int in ground (arith, q, e)
  | inr (v, e) ↦
      let q' : Json.as_int v ≡ some n = ground (arith, q, e) in
      let there : given body "max_tokens" ≡ some v = ground (arith, e, not_null_lem v n q') in
      let (k, a, b, c) = g v there in ground (arith, b, c, some_inj (sym a ∙ q'))
]

product_range :
    (n : ℤ) (m : ℕ)
    → pos 1 ≤ℤ n
    → n ≤ℤ pos 16384
    → 1 ≤ m
    → m ≤ 8
    → (pos 1 ≤ℤ n *ℤ pos m) × (n *ℤ pos m ≤ℤ pos (16384 * 8))
product_range (pos k) m a b c d =
    rw (pos-mul k m) (omega (arith, mul-le-mul a c), omega (arith, mul-le-mul b d))
product_range (negsuc k) m a b c d = absurd (omega (arith, a))

-- The cost of an accepted chat request, if it can be reckoned, is more than nothing and at most 16384
-- tokens at the largest multiplier. (Units are hundredths.)
pub accepted_cost :
    (w : World) (body : Fields) (c : Cost)
    → validate_chat_request body ≡ passed
    → request_cost w body ≡ some c
    → (pos 1 ≤ℤ c.units) × (c.units ≤ℤ pos (16384 * 8))
unfolding request_cost estimate_request_cost
accepted_cost w body c h q =
    let good = (validate_chat_request-GoodChat body h).tokens in
    elim (Option-cases (model_of (Json.get_or body "model" (str "")))) [
      | inl e ↦ absurd (ground (arith, q, e))
      | inr (model, e) ↦
          elim (Option-cases (Json.as_int (Json.get_or body "max_tokens" (int (pos 100))))) [
            | inl f ↦ absurd (ground (arith, q, e, f))
            | inr (n, f) ↦
                let r = tokens_range body n good f in
                let m = multiplier_range model_size_tiers (w.lower (codes model)) tiers_range in
                let u : c.units
                    ≡ n *ℤ pos (multiplier_in model_size_tiers (w.lower (codes model))) =
                  ground (arith, q, e, f) in
                rw u (
                  product_range n (multiplier_in model_size_tiers (w.lower (codes model))) r.0 r.1
                    m.0 m.1)
          ]
    ]

-- From the validator to the table of the budgets: handling a chat request that the validator accepts
-- keeps every key within its hourly compute budget, if the entries of the table kept within it, were
-- not negative and were not ahead of the clock before, and the clock does not run backwards between
-- the check and the record.
pub accepted_keeps_budget :
    (w : World) (clock : ℕ → ℕ) (budget : ℤ) (auth : Option String) (body : Fields)
    (s : ModelRouter)
    → clock 0 ≤ clock 4
    → validate_chat_request body ≡ passed
    → Solvent budget (clock 0) s
    → Solvent budget (clock 4) (route w clock chat auth (object body) s).1
accepted_keeps_budget w clock budget auth body s ordered h =
    route_keeps_budget w clock chat budget ordered auth body s
      (λ c q. omega (int_laws, accepted_cost w body c h q))
