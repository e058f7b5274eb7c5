-- ===== src/Gateway/Changes.antt =====
-- Whether `node_heartbeat` of gateway/server.py tells the page of a heartbeat.
use llama_net.Prelude.{
  ℕ, suc, ◌+◌, ◌*◌, max, Bool, true, false, not, Option, none, some, List, [], ◌∷◌, String, ltb,
  ◌==◌, if◌then◌else◌, length,
}
use llama_net.Prelude.Dict
use llama_net.Prelude.Dict.{Dict}
use llama_net.Prelude.Int.{ℤ, pos, ◌-ℤ◌, ◌*ℤ◌, pos_part, neg_part}
use llama_net.Json
use llama_net.Json.{Value, int, Real, ratio, nan, infinity, minus_infinity}
use llama_net.Database.State.{Gauges, NodeRow}
use llama_net.Database.Calls.{raised, Method, pure, ◌>>=◌, catch, execute, select}
use llama_net.Database.Models.{Listed, no_gauges, get_node_models}

abbrev pub magnitude : ℤ → ℕ
magnitude z = pos_part z + neg_part z

-- `abs(new - old) / max(abs(old), 0.01) > 0.05`, multiplied out. An infinite number differs from a
-- finite one before it; what is computed from an infinite old number, or with a NaN, is no number.
unfoldable pub differs : Real → Real → Bool
unfolding ◌-ℤ◌ ◌*ℤ◌
differs (ratio a b) (ratio c d) =
    ltb (max (100 * (magnitude a * suc d)) (suc b * suc d))
      (2000 * magnitude ((c *ℤ pos (suc b)) -ℤ (a *ℤ pos (suc d))))
differs (ratio a b) infinity = true
differs (ratio a b) minus_infinity = true
differs _ _ = false

-- `get(…, 0) or 0`
abbrev pub gauge : Option Value → Value
gauge none = int (pos 0)
gauge (some v) = if Json.truthy v then v else int (pos 0)

-- None is a TypeError.
abbrev pub gauge_differs : Option Value → Option Value → Option Bool
gauge_differs old new = elim (Json.as_number (gauge old)) [
  | none ↦ none
  | some x ↦ elim (Json.as_number (gauge new)) [ none ↦ none | some y ↦ some (differs x y) ]
]

-- The load and then the speed, up to the first that differs.
unfoldable pub gauges_differ : Gauges → Gauges → Option Bool
unfolding differs Json.truthy Json.as_number
gauges_differ old new = elim (gauge_differs old.load new.load) [
  | none ↦ none
  | some true ↦ some true
  | some false ↦ gauge_differs old.tps new.tps
]

abbrev pub raise : {A : Type 0} → Method A
raise m s = (raised, m, s)

abbrev pub active_gauges : Option NodeRow → Gauges
active_gauges none = no_gauges
active_gauges (some r) = if r.is_active then r.gauges else no_gauges

-- Behind the comparison of the gauges: the size of the pool.
abbrev pub pool_differs : String → List Listed → Option Bool → Method Bool
pool_differs hash pool none = raise
pool_differs hash pool (some true) = pure true
pool_differs hash [] (some false) = pure false
pool_differs hash (l ∷ ls) (some false) =
    get_node_models hash (some false) >>= λ rows. pure (not (length rows == length (l ∷ ls)))

-- Whether the page is told of the heartbeat.
unfoldable pub should_broadcast : String → List Listed → Gauges → Method Bool
unfolding gauges_differ execute get_node_models
should_broadcast hash pool new =
    catch
      (do
        old ← select (λ m. active_gauges (Dict.get m.nodes hash))
        pool_differs hash pool (gauges_differ old new))
      (pure false)
