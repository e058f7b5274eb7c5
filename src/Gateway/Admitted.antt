-- ===== src/Gateway/Admitted.antt =====
-- What a node that is given a token has passed.
use llama_net.Prelude.{
  ℕ, ◌≡◌, ◌≢◌, refl, sym, ap, subst, ◌∙◌, Bool, true, false, Option, some, List, String, str_eq,
  eq_iff, if◌then◌else◌, arith, Bool-cases, inl, inr,
}
use llama_net.Prelude.Int.{ℤ}
use llama_net.RateLimit.Limiter.{Request, pass, deny}
use llama_net.RateLimit.Limiter
use llama_net.RateLimit.Check.{check_node_publish}
use llama_net.Validate.Checks.{Checked, passed, invalid, type_error}
use llama_net.Validate.Requests.{validate_request_body_size}
use llama_net.Validate.Nodes.{validate_node_registration}
use llama_net.QualityGate.Hardware.{evaluate_hardware, HardwareVerdict}
use llama_net.NodeAuth.Tokens.{get_token}
use llama_net.NodeAuth.Issued.{found_after}
use llama_net.Database.State.{Manager}
use llama_net.Database.Calls.{Outcome, returned, raised, Schedule}
use llama_net.Gateway.State.{Publication, text_or, body_fields, World, Gateway}
use llama_net.Gateway.Publication.{hardware_of, hardware_admits, Probed, kept, weak, publish_rows}
use llama_net.Gateway.Publish.{
  refused, token, Answered, finish, behind_hardware, behind_validation, publish_body, behind_size,
  behind_limit, publish_node,
}

-- An answer with a token.
abbrev pub IsToken : List ℕ → Answered → Type 0
IsToken t a = a.0 ≡ token t

-- A stage gives a token only if its check passes, and is then the stages behind it.
behind_limit-token :
    {t : List ℕ} (o : Limiter.Outcome) (g : Gateway) (s : Schedule) (rest : Answered)
    → IsToken t (behind_limit o g s rest)
    → (o ≡ pass) × (behind_limit o g s rest ≡ rest)
behind_limit-token pass g s rest h = (refl, refl)
behind_limit-token (deny l wait) g s rest h = absurd (ground (arith, h))
behind_limit-token Limiter.raised g s rest h = absurd (ground (arith, h))

behind_size-token :
    {t : List ℕ} (c : Checked) (g : Gateway) (s : Schedule) (rest : Answered)
    → IsToken t (behind_size c g s rest)
    → (c ≡ passed) × (behind_size c g s rest ≡ rest)
behind_size-token passed g s rest h = (refl, refl)
behind_size-token (invalid status reason) g s rest h = absurd (ground (arith, h))
behind_size-token type_error g s rest h = absurd (ground (arith, h))

behind_validation-token :
    {t : List ℕ} (c : Checked) (g : Gateway) (s : Schedule) (rest : Answered)
    → IsToken t (behind_validation c g s rest)
    → (c ≡ passed) × (behind_validation c g s rest ≡ rest)
behind_validation-token passed g s rest h = (refl, refl)
behind_validation-token (invalid status reason) g s rest h = absurd (ground (arith, h))
behind_validation-token type_error g s rest h = absurd (ground (arith, h))

behind_hardware-token :
    {t : List ℕ} (v : HardwareVerdict) (g : Gateway) (s : Schedule) (rest : Answered)
    → IsToken t (behind_hardware v g s rest)
    → (hardware_admits v ≡ true) × (behind_hardware v g s rest ≡ rest)
behind_hardware-token v g s rest h = elim (Bool-cases (hardware_admits v)) [
  | inl e ↦ (e, ap (λ b. if b then rest else (refused 403 "hardware", g, s)) e)
  | inr e ↦ absurd (ground (arith, h, e))
]

not_same : (a b : String) → str_eq a b ≡ false → a ≢ b
not_same a b h = ground (arith, h, eq_iff a b)

refused_else-token :
    {t : List ℕ} (b : Bool) (bad rest : Answered)
    → (IsToken t bad → ⊥)
    → IsToken t (if b then bad else rest)
    → (b ≡ false) × ((if b then bad else rest) ≡ rest)
refused_else-token true bad rest never h = absurd (never h)
refused_else-token false bad rest never h = (refl, refl)

finish-token :
    (failing : Bool) {t : List ℕ} (w : World) (p : Publication) (id : String) (g : Gateway)
    (o : Outcome Probed × Manager × Schedule)
    → (finish w p id g o).0 ≡ token t
    → (o.0 ≡ returned kept)
      × ((get_token failing (w.hash id) (finish w p id g o).1.tokens).0 ≡ some t)
finish-token failing w p id g (raised, m, s) h = absurd (ground (arith, h))
finish-token failing w p id g (returned weak, m, s) h = absurd (ground (arith, h))
finish-token failing w p id g (returned kept, m, s) h =
    (refl, ground (arith, h, found_after w.token_write_fails failing w.hex (w.hash id) g.tokens))

-- What a publication has passed behind the limits.
pub record IsChecked (w : World) (p : Publication) (g : Gateway) (s : Schedule) : Type 0 where
  pub has_id : text_or "" p.node_id ≢ ""
  pub valid : validate_node_registration w.library (body_fields p) ≡ passed
  pub hardware : hardware_admits (evaluate_hardware w.lower w.gate (hardware_of p)) ≡ true
  pub rows : (publish_rows w p (text_or "" p.node_id) g.manager s).0 ≡ returned kept

publish_body-token :
    (failing : Bool) {t : List ℕ} (w : World) (p : Publication) (g : Gateway) (s : Schedule)
    → IsToken t (publish_body w p g s)
    → IsChecked w p g s
      × ((get_token failing (w.hash (text_or "" p.node_id)) (publish_body w p g s).1.tokens).0
          ≡ some t)
unfolding publish_body
publish_body-token failing {t} w p g s h =
    let id = text_or "" p.node_id in
    let i = refused_else-token (str_eq id "") _ _ (λ e. absurd (ground (arith, e))) h in
    let h1 = subst (IsToken t) i.1 h in
    let v = behind_validation-token _ g s _ h1 in
    let h2 = subst (IsToken t) v.1 h1 in
    let d = behind_hardware-token _ g s _ h2 in
    let h3 = subst (IsToken t) d.1 h2 in
    let f = finish-token failing w p id g (publish_rows w p id g.manager s) h3 in
    (
      record { has_id = not_same id "" i.0; valid = v.0; hardware = d.0; rows = f.0 },
      subst (λ a. (get_token failing (w.hash id) a.1.tokens).0 ≡ some t) (sym (i.1 ∙ v.1 ∙ d.1))
          f.1,
    )

-- What a publication has passed. `rows` says that no call of the database has raised out of its method
-- and that the probe, if there is one, was kept.
pub record IsAdmitted (w : World) (r : Request) (clock : ℕ → ℕ) (size : Option ℤ) (p : Publication)
    (g : Gateway) (s : Schedule) : Type 0 where
  pub within_rate : (check_node_publish r clock g.limiter).0 ≡ pass
  pub within_size : validate_request_body_size size ≡ passed
  pub checked : IsChecked w p g s

-- A publication that is answered with a token was within the rate limit and the size limit, has a node
-- id, is valid, runs on hardware that the quality gate admits and was not turned away by its probe;
-- and the token is the one that `get_token` then finds for the node, whether or not the database lets it
-- be read.
pub published-IsAdmitted :
    (failing : Bool) (w : World) (r : Request) (clock : ℕ → ℕ) (size : Option ℤ) (p : Publication)
    (g : Gateway) (s : Schedule) (t : List ℕ)
    → (publish_node w r clock size (some p) g s).0 ≡ token t
    → IsAdmitted w r clock size p g s
      × ((get_token failing
            (w.hash (text_or "" p.node_id))
            (publish_node w r clock size (some p) g s).1.tokens).0
          ≡ some t)
unfolding publish_node
published-IsAdmitted failing w r clock size p g s t h =
    let limited = record g { limiter = (check_node_publish r clock g.limiter).1 } in
    let l = behind_limit-token _ limited s _ h in
    let h1 = subst (IsToken t) l.1 h in
    let z = behind_size-token _ limited s _ h1 in
    let b = publish_body-token failing w p limited s (subst (IsToken t) z.1 h1) in
    (
      record {
        within_rate = l.0;
        within_size = z.0;
        checked = record {
          has_id = b.0.has_id;
          valid = b.0.valid;
          hardware = b.0.hardware;
          rows = b.0.rows;
        };
      },
      subst (λ a. (get_token failing (w.hash (text_or "" p.node_id)) a.1.tokens).0 ≡ some t)
          (sym (l.1 ∙ z.1)) b.1,
    )
