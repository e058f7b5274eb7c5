-- ===== src/Gateway/Joining.antt =====
-- What publications and departures do to the URLs in the table of nodes.
use llama_net.Prelude.{
  ℕ, Bool, true, false, Option, none, some, String, str_eq, ◌≡◌, refl, if◌then◌else◌, Bool-cases,
  inl, inr,
}
use llama_net.Prelude.Int.{ℤ}
use llama_net.Json.{Fields}
use llama_net.RateLimit.Limiter.{Request, pass, deny}
use llama_net.RateLimit.Limiter
use llama_net.RateLimit.Check.{check_node_publish}
use llama_net.Validate.Checks.{Checked, passed, invalid, type_error}
use llama_net.Validate.Nodes.{validate_node_registration}
use llama_net.Validate.Requests.{validate_request_body_size}
use llama_net.QualityGate.Hardware.{evaluate_hardware}
use llama_net.QualityGate.Metrics.{
  MetricsVerdict, metrics_disabled, metrics_passed, metrics_type_error, probe_failed, too_weak,
  evaluate_metrics,
}
use llama_net.NodeAuth.Tokens.{revoke_token}
use llama_net.Database.State.{User, Manager}
use llama_net.Database.Calls.{Outcome, returned, raised, Schedule, pure, ◌>>◌}
use llama_net.Database.Nodes.{no_metrics, deregister_node}
use llama_net.Database.Urls.{
  AllUrls, Keeps-bind, Keeps-then, Keeps-catch, Keeps-pure, Keeps-select, Keeps-write, Keeps-if,
}
use llama_net.Database.Moving.{
  update_node_metrics-Keeps, deregister_node-Keeps, register_node-Keeps,
}
use llama_net.Gateway.State.{World, Gateway, Publication, text_or, body_fields}
use llama_net.Gateway.Publication.{
  are_written, raise, published_url, hardware_of, hardware_admits, registration, add_system_user,
  ensure_system_user, probe_gauges, probe_succeeded, keep_probe, judge_probe, probe, publish_rows,
  Probed, kept, weak,
}
use llama_net.Gateway.Publish.{
  finish, Answered, behind_limit, behind_validation, publish_body, behind_size, publish_node,
}
use llama_net.Gateway.Departures.{Departure, left, unpublish_body, unpublish_node}
use llama_net.Gateway.Registered.{OneUrl, published-SafeUrl}
use llama_net.Gateway.Vetted.{SafeUrl, Vetted, K}

module _ (w : World) where
  keep_probe-Keeps : (hash : String) (f : Fields) → K w.library (keep_probe w hash f)
  unfolding keep_probe
  keep_probe-Keeps hash f =
      Keeps-then (SafeUrl w.library) _ _
        (update_node_metrics-Keeps (SafeUrl w.library) w.lower w.now hash
          (record no_metrics { gauges = probe_gauges f }))
        (Keeps-if (SafeUrl w.library) (are_written f) _ _ (Keeps-pure (SafeUrl w.library) kept)
          (record { at = λ m s h. h }))

  rejected-Keeps :
      (hash : String) (f : Fields)
      → K w.library (if are_written f then (deregister_node hash >> pure weak) else raise)
  rejected-Keeps hash f =
      Keeps-if (SafeUrl w.library) (are_written f) _ _
        (Keeps-then (SafeUrl w.library) _ _ (deregister_node-Keeps (SafeUrl w.library) hash)
          (Keeps-pure (SafeUrl w.library) weak))
        (record { at = λ m s h. h })

  judge_probe-Keeps :
      (hash : String) (f : Fields) (v : MetricsVerdict) → K w.library (judge_probe w hash f v)
  unfolding judge_probe
  judge_probe-Keeps hash f metrics_passed = keep_probe-Keeps hash f
  judge_probe-Keeps hash f metrics_disabled = keep_probe-Keeps hash f
  judge_probe-Keeps hash f metrics_type_error = record { at = λ m s h. h }
  judge_probe-Keeps hash f probe_failed = rejected-Keeps hash f
  judge_probe-Keeps hash f (too_weak x) = rejected-Keeps hash f

  probe-Keeps : (hash : String) (f : Option Fields) → K w.library (probe w hash f)
  unfolding probe
  probe-Keeps hash none = Keeps-pure (SafeUrl w.library) kept
  probe-Keeps hash (some f) =
      Keeps-if (SafeUrl w.library) (probe_succeeded f) _ _
        (Keeps-if (SafeUrl w.library) w.gate.enabled _ _
          (judge_probe-Keeps hash f (evaluate_metrics w.gate f)) (keep_probe-Keeps hash f))
        (Keeps-pure (SafeUrl w.library) kept)

  add_system_user-Keeps : (u : Option User) → K w.library (add_system_user u)
  add_system_user-Keeps (some u) = Keeps-pure (SafeUrl w.library) tt
  add_system_user-Keeps none = Keeps-write (SafeUrl w.library) _ (λ m h. h)

  system_user-Keeps : K w.library ensure_system_user
  unfolding ensure_system_user
  system_user-Keeps =
      Keeps-catch (SafeUrl w.library) _ _
        (Keeps-bind (SafeUrl w.library) _ _
          (Keeps-catch (SafeUrl w.library) _ _ (Keeps-select (SafeUrl w.library) _)
            (Keeps-pure (SafeUrl w.library) none))
          add_system_user-Keeps)
        (Keeps-pure (SafeUrl w.library) tt)

  publish_rows-Keeps :
      (p : Publication) (id : String)
      → SafeUrl w.library (published_url p)
      → K w.library (publish_rows w p id)
  unfolding publish_rows
  publish_rows-Keeps p id u = Keeps-then (SafeUrl w.library) _ _ system_user-Keeps (
      Keeps-bind (SafeUrl w.library) _ _ (Keeps-select (SafeUrl w.library) _) (λ existing.
        Keeps-then (SafeUrl w.library) _ _
          (register_node-Keeps (SafeUrl w.library) w.lower w.now (registration w p id) u)
          (probe-Keeps (w.hash id) p.probe_metrics)))

  finish-Vetted :
      (p : Publication) (id : String) (g : Gateway) (o : Outcome Probed × Manager × Schedule)
      → AllUrls (SafeUrl w.library) o.1
      → Vetted w.library (finish w p id g o).1
  finish-Vetted p id g (raised, m, s) h = h
  finish-Vetted p id g (returned weak, m, s) h = h
  finish-Vetted p id g (returned kept, m, s) h = h

  if-Vetted :
      (b : Bool) (x y : Answered)
      → Vetted w.library x.1
      → Vetted w.library y.1
      → Vetted w.library (if b then x else y).1
  if-Vetted true x y h k = h
  if-Vetted false x y h k = k

  validation-Vetted :
      (c : Checked) (g : Gateway) (s : Schedule) (rest : Answered)
      → Vetted w.library g
      → (c ≡ passed → Vetted w.library rest.1)
      → Vetted w.library (behind_validation c g s rest).1
  validation-Vetted passed g s rest h k = k refl
  validation-Vetted (invalid status reason) g s rest h k = h
  validation-Vetted type_error g s rest h k = h

  size-Vetted :
      (c : Checked) (g : Gateway) (s : Schedule) (rest : Answered)
      → Vetted w.library g
      → Vetted w.library rest.1
      → Vetted w.library (behind_size c g s rest).1
  size-Vetted passed g s rest h k = k
  size-Vetted (invalid status reason) g s rest h k = h
  size-Vetted type_error g s rest h k = h

  publish_limit-Vetted :
      (o : Limiter.Outcome) (g : Gateway) (s : Schedule) (rest : Answered)
      → Vetted w.library g
      → Vetted w.library rest.1
      → Vetted w.library (behind_limit o g s rest).1
  publish_limit-Vetted pass g s rest h k = k
  publish_limit-Vetted (deny t wait) g s rest h k = h
  publish_limit-Vetted Limiter.raised g s rest h k = h

  body-Vetted :
      (p : Publication) (g : Gateway) (s : Schedule)
      → OneUrl p
      → Vetted w.library g
      → Vetted w.library (publish_body w p g s).1
  unfolding publish_body
  body-Vetted p g s u h =
      let id = text_or "" p.node_id in
      if-Vetted (str_eq id "") _ _ h (
        validation-Vetted (validate_node_registration w.library (body_fields p)) g s _ h (λ ok.
          if-Vetted (hardware_admits (evaluate_hardware w.lower w.gate (hardware_of p))) _ _
            (finish-Vetted p id g (publish_rows w p id g.manager s)
              ((publish_rows-Keeps p id (published-SafeUrl w.library p u ok)).at g.manager s h))
            h))

  pub publish_node-Vetted :
      (r : Request) (clock : ℕ → ℕ) (size : Option ℤ) (p : Publication) (g : Gateway) (s : Schedule)
      → OneUrl p
      → Vetted w.library g
      → Vetted w.library (publish_node w r clock size (some p) g s).1
  unfolding publish_node
  publish_node-Vetted r clock size p g s u h =
      let limited = record g { limiter = (check_node_publish r clock g.limiter).1 } in
      let sized = validate_request_body_size size in
      let body = publish_body w p limited s in
      publish_limit-Vetted (check_node_publish r clock g.limiter).0 limited s
        (behind_size sized limited s body) h
        (size-Vetted sized limited s body h (body-Vetted p limited s u h))

  left-Vetted :
      (d : Departure) (id : String) (g : Gateway) (o : Outcome Bool × Manager × Schedule)
      → AllUrls (SafeUrl w.library) o.1
      → Vetted w.library (left w d id g o).1
  left-Vetted d id g (raised, m, s) h = h
  left-Vetted d id g (returned found, m, s) h = h

  pub unpublish_node-Vetted :
      (d : Option Departure) (g : Gateway) (s : Schedule)
      → Vetted w.library g
      → Vetted w.library (unpublish_node w d g s).1
  unfolding unpublish_node unpublish_body
  unpublish_node-Vetted none g s h = h
  unpublish_node-Vetted (some d) g s h =
      let id = text_or "" d.node_id in
      let revoked = record g { tokens = revoke_token w.token_write_fails (w.hash id) g.tokens } in
      elim (Bool-cases (str_eq id "")) [
        | inl e ↦ rw e h
        | inr e ↦ rw e (
            left-Vetted d id revoked (deregister_node (w.hash id) g.manager s)
              ((deregister_node-Keeps (SafeUrl w.library) (w.hash id)).at g.manager s h))
      ]
