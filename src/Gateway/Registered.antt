-- ===== src/Gateway/Registered.antt =====
-- The URL that `publish_node` of gateway/server.py registers, and the one that it has validated.
use llama_net.Prelude.{
  ◌≡◌, ◌⊎◌, inl, inr, refl, sym, ◌∙◌, ap, subst, true, false, Option, none, some, String, str_eq,
  arith, Bool-cases, eq_iff, if◌then◌else◌,
}
use llama_net.Json
use llama_net.Json.{Value, int, str, Fields, end}
use llama_net.Prelude.Int.{pos}
use llama_net.Validate.Checks.{Checked, passed, invalid, type_error, and_then, require}
use llama_net.Validate.Nodes.{
  Library, is_safe, url_of, url_verdict, check_node_id, check_model, check_port, validate_node_url,
  validate_node_registration,
}
use llama_net.Gateway.State.{Publication, text_or, add_text, add_port, body_fields}
use llama_net.Gateway.Publication.{published_url}
use llama_net.Gateway.Vetted.{SafeUrl, empty-SafeUrl, is_safe-SafeUrl}

get-add_text_other :
    (j k : String) (o : Option String) (f : Fields)
    → str_eq j k ≡ false
    → Json.get (add_text j o f) k ≡ Json.get f k
unfolding Json.get
get-add_text_other j k none f e = refl
get-add_text_other j k (some v) f e = rw e refl

-- What a reader of the fields finds.
found_or : Option Value → Value
found_or o = elim o [ none ↦ str "" | some w ↦ w ]

tunnel_field :
    (url tunnel : Option String) (f : Fields)
    → Json.get f "tunnel_url" ≡ none
    → Json.get_or (add_text "url" url (add_text "tunnel_url" tunnel f)) "tunnel_url" (str "")
      ≡ str (text_or "" tunnel)
unfolding Json.get found_or
tunnel_field none none f e = ap found_or e
tunnel_field none (some t) f e = refl
tunnel_field (some u) none f e = ap found_or e
tunnel_field (some u) (some t) f e = refl

url_field :
    (url tunnel : Option String) (f : Fields)
    → Json.get f "url" ≡ none
    → Json.get_or (add_text "url" url (add_text "tunnel_url" tunnel f)) "url" (str "")
      ≡ str (text_or "" url)
unfolding Json.get found_or
url_field none none f e = ap found_or e
url_field none (some t) f e = ap found_or e
url_field (some u) tunnel f e = refl

-- The URL that the validator reads from the body.
validated_url : Publication → String
validated_url p = if str_eq (text_or "" p.url) "" then text_or "" p.tunnel_url else text_or "" p.url

rest_of : Publication → Fields
rest_of p = add_text "url" p.url (add_text "tunnel_url" p.tunnel_url (add_port p.port end))

named_fields :
    (p : Publication) (k : String)
    → str_eq "node_id" k ≡ false
    → str_eq "model" k ≡ false
    → Json.get (body_fields p) k ≡ Json.get (rest_of p) k
unfolding rest_of
named_fields p k e e' =
    get-add_text_other "node_id" k p.node_id (add_text "model" p.model (rest_of p)) e
    ∙ get-add_text_other "model" k p.model (rest_of p) e'

no_url : (p : Publication) → Json.get (add_port p.port end) "url" ≡ none
unfolding Json.get
no_url p = elim p.port as (λ o. Json.get (add_port o end) "url" ≡ none) [
  | none ↦ refl
  | some n ↦ refl
]

no_tunnel : (p : Publication) → Json.get (add_port p.port end) "tunnel_url" ≡ none
unfolding Json.get
no_tunnel p = elim p.port as (λ o. Json.get (add_port o end) "tunnel_url" ≡ none) [
  | none ↦ refl
  | some n ↦ refl
]

choose : Value → Value → Value
choose u t = if Json.truthy u then u else t

choose_lem : (u t : String) → choose (str u) (str t) ≡ str (if str_eq u "" then t else u)
unfolding choose Json.truthy
choose_lem u t = elim (Bool-cases (str_eq u "")) [ inl e ↦ rw e refl | inr e ↦ rw e refl ]

url_of-body_fields : (p : Publication) → url_of (body_fields p) ≡ str (validated_url p)
unfolding choose rest_of found_or validated_url Json.truthy
url_of-body_fields p =
    let u : Json.get_or (body_fields p) "url" (str "") ≡ str (text_or "" p.url) =
      ap found_or (named_fields p "url" refl refl)
      ∙ url_field p.url p.tunnel_url (add_port p.port end) (no_url p) in
    let t : Json.get_or (body_fields p) "tunnel_url" (str "") ≡ str (text_or "" p.tunnel_url) =
      ap found_or (named_fields p "tunnel_url" refl refl)
      ∙ tunnel_field p.url p.tunnel_url (add_port p.port end) (no_tunnel p) in
    ap (λ x. choose x (Json.get_or (body_fields p) "tunnel_url" (str ""))) u
    ∙ ap (choose (str (text_or "" p.url))) t
    ∙ choose_lem (text_or "" p.url) (text_or "" p.tunnel_url)

and_then-passed : (a b : Checked) → and_then a b ≡ passed → (a ≡ passed) × (b ≡ passed)
and_then-passed passed b e = (refl, e)
and_then-passed (invalid status reason) b e = absurd (ground (arith, e))
and_then-passed type_error b e = absurd (ground (arith, e))

third_passed : (a b c d : Checked) → and_then a (and_then b (and_then c d)) ≡ passed → c ≡ passed
third_passed a b c d e =
    (and_then-passed c d
      (and_then-passed b (and_then c d) (and_then-passed a (and_then b (and_then c d)) e).1).1).0

url_checked :
    (l : Library) (v : Value)
    → (if Json.truthy v then require (is_safe (url_verdict l v)) "node URL rejected" else passed)
      ≡ passed
    → Json.truthy v ≡ true
    → is_safe (url_verdict l v) ≡ true
url_checked l v e t = elim (Bool-cases (is_safe (url_verdict l v))) [
  | inl h ↦ h
  | inr h ↦ absurd (ground (arith, e, t, h))
]

given_truthy : (u : String) → str_eq u "" ≡ false → Json.truthy (str u) ≡ true
unfolding Json.truthy
given_truthy u e = rw e refl

validated-SafeUrl :
    (l : Library) (p : Publication)
    → validate_node_registration l (body_fields p) ≡ passed
    → SafeUrl l (validated_url p)
unfolding validate_node_registration
validated-SafeUrl l p e = elim (Bool-cases (str_eq (validated_url p) "")) [
  | inl q ↦ subst (SafeUrl l) (sym ((eq_iff (validated_url p) "").0 q)) (empty-SafeUrl l)
  | inr q ↦
      let v = url_of (body_fields p) in
      let same = url_of-body_fields p in
      let told : Json.truthy v ≡ true = ap Json.truthy same ∙ given_truthy (validated_url p) q in
      let checked =
        third_passed (check_node_id (Json.get_or (body_fields p) "node_id" (str "")))
          (check_model (Json.get_or (body_fields p) "model" (str "unknown")))
          (if Json.truthy v
            then require (is_safe (url_verdict l v)) "node URL rejected"
            else passed)
          (check_port (Json.as_int (Json.get_or (body_fields p) "port" (int (pos 8000))))) e in
      is_safe-SafeUrl (validate_node_url l (validated_url p))
        (sym (ap (λ x. is_safe (url_verdict l x)) same) ∙ url_checked l v checked told)
]

-- The publication names one URL, as "url", as "tunnel_url", or as both; or none.
abbrev pub OneUrl : Publication → Type 0
OneUrl p =
    (text_or "" p.url ≡ "")
    ⊎ (text_or "" p.tunnel_url ≡ "")
    ⊎ (text_or "" p.url ≡ text_or "" p.tunnel_url)

same_choice :
    (u t : String)
    → (u ≡ "") ⊎ (t ≡ "") ⊎ (u ≡ t)
    → (if str_eq u "" then t else u) ≡ (if str_eq t "" then u else t)
same_choice u t o = elim (Bool-cases (str_eq u "")) [
  | inl e ↦ elim (Bool-cases (str_eq t "")) [
    | inl f ↦ rw (e, f) ((eq_iff t "").0 f ∙ sym ((eq_iff u "").0 e))
    | inr f ↦ rw (e, f) refl
  ]
  | inr e ↦ elim (Bool-cases (str_eq t "")) [
    | inl f ↦ rw (e, f) refl
    | inr f ↦
        rw (e, f)
          (elim o [
            | inl a ↦ absurd (ground (arith, e, a, eq_iff u ""))
            | inr rest ↦ elim rest [
              | inl b ↦ absurd (ground (arith, f, b, eq_iff t ""))
              | inr c ↦ c
            ]
          ])
  ]
]

same_url : (p : Publication) → OneUrl p → validated_url p ≡ published_url p
unfolding validated_url
same_url p o = same_choice (text_or "" p.url) (text_or "" p.tunnel_url) o

-- Of a publication that names one URL, the validator's check is a check of the URL that is registered.
pub published-SafeUrl :
    (l : Library) (p : Publication)
    → OneUrl p
    → validate_node_registration l (body_fields p) ≡ passed
    → SafeUrl l (published_url p)
published-SafeUrl l p o e = subst (SafeUrl l) (same_url p o) (validated-SafeUrl l p e)
