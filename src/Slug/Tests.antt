-- ===== src/Slug/Tests.antt =====
-- Slugs of two names, and the theorems at them.
use llama_net.Prelude.{◌≡◌, refl}
use llama_net.Prelude.Text.{codes}
use llama_net.Slug.{model_name_to_slug}
use llama_net.Slug.Shape.{IsSlug, model_name_to_slug-IsSlug, model_name_to_slug_idem}

run_of_others : model_name_to_slug (λ s. s) (codes " llama: 3.1_(8b) ") ≡ codes "llama-3-1-8b"
unfolding model_name_to_slug codes
run_of_others = refl

model_name_to_slug-IsSlug_example : IsSlug (model_name_to_slug (λ s. s) (codes " llama: 3.1_(8b) "))
model_name_to_slug-IsSlug_example = model_name_to_slug-IsSlug (λ s. s) (codes " llama: 3.1_(8b) ")

model_name_to_slug_idem_example :
    model_name_to_slug (λ s. s) (model_name_to_slug (λ s. s) (codes "llama-3--7b"))
    ≡ model_name_to_slug (λ s. s) (codes "llama-3--7b")
model_name_to_slug_idem_example =
    model_name_to_slug_idem (λ s. s) (codes "llama-3--7b") (λ s h. refl)
