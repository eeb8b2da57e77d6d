-- ===== src/Config/Registry/Visit.antt =====
-- Config::Visit (components/config.cpp).
use web_framework.Base.{ℕ, ◌≡◌, sym, ◌∙◌, List, [], ◌∷◌, ◌++◌, map, Text, append-nil, append_assoc}
use web_framework.Config.Registry.{Datas, visit_names, visit}

visit_names-append :
    (names : List (Text × ℕ)) (seen : List ℕ)
    → visit_names (λ i before. before ++ i ∷ []) names seen ≡ seen ++ map (λ p. p.1) names
visit_names-append [] seen = sym (append-nil seen)
visit_names-append ((name, i) ∷ rest) seen =
    visit_names-append rest (seen ++ i ∷ []) ∙ append_assoc seen (i ∷ []) (map (λ p. p.1) rest)

-- Visit calls its callback on each registered variable once, in the order of their names.
visit_lem :
    {B : Type 0} (d : Datas B) → visit (λ i before. before ++ i ∷ []) d [] ≡ map (λ p. p.1) d.names
unfolding visit
visit_lem d = visit_names-append d.names []
