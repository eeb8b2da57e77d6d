-- ===== src/Config/CastTests.antt =====
-- The theorems on the casts of containers at concrete inputs.
use web_framework.Base.{
  ℕ, ◌≡◌, refl, List, [], ◌∷◌, Text, codes, Option, none, some, lookup, text_eq, text_lt, arith,
  ◌++◌, ◌>>=◌,
}
use web_framework.Config.Cast.HashMaps.{
  hash_map_to_string, hash_map_from_string, hash_map, hash_map_from_string-hash_map_to_string,
}
use web_framework.Config.Cast.Maps.{
  Stored, map_to_string, map_from_string, map_from_string-map_to_string,
}
use web_framework.Config.Member.{Node, Items, scalar}
use web_framework.Config.Yaml.Sample.{sample_yaml, encode, sample_load}

abbrev reversed {ℓ} : {A : Type ℓ} → List A → List A
reversed [] = []
reversed (x ∷ xs) = reversed xs ++ x ∷ []

-- A value of a map is stored as a document of one scalar.
abbrev scalar_text : ℕ → Option Text
scalar_text n = some (encode (scalar (n ∷ [])))

abbrev last_code : Text → Option ℕ
last_code [] = none
last_code (c ∷ []) = some c
last_code (c ∷ d ∷ t) = last_code (d ∷ t)

abbrev ports : List (Text × ℕ)
ports = (codes "http", 80) ∷ (codes "ssh", 22) ∷ []

abbrev no_pairs : Items → Option (List (Text × Node))
no_pairs xs = none

abbrev documents : List Node
documents = scalar (80 ∷ []) ∷ scalar (22 ∷ []) ∷ []

ports-reversed-Stored :
    Stored sample_yaml scalar_text last_code (reversed ports) (reversed documents)
unfolding encode sample_load
ports-reversed-Stored = ((_, refl, refl), refl, ((_, refl, refl), refl, tt))

ports-Stored : Stored sample_yaml scalar_text last_code ports documents
unfolding encode sample_load
ports-Stored = ((_, refl, refl), refl, ((_, refl, refl), refl, tt))

map_from_string-map_to_string_example :
    (map_to_string sample_yaml scalar_text ports >>= map_from_string sample_yaml no_pairs last_code)
    ≡ some ports
unfolding encode sample_load text_lt
map_from_string-map_to_string_example =
    map_from_string-map_to_string sample_yaml no_pairs scalar_text last_code ports documents
      (refl, (refl, tt)) ports-Stored refl

hash_map_from_string-hash_map_to_string_example :
    (do
      t ← hash_map_to_string sample_yaml reversed scalar_text ports
      read ← hash_map_from_string sample_yaml no_pairs last_code t
      some (hash_map read))
    ≡ some (hash_map ports)
unfolding encode sample_load text_eq lookup
hash_map_from_string-hash_map_to_string_example =
    hash_map_from_string-hash_map_to_string sample_yaml no_pairs reversed scalar_text last_code
      ports (reversed documents) (refl, (refl, tt)) (λ k. ground arith) ports-reversed-Stored refl
