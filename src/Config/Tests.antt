-- ===== src/Config/Tests.antt =====
-- The theorems on the configuration at concrete inputs. A variable here holds a number; its text is
-- the number's unary form, and its type number is 1.
use web_framework.Base.{
  ℕ, zero, suc, ◌≡◌, ◌↔◌, refl, Bool, true, false, List, [], ◌∷◌, Text, codes, Option, none, some,
  length, lookup, ◌==◌, if◌then◌else◌, text_eq_iff, arith, sym, subst, ◌∙◌, ◌++◌,
}
use web_framework.Config.Member.{
  Node, scalar, mapping, entry, end, is_key, is_key_char, list_all_member, In, Reaches,
  list_all_member_iff,
}
use web_framework.Config.Variable.{returned, threw, Callback, ConfigVar, set_value}
use web_framework.Config.Variable.Laws.{quiet, run_all, set_value_lem}
use web_framework.Config.Registry.{Datas, lookup_or_create}
use web_framework.Config.Registry.Types.{IsAnswer, lookup_or_create-types}
use web_framework.Config.Registry.Laws.{IsRegistry, lookup_or_create-IsRegistry}

-- system: { port: 9900, Bad: 1 }
abbrev document : Node
document = mapping (
    entry (codes "system")
      (mapping (
        entry (codes "port") (scalar (codes "9900"))
          (entry (codes "Bad") (scalar (codes "1")) end)))
      end)

abbrev system_node : Node
system_node =
    mapping
      (entry (codes "port") (scalar (codes "9900")) (entry (codes "Bad") (scalar (codes "1")) end))

listed :
    list_all_member [] document
    ≡ ([], document)
      ∷ (codes "system", system_node)
      ∷ (codes "system.port", scalar (codes "9900"))
      ∷ []
unfolding list_all_member is_key_char
listed = refl

list_all_member_iff_example :
    In (codes "system.port", scalar (codes "9900")) (list_all_member [] document)
    ↔ Reaches (codes "system.port") (scalar (codes "9900")) [] document
list_all_member_iff_example =
    list_all_member_iff (codes "system.port") (scalar (codes "9900")) [] document

abbrev unary : ℕ → Text
unary zero = []
unary (suc n) = b'1' ∷ unary n

abbrev parse : Text → Option ℕ
parse [] = some 0
parse (c ∷ cs) = if c == b'1' then some (suc (length cs)) else none

abbrev print : ℕ → Option Text
print n = some (unary n)

abbrev same : ℕ → ℕ → Bool
same a b = a == b

abbrev note : ℕ → ℕ → List ℕ → List ℕ
note old new s = new ∷ s

abbrev fails : Callback ℕ (List ℕ)
fails old new s = threw s

abbrev port : ConfigVar ℕ (List ℕ)
port = record {
  name = codes "system.port";
  description = [];
  value = 2;
  callbacks = quiet ((1, note) ∷ []);
}

set_value_lem_example :
    (same 3 2 ≡ true → set_value same port 3 [] ≡ (port, returned []))
    × (same 3 2 ≡ false
        → port.callbacks ≡ quiet ((1, note) ∷ [])
        → set_value same port 3 []
          ≡ (record port { value = 3 }, returned (run_all ((1, note) ∷ []) 2 3 [])))
    × (same 3 2 ≡ false
        → port.callbacks ≡ quiet ((1, note) ∷ []) ++ (2, fails) ∷ []
        → fails 2 3 (run_all ((1, note) ∷ []) 2 3 []) ≡ threw (3 ∷ [])
        → set_value same port 3 [] ≡ (port, threw (3 ∷ [])))
set_value_lem_example = set_value_lem same port 3 [] ((1, note) ∷ []) 2 fails [] (3 ∷ [])

-- The registry of variables without listeners.
abbrev type_of : ConfigVar ℕ (List ℕ) → ℕ
type_of v = 1

abbrev registry : Datas (ConfigVar ℕ (List ℕ))
registry = record { names = (codes "fiber.stack_size", 0) ∷ []; objects = port ∷ [] }

found_at :
    (name : Text) (i : ℕ)
    → lookup name registry.names ≡ some i
    → (codes "fiber.stack_size" ≡ name) × (0 ≡ i)
unfolding lookup
found_at name i h = ground (arith, text_eq_iff (codes "fiber.stack_size") name)

registry-IsRegistry : IsRegistry registry
unfolding is_key_char
registry-IsRegistry = record {
  valid = λ name i h. subst (λ n. is_key n ≡ true) (found_at name i h).0 refl;
  exists = λ name i h. omega (arith, (found_at name i h).1);
  distinct = λ name other i h g. sym (found_at name i h).0 ∙ (found_at other i g).0;
}

lookup_or_create-IsRegistry_example :
    IsRegistry (lookup_or_create type_of 1 registry (codes "system.port") port).0
lookup_or_create-IsRegistry_example =
    lookup_or_create-IsRegistry type_of 1 registry (codes "system.port") port registry-IsRegistry

lookup_or_create-types_example :
    IsAnswer type_of 1 registry
      (codes "system.port")
      (lookup_or_create type_of 1 registry (codes "system.port") port)
lookup_or_create-types_example =
    lookup_or_create-types type_of 1 registry (codes "system.port") port registry-IsRegistry refl
