-- ===== src/Log/Yaml/Manager.antt =====
-- What the variable `logs` reads from the text that LoggerManager::toYamlString writes
-- (components/log.h, components/log.cpp).
use web_framework.Base.{
  ℕ, ◌≡◌, refl, ap, ◌∙◌, List, [], ◌∷◌, All, map, Text, Option, some, get_elem?, ◌>>=◌,
}
use web_framework.Log.World.{LogAppender, Logger, World}
use web_framework.Log.Define.{LogDefine, define_lt}
use web_framework.Log.Define.Cast.{read_define}
use web_framework.Log.Define.Cast.Read.{push_items, item_list-push_items}
use web_framework.Log.Define.Variable.{read_defines}
use web_framework.Log.Yaml.{
  appender_node, logger_entries, logger_yaml, push_loggers, sequence_or_null, manager_yaml,
}
use web_framework.Log.Yaml.Saved.{
  define_of, appenders_at, logger_node, push_appenders-push_nodes, read_define-logger_yaml,
}
use web_framework.Config.Member.{Node, Items, nil, item, Entries}
use web_framework.Config.Yaml.{Yaml, Reloads, item_list, push_item}
use web_framework.Config.Cast.{
  cast_all, item_texts, node_texts, vector_from_string, set_from_string,
}
use web_framework.Config.Cast.Ascending.{IsAscending, IsBelow-nil, insert_elements-append}

-- A logger with the appenders behind its pointers.
abbrev pub Saved : Type 0
Saved = Logger × List LogAppender

-- These are the loggers of the manager, and yaml-cpp reads back the documents of each.
abbrev pub AreSaved : Yaml → World → List (Text × ℕ) → List Saved → Type 0
AreSaved y w [] [] = Unit
AreSaved y w ((name, i) ∷ named) ((l, ps) ∷ more) =
    (get_elem? w.loggers i ≡ some l)
    × (appenders_at w l.appenders ≡ some ps)
    × All (λ p. Reloads y (appender_node p)) ps
    × Reloads y (logger_node l ps)
    × AreSaved y w named more
AreSaved y w _ _ = ⊥

abbrev node_of : Saved → Node
node_of (l, ps) = logger_node l ps

abbrev pub definition_of : Saved → LogDefine
definition_of (l, ps) = define_of l ps

-- The node that LoggerManager::toYamlString writes.
abbrev pub manager_node : List Saved → Node
manager_node saved = sequence_or_null (push_items nil (map node_of saved))

logger_yaml-logger_node :
    (y : Yaml) (w : World) (l : Logger) (ps : List LogAppender)
    → appenders_at w l.appenders ≡ some ps
    → All (λ p. Reloads y (appender_node p)) ps
    → logger_yaml y w l ≡ some (y.dump (logger_node l ps))
unfolding logger_yaml
logger_yaml-logger_node y w l ps at reloads =
    rw (push_appenders-push_nodes y w l.appenders ps (logger_entries l) at reloads) refl

push_loggers-push_items :
    (y : Yaml) (w : World) (named : List (Text × ℕ)) (saved : List Saved) (xs : Items)
    → AreSaved y w named saved
    → push_loggers y w named xs ≡ some (push_items xs (map node_of saved))
unfolding push_loggers
push_loggers-push_items y w [] [] xs h = refl
push_loggers-push_items y w ((name, i) ∷ named) ((l, ps) ∷ more) xs
      (at, found, reloads, whole, later) =
    rw (at, logger_yaml-logger_node y w l ps found reloads, whole)
      (push_loggers-push_items y w named more (push_item xs (logger_node l ps)) later)
push_loggers-push_items y w _ _ xs h = absurd h

read_define-node_of :
    (y : Yaml) (w : World) (named : List (Text × ℕ)) (saved : List Saved)
    → AreSaved y w named saved
    → cast_all (read_define y) (map y.dump (map node_of saved)) ≡ some (map definition_of saved)
unfolding cast_all
read_define-node_of y w [] [] h = refl
read_define-node_of y w ((name, i) ∷ named) ((l, ps) ∷ more) (at, found, reloads, whole, later) =
    let text = logger_yaml-logger_node y w l ps found reloads in
    let read : read_define y (y.dump (logger_node l ps)) ≡ some (define_of l ps) =
      rw text at (read_define-logger_yaml y w l ps found reloads whole) in
    rw (read, read_define-node_of y w named more later) refl
read_define-node_of y w _ _ h = absurd h

module _ (load : Text → Option Node) (dump : Node → Text) (at_index : Entries → List Text) where
  item_texts-item_list : (xs : Items) → item_texts load dump at_index xs ≡ map dump (item_list xs)
  unfolding item_texts item_list
  item_texts-item_list nil = refl
  item_texts-item_list (item n xs) = ap (◌∷◌ (dump n)) (item_texts-item_list xs)

  node_texts-sequence_or_null :
      (xs : Items) → node_texts load dump at_index (sequence_or_null xs) ≡ map dump (item_list xs)
  unfolding node_texts item_list
  node_texts-sequence_or_null nil = refl
  node_texts-sequence_or_null (item n xs) = item_texts-item_list (item n xs)

-- The text that LoggerManager::toYamlString writes is a text for the variable `logs`: it reads as
-- one definition for each logger, in the order of their names, as the logger stands but for levels
-- that have no name, which are written UNKNOWN and read as level 0. yaml-cpp is taken to read back
-- these documents as it wrote them.
pub read_defines-manager_yaml :
    (y : Yaml) (w : World) (saved : List Saved)
    → AreSaved y w w.named saved
    → IsAscending define_lt (map definition_of saved)
    → Reloads y (manager_node saved)
    → (manager_yaml y w >>= read_defines y) ≡ some (map definition_of saved)
unfolding manager_yaml read_defines set_from_string vector_from_string
read_defines-manager_yaml y w saved h ordered whole =
    let index : Entries → List Text = λ es. map y.dump (y.map_elements es) in
    let texts : node_texts y.load y.dump index (manager_node saved)
        ≡ map y.dump (map node_of saved) =
      node_texts-sequence_or_null y.load y.dump index (push_items nil (map node_of saved))
      ∙ ap (map y.dump) (item_list-push_items nil (map node_of saved)) in
    rw
      (
        push_loggers-push_items y w w.named saved nil h,
        whole,
        texts,
        read_define-node_of y w w.named saved h,
      )
      (ap some (
        insert_elements-append define_lt (map definition_of saved) []
          (IsBelow-nil define_lt (map definition_of saved)) ordered))
