-- ===== src/ListHead/Tests.antt =====
-- Lists on a concrete heap: the head is node 0.
use hf_ip.Prelude.{List, [], arith, if◌then◌else◌, ℕ, ◌==◌, ◌∷◌}
use hf_ip.ListHead.{Links, list_add_tail, list_del}
use hf_ip.ListHead.Shape.{IsList}
use hf_ip.ListHead.Update.{list_add_tail-IsList, list_del-IsList}

-- 0 ⇄ 5 ⇄ 9 ⇄ 0
abbrev two_next : ℕ → ℕ
two_next x = if x == 0 then 5 else (if x == 5 then 9 else 0)

abbrev two_prev : ℕ → ℕ
two_prev x = if x == 0 then 9 else (if x == 9 then 5 else 0)

abbrev two_nodes : Links
two_nodes = record { next = two_next; prev = two_prev }

two_nodes-IsList : IsList two_nodes 0 (5 ∷ 9 ∷ [])
two_nodes-IsList = ground arith

-- Node 7 is put before node 9.
list_add_tail-IsList_example : IsList (list_add_tail 7 9 two_nodes) 0 (5 ∷ 7 ∷ 9 ∷ [])
list_add_tail-IsList_example =
    list_add_tail-IsList two_nodes 0 (5 ∷ []) (9 ∷ []) 7 (ground arith) two_nodes-IsList

list_del-IsList_example : IsList (list_del 5 two_nodes) 0 (9 ∷ [])
list_del-IsList_example = list_del-IsList two_nodes 0 [] 5 (9 ∷ []) two_nodes-IsList

abbrev nodes : List ℕ
nodes = 5 ∷ 9 ∷ []
