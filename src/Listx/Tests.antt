-- ===== src/Listx/Tests.antt =====
-- A list with head 10 and the nodes 20, 30 and 40.
use pand_ossh.Listx.Sequence.{list_del-Holds, Holds}
use pand_ossh.Listx.{add_between, list_del, init_list_head, list_add, list_add_tail, Links}
use pand_ossh.Common.{[], arith, refl, ◌++◌, ◌∷◌}

abbrev links : Links
links = list_add_tail 40 10 (
    list_add_tail 30 10
      (list_add 20 10 (init_list_head 10 (record { next = λ _. 0; prev = λ _. 0 }))))

links-Holds : Holds links 10 (20 ∷ 30 ∷ 40 ∷ [])
unfolding list_add_tail list_add init_list_head add_between
links-Holds = record {
  linked = (refl, refl, (refl, refl, (refl, refl, (refl, refl))));
  once = λ c. ground arith;
}

list_del-Holds_example :
    Holds (list_del 30 links) 10 ((20 ∷ []) ++ 40 ∷ []) × Holds (list_del 30 links) 30 []
list_del-Holds_example = list_del-Holds links 10 (20 ∷ []) 30 (40 ∷ []) links-Holds
