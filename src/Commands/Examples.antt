-- ===== src/Commands/Examples.antt =====
-- The commands of a client.
use powerguru.Prelude.{◌≡◌, [], ◌∷◌, ◌++◌, codes, arith}
use powerguru.Commands.{create_command, list, poll, nop, helo}
use powerguru.Commands.Elements.{command_of, create_command-trees}
use powerguru.Msgs.Trees.{print_tree, leaf, branch, grow, nil}

create_command-trees_example :
    (create_command list (codes "all") []
      ≡ print_tree (command_of (leaf (codes "list") [] (codes "all"))) (10 ∷ []))
    × (create_command poll (codes "all") []
        ≡ print_tree (command_of (leaf (codes "poll") [] (codes "all"))) (10 ∷ []))
    × (create_command nop (codes "all") []
        ≡ print_tree (command_of (leaf (codes "nop") [] (codes "all"))) (10 ∷ []))
    × (create_command helo (codes "a" ++ 32 ∷ codes "rob") []
        ≡ print_tree
            (command_of (
              branch (codes "helo") [] (
                grow
                  (leaf (codes "hostname") [] (codes "a"))
                  (grow (leaf (codes "user") [] (codes "rob")) nil))))
            (10 ∷ []))
create_command-trees_example =
    create_command-trees (codes "all") (codes "a") (codes "rob") [] ((λ e. ground arith), tt)
