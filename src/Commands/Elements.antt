-- ===== src/Commands/Elements.antt =====
-- The elements that `Commands::createCommand` prints.
use powerguru.Prelude.{
  suc, ◌≡◌, ◌≢◌, refl, ◌∙◌, ap, List, [], ◌∷◌, ◌++◌, none, some, Text, codes, take, drop, length,
  drop-append, All, arith,
}
use powerguru.Std.Str.{find, starts_with, body}
use powerguru.Msgs.Trees.{Tree, leaf, branch, nil, grow, print_tree}
use powerguru.Commands.{nop, list, poll, helo, create_command, helo_data}

pub find_blank :
    (s t : Text) → All (λ c. c ≢ 32) s → find (32 ∷ []) (s ++ 32 ∷ t) 0 ≡ some (length s)
unfolding find starts_with
find_blank [] t h = refl
find_blank (c ∷ s) t h = ground (arith, find_blank s t h.1)

pub take-append : (s t : Text) → take (length s) (s ++ t) ≡ s
take-append [] [] = refl
take-append [] (c ∷ t) = refl
take-append (c ∷ s) t = ap (λ u. c ∷ u) (take-append s t)

abbrev pub command_of : Tree → Tree
command_of tree = branch (codes "command") [] (grow tree nil)

abbrev newline : Text
newline = 10 ∷ []

helo_data-two :
    (host user : Text) (rest : List Text)
    → All (λ c. c ≢ 32) host
    → helo_data (host ++ 32 ∷ user) rest
      ≡ codes "<hostname>"
        ∷ host
        ∷ codes "</hostname>"
        ∷ codes "<user>"
        ∷ user
        ∷ codes "</user>"
        ∷ rest
unfolding helo_data
helo_data-two host user rest h =
    ap
      (λ o. elim o [
        | none ↦ codes "<hostname>" ∷ (host ++ 32 ∷ user) ∷ codes "</hostname>" ∷ rest
        | some pos ↦
            codes "<hostname>"
            ∷ take pos (host ++ 32 ∷ user)
            ∷ codes "</hostname>"
            ∷ codes "<user>"
            ∷ drop (suc pos) (host ++ 32 ∷ user)
            ∷ codes "</user>"
            ∷ rest
      ])
      (find_blank host user h)
    ∙ ap
        (λ s.
          codes "<hostname>"
          ∷ s
          ∷ codes "</hostname>"
          ∷ codes "<user>"
          ∷ drop (suc (length host)) (host ++ 32 ∷ user)
          ∷ codes "</user>"
          ∷ rest)
        (take-append host (32 ∷ user))
    ∙ ap
        (λ s.
          codes "<hostname>"
          ∷ host
          ∷ codes "</hostname>"
          ∷ codes "<user>"
          ∷ s
          ∷ codes "</user>"
          ∷ rest)
        (drop-append host user 32)

-- The commands for a list, a poll and for nothing are each a command that holds one element with the
-- arguments, and a line end; a greeting holds the host and the user, which a blank parts.
pub create_command-trees :
    (args host user str : Text)
    → All (λ c. c ≢ 32) host
    → (create_command list args str ≡ print_tree (command_of (leaf (codes "list") [] args)) newline)
      × (create_command poll args str
          ≡ print_tree (command_of (leaf (codes "poll") [] args)) newline)
      × (create_command nop args str ≡ print_tree (command_of (leaf (codes "nop") [] args)) newline)
      × (create_command helo (host ++ 32 ∷ user) str
          ≡ print_tree
              (command_of (
                branch (codes "helo") [] (
                  grow (leaf (codes "hostname") [] host) (grow (leaf (codes "user") [] user) nil))))
              newline)
unfolding create_command print_tree
create_command-trees args host user str h = (
  refl,
  refl,
  refl,
  ap (λ pieces. body (codes "<command>" ∷ codes "<helo>" ∷ pieces))
      (helo_data-two host user (codes "</helo>" ∷ codes "</command>\n" ∷ []) h),
)
