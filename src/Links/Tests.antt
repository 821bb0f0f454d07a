-- ===== src/Links/Tests.antt =====
-- Runs of the lists.
use mzx.Base.{◌≡◌, [], ◌∷◌, refl, arith, some, none}
use mzx.Run.{ok, abort, Returns, ◌>>=◌}
use mzx.Links.{Links, write, insert, erase, push_front, push_back, clear}
use mzx.Links.Chain.{contains, distinct}
use mzx.Links.Frame.{AreApart, erase-IsList_other}
use mzx.Links.Laws.{IsList, push_back-IsList, erase-IsList, clear-IsList}

-- four nodes that stand alone
abbrev alone : Links
alone = record { prev = λ n. n; next = λ n. n }

-- the list at 0 with the nodes 1 and 2
abbrev pair : Links
pair = insert 2 1 0 (insert 1 0 0 alone)

push_test : (push_back 0 (some 1) alone >>= λ s. push_back 0 (some 2) s) ≡ ok pair
unfolding push_back insert write
push_test = refl

nullptr_test : push_front 0 none alone ≡ abort
unfolding push_front
nullptr_test = refl

alone-IsList : IsList alone 0 []
unfolding distinct contains
alone-IsList = record { nodes = refl; chain = (refl, refl) }

pair-IsList : IsList pair 0 (1 ∷ 2 ∷ [])
unfolding distinct contains insert write
pair-IsList = record { nodes = refl; chain = (refl, refl, (refl, refl, (refl, refl))) }

push_back-IsList_example : Returns (λ t. IsList t 0 (1 ∷ 2 ∷ 3 ∷ [])) (push_back 0 (some 3) pair)
unfolding contains
push_back-IsList_example = push_back-IsList pair 0 3 (1 ∷ 2 ∷ []) pair-IsList refl

erase-IsList_example : ((erase 1 pair).0 ≡ 2) × IsList (erase 1 pair).1 0 (2 ∷ [])
erase-IsList_example = erase-IsList pair 0 1 [] (2 ∷ []) pair-IsList

clear-IsList_example : Returns (λ t. IsList t 0 []) (clear 3 0 pair)
clear-IsList_example = clear-IsList 3 pair 0 (1 ∷ 2 ∷ []) (omega arith) pair-IsList

-- the list at 3 with the node 4, beside the other one
abbrev both : Links
both = insert 4 3 3 pair

both-IsList : IsList both 0 (1 ∷ 2 ∷ []) × IsList both 3 (4 ∷ [])
unfolding distinct contains insert write
both-IsList = (
  record { nodes = refl; chain = (refl, refl, (refl, refl, (refl, refl))) },
  record { nodes = refl; chain = (refl, refl, (refl, refl)) },
)

both-AreApart : AreApart (0 ∷ 1 ∷ 2 ∷ []) (3 ∷ 4 ∷ [])
unfolding contains
both-AreApart x h = ground arith

both-AreApart_with : AreApart (5 ∷ 0 ∷ 1 ∷ 2 ∷ []) (3 ∷ 4 ∷ [])
unfolding contains
both-AreApart_with x h = ground arith

erase-IsList_other_example : IsList (erase 1 both).1 3 (4 ∷ [])
erase-IsList_other_example =
    erase-IsList_other both 0 1 [] (2 ∷ []) 3 (4 ∷ []) both-IsList.0 both-IsList.1 both-AreApart
