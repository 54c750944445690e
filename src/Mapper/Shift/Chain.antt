-- ===== src/Mapper/Shift/Chain.antt =====
-- A chain `a >> b >> … >> z` of tasks and lists of tasks links each group to the next, and no others.
use innovativeproject_pm_gen.Base.{All, String, ◌≡◌, refl, ◌∙◌, List, [], ◌∷◌, ◌++◌, map}
use mathlib.Core.List.{append-nil, append_assoc}
use innovativeproject_pm_gen.Mapper.Shift.{
  dependency_terms, rshift, extract_shift_dependencies, product, Ast,
}

-- Python reads `a >> b >> c` as `(a >> b) >> c`.
abbrev pub chain : Ast → List Ast → Ast
chain a [] = a
chain a (g ∷ gs) = chain (rshift a g) gs

-- A group that holds no `>>` of its own.
abbrev pub IsGroup : Ast → Type 0
IsGroup g = extract_shift_dependencies g ≡ []

-- Each group with the next one, the last pair of groups first.
abbrev pub links : List String → List (List String) → List (String × String)
links from [] = []
links from (g ∷ gs) = links g gs ++ product from g

chain-links :
    (a : Ast) (gs : List Ast)
    → All IsGroup gs
    → extract_shift_dependencies (chain a gs)
      ≡ links (dependency_terms a) (map dependency_terms gs) ++ extract_shift_dependencies a
chain-links a [] h = refl
chain-links a (g ∷ gs) h =
    chain-links (rshift a g) gs h.1
    ∙ (unfold extract_shift_dependencies in rw (h.0, append-nil) (rw append_assoc))

-- The dependencies of a chain of groups are the pairs of a task of one group and a task of the next
-- group, for all neighbouring groups, each group's tasks read off in order.
pub extract-chain :
    (a : Ast) (gs : List Ast)
    → IsGroup a
    → All IsGroup gs
    → extract_shift_dependencies (chain a gs) ≡ links (dependency_terms a) (map dependency_terms gs)
extract-chain a gs h hs = chain-links a gs hs ∙ rw (h, append-nil)
