-- ===== src/Mapper/Shift.antt =====
-- The dependencies that a local DAG file writes with `>>`: `_parse_local_dag_file` and what it calls.
-- Reading and parsing the file is handed in, as the statements in the order of `ast.walk`.
pub mod Chain
use innovativeproject_pm_gen.Base.{
  String, ◌≡◌, refl, Option, none, some, List, [], ◌∷◌, ◌++◌, ◌==◌, if◌then◌else◌,
}
use innovativeproject_pm_gen.Base.Text.{is_empty, ends_with}

-- The parts of Python's `ast` that the code tells apart; `**kwargs` is a keyword with no name.
mutual
  pub data Ast : Type 0 where
    name : String → Ast
    attribute : Ast → String → Ast
    list tuple : Elements → Ast
    rshift : Ast → Ast → Ast
    call : Ast → Keywords → Ast
    text : String → Ast
    other : Ast

  pub data Elements : Type 0 where
    nil : Elements
    cons : Ast → Elements → Elements

  pub data Keywords : Type 0 where
    end : Keywords
    keyword : String → Ast → Keywords → Keywords
    unpacked : Ast → Keywords → Keywords

-- `node.elts`, `node.targets` and so on are the fields of the two kinds of statement.
pub data Statement : Type 0 where
  assign : List Ast → Ast → Statement
  expr : Ast → Statement
  other_statement : Statement

pub record Task : Type 0 where
  pub task_id : String
  pub operator : String

-- A dict by insertion order: a key that is there keeps its place.
abbrev pub Tasks : Type 0
Tasks = List (String × Task)

unfoldable pub put_task : String → Task → Tasks → Tasks
put_task k t [] = (k, t) ∷ []
put_task k t ((j, u) ∷ m) = if j == k then (j, t) ∷ m else (j, u) ∷ put_task k t m

-- `[(source, target) for source in left for target in right]`
pairs_from : String → List String → List (String × String)
pairs_from s [] = []
pairs_from s (t ∷ ts) = (s, t) ∷ pairs_from s ts

unfoldable pub product : List String → List String → List (String × String)
unfolding pairs_from
product [] ts = []
product (s ∷ ss) ts = pairs_from s ts ++ product ss ts

unfoldable mutual
  pub dependency_terms : Ast → List String
  dependency_terms (name x) = x ∷ []
  dependency_terms (attribute a x) = []
  dependency_terms (list xs) = terms_of xs
  dependency_terms (tuple xs) = terms_of xs
  dependency_terms (rshift l r) = dependency_terms r
  dependency_terms (call f ks) = []
  dependency_terms (text s) = []
  dependency_terms other = []

  pub terms_of : Elements → List String
  terms_of nil = []
  terms_of (cons a r) = dependency_terms a ++ terms_of r

unfoldable pub extract_shift_dependencies : Ast → List (String × String)
unfolding product dependency_terms
extract_shift_dependencies (rshift l r) =
    product (dependency_terms l) (dependency_terms r)
    ++ (extract_shift_dependencies l ++ extract_shift_dependencies r)
extract_shift_dependencies _ = []

unfoldable call_name : Ast → Option String
call_name (name x) = some x
call_name (attribute a x) = some x
call_name _ = none

unfoldable keyword_string : Keywords → String → Option String
keyword_string end k = none
keyword_string (keyword j (text s) r) k = if j == k then some s else keyword_string r k
keyword_string (keyword j _ r) k = keyword_string r k
keyword_string (unpacked a r) k = keyword_string r k

-- `_keyword_string(...) or target.id`
task_id_of : Option String → String → String
task_id_of none target = target
task_id_of (some s) target = if is_empty s then target else s

record_task : String → Option String → Keywords → Tasks → Tasks
record_task target none ks tasks = tasks
record_task target (some operator) ks tasks =
    if ends_with operator "Operator"
    then put_task target
        (record { task_id = task_id_of (keyword_string ks "task_id") target; operator = operator })
        tasks
    else tasks

unfoldable pub collect_task_assignment : List Ast → Ast → Tasks → Tasks
unfolding record_task keyword_string task_id_of call_name put_task ends_with
collect_task_assignment (name target ∷ []) (call f ks) tasks =
    record_task target (call_name f) ks tasks
collect_task_assignment _ _ tasks = tasks

parse_statements : List Statement → Tasks → List (String × String) → Tasks × List (String × String)
parse_statements [] tasks deps = (tasks, deps)
parse_statements (assign targets value ∷ r) tasks deps =
    parse_statements r (collect_task_assignment targets value tasks) deps
parse_statements (expr e ∷ r) tasks deps =
    parse_statements r tasks (deps ++ extract_shift_dependencies e)
parse_statements (other_statement ∷ r) tasks deps = parse_statements r tasks deps

-- `none` where no task is found.
keep_tasks : Tasks × List (String × String) → Option (Tasks × List (String × String))
keep_tasks ([], deps) = none
keep_tasks (t ∷ ts, deps) = some (t ∷ ts, deps)

-- The statements of the file are `none` where no file is found, read or parsed.
unfoldable pub parse_local_dag_file :
    Option (List Statement) → Option (Tasks × List (String × String))
unfolding parse_statements keep_tasks extract_shift_dependencies collect_task_assignment
parse_local_dag_file none = none
parse_local_dag_file (some statements) = keep_tasks (parse_statements statements [] [])

chain_test :
    extract_shift_dependencies
      (rshift (rshift (name "a") (list (cons (name "b") (cons (name "c") nil)))) (name "d"))
    ≡ ("b", "d") ∷ ("c", "d") ∷ ("a", "b") ∷ ("a", "c") ∷ []
unfolding extract_shift_dependencies
chain_test = refl
