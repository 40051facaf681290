-- ===== src/Query/Validate/Allowed.antt =====
-- What an accepted statement holds, wherever in its tree.
use mathlib.Core.Path.{subst}
use pooml.Base.{
  ◌≡◌, refl, ◌⊎◌, inl, inr, Bool, true, false, not, ◌&&◌, List, [], ◌∷◌, Option, none, some,
  if◌then◌else◌, arith, Option-cases, Bool-cases,
}
use pooml.Base.Int.{ℤ}
use pooml.Bytes.{Bytes, codes, str_eq}
use pooml.Query.Ast.{Select}
use pooml.Query.Walk.{
  Visit, with_clause, table_name, function_name, function_call, visits_stmt, nested_all,
}
use pooml.Query.Walk.Every.{EveryStmt, All, reach_stmt}
use pooml.Query.Rewrite.{Validated}
use pooml.Query.Validate.{
  Scope, scope_all, scope_logs, scope_metrics, has, allowed_tables, banned_functions, lower,
  collect_ctes, check, Checked, referenced, refused, also, ValidateError, table_not_allowed,
  check_scope, valid, finish, validate_select,
}

-- A table of another signal is outside the scope.
abbrev pub InScope : Scope → Bytes → Type 0
InScope scope_all name = Unit
InScope scope_logs name = str_eq name (codes "metrics") ≡ false
InScope scope_metrics name =
    (str_eq name (codes "logs") ≡ false) × (str_eq name (codes "logs_fts") ≡ false)

abbrev pub IsSafe : Scope → List Bytes → Visit → Type 0
IsSafe scope ctes (with_clause recursive names) = recursive ≡ false
IsSafe scope ctes (table_name schema name) =
    (schema ≡ none)
    × ((has (lower name) ctes ≡ true)
        ⊎ ((has (lower name) allowed_tables ≡ true) × InScope scope (lower name)))
IsSafe scope ctes (function_name name) = ⊥
IsSafe scope ctes (function_call name over) = has (lower name) banned_functions ≡ false

-- The names that a scope forbids are not among those referenced.
abbrev Allows : Scope → List Bytes → Type 0
Allows scope_all names = Unit
Allows scope_logs names = has (codes "metrics") names ≡ false
Allows scope_metrics names =
    (has (codes "logs") names ≡ false) × (has (codes "logs_fts") names ≡ false)

collect-with_clause :
    (visits : List Visit) (ctes : List Bytes) (r : Bool) (ns : List Bytes)
    → collect_ctes (with_clause r ns ∷ visits) ≡ some ctes
    → (r ≡ false) × ((rest : List Bytes) × (collect_ctes visits ≡ some rest))
unfolding collect_ctes
collect-with_clause visits ctes r ns h = elim (Option-cases (collect_ctes visits)) [
  | inl e ↦ absurd (ground (arith, e, h))
  | inr (rest, e) ↦ (ground (arith, e, h), (rest, e))
]

Checked-cases :
    (c : Checked)
    → ((names : List Bytes) × (c ≡ referenced names)) ⊎ ((e : ValidateError) × (c ≡ refused e))
Checked-cases (referenced names) = inl (names, refl)
Checked-cases (refused e) = inr (e, refl)

-- A name that is added makes the scope's condition stronger.
Allows-tail :
    (scope : Scope) (name : Bytes) (names : List Bytes)
    → Allows scope (name ∷ names)
    → InScope scope name × Allows scope names
unfolding has
Allows-tail scope_all name names a = (tt, tt)
Allows-tail scope_logs name names a = ground (arith, a)
Allows-tail scope_metrics name names a = ground (arith, a)

-- A table that passes, from the two tests of its name
table-also :
    (scope : Scope) (is_allowed is_cte : Bool) (name : Bytes) (c : Checked) (names : List Bytes)
    → (if not is_allowed && not is_cte
        then refused table_not_allowed
        else also (is_allowed && not is_cte) name c)
      ≡ referenced names
    → Allows scope names
    → ((is_cte ≡ true) ⊎ ((is_allowed ≡ true) × InScope scope name))
      × ((rest : List Bytes) × (c ≡ referenced rest) × Allows scope rest)
table-also scope is_allowed is_cte name (refused e) names h a = absurd (ground (arith, h))
table-also scope false false name (referenced rest) names h a = absurd (ground (arith, h))
table-also scope is_allowed true name (referenced rest) names h a =
    (inl refl, (rest, refl, subst (Allows scope) (ground (arith, h)) a))
table-also scope true false name (referenced rest) names h a =
    let split = Allows-tail scope name rest (subst (Allows scope) (ground (arith, h)) a) in
    (inr (refl, split.0), (rest, refl, split.1))

check-IsSafe :
    (scope : Scope) (ctes : List Bytes) (visits : List Visit) (names collected : List Bytes)
    → collect_ctes visits ≡ some collected
    → check ctes visits ≡ referenced names
    → Allows scope names
    → All (IsSafe scope ctes) visits
unfolding check collect_ctes
check-IsSafe scope ctes [] names cs c h a = tt
check-IsSafe scope ctes (with_clause r ns ∷ visits) names cs c h a =
    let (plain, (rest, e)) = collect-with_clause visits cs r ns c in
    (plain, check-IsSafe scope ctes visits names rest e h a)
check-IsSafe scope ctes (table_name (some schema) n ∷ visits) names cs c h a =
    absurd (ground (arith, h))
check-IsSafe scope ctes (table_name none n ∷ visits) names cs c h a =
    let (ok, (rest, e, a')) =
      table-also scope (has (lower n) allowed_tables) (has (lower n) ctes) (lower n)
        (check ctes visits) names h a in
    ((refl, ok), check-IsSafe scope ctes visits rest cs c e a')
check-IsSafe scope ctes (function_name n ∷ visits) names cs c h a = absurd (ground (arith, h))
check-IsSafe scope ctes (function_call n over ∷ visits) names cs c h a =
    elim (Bool-cases (has (lower n) banned_functions)) [
      | inl bad ↦ absurd (ground (arith, h, bad))
      | inr fine ↦ (fine, check-IsSafe scope ctes visits names cs c (ground (arith, h, fine)) a)
    ]

-- What `finish` has tested
finish-Allows :
    (atoi : Bytes → Option ℤ) (scope : Scope) (s : Select) (parts : List Select)
    (names : List Bytes) (v : Validated) (rl rm : Bool)
    → finish atoi scope s parts names ≡ valid v rl rm
    → Allows scope names
unfolding finish check_scope
finish-Allows atoi scope_all s parts names v rl rm h = tt
finish-Allows atoi scope_logs s parts names v rl rm h = ground (arith, h)
finish-Allows atoi scope_metrics s parts names v rl rm h = ground (arith, h)

-- An accepted statement has no recursive WITH clause, no table with a schema, no table-valued function
-- and no call of a banned function, anywhere in its tree, subqueries and WITH bodies included; and
-- every table in it is one of the three that are allowed, inside the scope, or has a name that some
-- WITH clause of the statement binds.
pub validate_select-IsSafe :
    (atoi : Bytes → Option ℤ) (scope : Scope) (s : Select) (parts : List Select) (v : Validated)
    (reads_logs reads_metrics : Bool)
    → validate_select atoi scope s parts ≡ valid v reads_logs reads_metrics
    → (ctes : List Bytes) × (collect_ctes (visits_stmt true (nested_all s parts)) ≡ some ctes)
      × EveryStmt (IsSafe scope ctes) (nested_all s parts)
unfolding validate_select
validate_select-IsSafe atoi scope s parts v rl rm h =
    let visits = visits_stmt true (nested_all s parts) in
    elim (Option-cases (collect_ctes visits)) [
      | inl e ↦ absurd (ground (arith, e, h))
      | inr (ctes, e) ↦ elim (Checked-cases (check ctes visits)) [
        | inr (bad, f) ↦ absurd (ground (arith, e, f, h))
        | inl (names, f) ↦
            let done : finish atoi scope s parts names ≡ valid v rl rm = ground (arith, e, f, h) in
            (
              ctes,
              e,
              reach_stmt (IsSafe scope ctes) (nested_all s parts) (
                  check-IsSafe scope ctes visits names ctes e f
                    (finish-Allows atoi scope s parts names v rl rm done)),
            )
      ]
    ]
