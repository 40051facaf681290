-- ===== src/Query/Validate/Limit.antt =====
-- The LIMIT of an accepted statement.
use pooml.Query.Walk.{visits_stmt, nested_all}
use pooml.Base.{
  leb, leb→le, Bool-cases, Bool, true, ◌≢◌, ◌⊎◌, ℕ, ◌≤◌, ◌≡◌, List, Option, none, some, arith,
  Option-cases, inl, inr, ap,
}
use pooml.Base.Int.{ℤ, pos}
use pooml.Bytes.{Bytes}
use pooml.Strings.{itoa}
use pooml.Query.Ast.{Expr, number_lit, Select}
use pooml.Query.Rewrite.{Validated, max_rows}
use pooml.Query.Validate.{
  Scope, Validation, valid, invalid, validate_select, finish, clamp_limit, clamped_limit,
  collect_ctes, check, Checked, referenced, refused, check_scope,
}

-- A clamped literal that reads as a number is small.
clamped_limit-le :
    (atoi : Bytes → Option ℤ) (limit : Option Expr) (value : Bytes) (n : ℕ)
    → atoi (itoa max_rows) ≡ some (pos max_rows)
    → clamped_limit atoi limit ≡ number_lit value
    → atoi value ≡ some (pos n)
    → n ≤ max_rows
unfolding clamped_limit
clamped_limit-le atoi none value n law h k = ground (arith, h, law, k)
clamped_limit-le atoi (some (number_lit text)) value n law h k =
    ground (arith, h, law, k, Option-cases (atoi text))
clamped_limit-le atoi (some e) value n law h k = absurd (ground (arith, h))

finish-clamp_limit :
    (atoi : Bytes → Option ℤ) (scope : Scope) (s : Select) (parts : List Select)
    (names : List Bytes) (v : Validated) (rl rm : Bool)
    → finish atoi scope s parts names ≡ valid v rl rm
    → v.stmt ≡ clamp_limit atoi s
unfolding finish check_scope
finish-clamp_limit atoi scope s parts names v rl rm h = ground (arith, h)

validate-clamp_limit :
    (atoi : Bytes → Option ℤ) (scope : Scope) (s : Select) (parts : List Select) (v : Validated)
    (rl rm : Bool)
    → validate_select atoi scope s parts ≡ valid v rl rm
    → v.stmt ≡ clamp_limit atoi s
unfolding validate_select
validate-clamp_limit atoi scope s parts v rl rm h =
    let visits = visits_stmt true (nested_all s parts) in
    elim (Option-cases (collect_ctes visits)) [
      | inl e ↦ absurd (ground (arith, e, h))
      | inr (ctes, e) ↦ checked (check ctes visits) (ground (arith, e, h))
    ]
  where
    checked :
        (c : Checked)
        → (elim c as (λ _. Validation) [
          | refused e ↦ invalid e
          | referenced names ↦ finish atoi scope s parts names
        ])
          ≡ valid v rl rm
        → v.stmt ≡ clamp_limit atoi s
    checked (refused e) k = absurd (ground (arith, k))
    checked (referenced names) k = finish-clamp_limit atoi scope s parts names v rl rm k

-- An accepted statement has a LIMIT, and if that is a literal that reads as a number, it is at most
-- 10000. (The number that validation writes reads as itself.)
pub validate_select-limit :
    (atoi : Bytes → Option ℤ) (scope : Scope) (s : Select) (parts : List Select) (v : Validated)
    (reads_logs reads_metrics : Bool) (value : Bytes) (n : ℕ)
    → atoi (itoa max_rows) ≡ some (pos max_rows)
    → validate_select atoi scope s parts ≡ valid v reads_logs reads_metrics
    → atoi value ≡ some (pos n)
    → (limit : Expr) × (v.stmt.limit_expr ≡ some limit)
      × ((limit ≢ number_lit value) ⊎ (n ≤ max_rows))
unfolding clamp_limit
validate_select-limit atoi scope s parts v rl rm value n law h k =
    let same = validate-clamp_limit atoi scope s parts v rl rm h in
    (
      clamped_limit atoi s.limit_expr,
      ap (λ t. t.limit_expr) same,
      elim (Bool-cases (leb n max_rows)) [
        | inl small ↦ inr (omega (arith, leb→le n max_rows small))
        | inr large ↦ inl (λ e.
            absurd (ground (arith, large, clamped_limit-le atoi s.limit_expr value n law e k)))
      ],
    )
