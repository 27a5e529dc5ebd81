-- ===== src/Postgres/Listing/Conditions.antt =====
-- The WHERE clause that is built from a filter, as the server reads it with its arguments.
use mathlib.Core.List.{append_assoc}
use insider_one_notification.Prelude.{
  ℕ, suc, ◌+◌, ◌≡◌, refl, sym, ap, ◌∙◌, Bool, true, false, ◌&&◌, Option, none, some, String, List,
  [], ◌∷◌, ◌++◌, length, length-append, all, str_eq, arith,
}
use insider_one_notification.Postgres.Row.{Row}
use insider_one_notification.Postgres.Listing.{
  ListFilter, Column, channel_column, status_column, priority_column, recipient_column, Clause,
  Argument, text, Where, add, channel_text, status_text, priority_text, build_where_clause, nth,
  argument, value_of, equals, holds, satisfies,
}

-- A filter that is nil lets every row pass; another lets those with its value pass.
unfoldable pub passes : Column → Option String → Row → Bool
passes column none r = true
passes column (some value) r = str_eq (value_of column r) value

unfoldable pub is_wanted : ListFilter → Row → Bool
unfolding passes
is_wanted filter r =
    ((passes channel_column (channel_text filter.channel) r
        && passes status_column (status_text filter.status) r)
      && passes priority_column (priority_text filter.priority) r)
    && passes recipient_column filter.recipient r

and_assoc : (a b c : Bool) → (a && (b && c)) ≡ ((a && b) && c)
and_assoc true b c = refl
and_assoc false b c = refl

and_true : (a : Bool) → (a && true) ≡ a
and_true true = refl
and_true false = refl

all-append : (p : Clause → Bool) (xs ys : List Clause) → all p (xs ++ ys) ≡ (all p xs && all p ys)
all-append p [] ys = refl
all-append p (x ∷ xs) ys =
    ap (λ b. p x && b) (all-append p xs ys) ∙ and_assoc (p x) (all p xs) (all p ys)

nth-append : (xs rest : List Argument) (a : Argument) → nth (length xs) (xs ++ a ∷ rest) ≡ some a
unfolding nth
nth-append [] rest a = refl
nth-append (x ∷ xs) rest a = nth-append xs rest a

pub argument-append :
    (param : ℕ) (args rest : List Argument) (a : Argument)
    → param ≡ length args + 1
    → argument param (args ++ a ∷ rest) ≡ some a
unfolding argument
argument-append param args rest a h =
    let e : param ≡ suc (length args) = omega (arith, h) in rw e (nth-append args rest a)

-- The clauses hold of the rows that pass a test, whatever arguments come behind; the next parameter is
-- the number of the next argument.
unfoldable pub IsBuilt : Where → (Row → Bool) → Type 0
IsBuilt w test =
    (w.param_idx ≡ length w.args + 1)
    × ((r : Row) (more : List Argument) → satisfies w.clauses (w.args ++ more) r ≡ test r)

holds-next :
    (r : Row) (column : Column) (value : String) (w : Where) (more : List Argument)
    → w.param_idx ≡ length w.args + 1
    → holds (w.args ++ text value ∷ more) r (record { column = column; param = w.param_idx })
      ≡ str_eq (value_of column r) value
unfolding holds equals
holds-next r column value w more next =
    ap (λ a. equals (value_of column r) a)
      (argument-append w.param_idx w.args more (text value) next)

start-IsBuilt : IsBuilt (record { clauses = []; args = []; param_idx = 1 }) (λ r. true)
unfolding IsBuilt satisfies
start-IsBuilt = (refl, λ r more. refl)

add-IsBuilt :
    (column : Column) (value : Option String) (w : Where) (test : Row → Bool)
    → IsBuilt w test
    → IsBuilt (add column value w) (λ r. test r && passes column value r)
unfolding add passes satisfies IsBuilt
add-IsBuilt column none w test (next, same) =
    (next, λ r more. same r more ∙ sym (and_true (test r)))
add-IsBuilt column (some value) w test (next, same) = (
  omega (arith, next, length-append w.args (text value ∷ [])),
  λ r more.
      let c : Clause = record { column = column; param = w.param_idx } in
      let at_end : (w.args ++ text value ∷ []) ++ more ≡ w.args ++ text value ∷ more =
        append_assoc w.args (text value ∷ []) more in
      ap (λ args. all (holds args r) (w.clauses ++ c ∷ [])) at_end
      ∙ all-append (holds (w.args ++ text value ∷ more) r) w.clauses (c ∷ [])
      ∙ ap (λ b. b && (holds (w.args ++ text value ∷ more) r c && true))
          (same r (text value ∷ more))
      ∙ ap (λ b. test r && b)
          (and_true (holds (w.args ++ text value ∷ more) r c)
            ∙ holds-next r column value w more next),
)

pub build_where_clause-IsBuilt :
    (filter : ListFilter) → IsBuilt (build_where_clause filter) (is_wanted filter)
unfolding build_where_clause is_wanted
build_where_clause-IsBuilt filter =
    let none_yet : Where = record { clauses = []; args = []; param_idx = 1 } in
    let w₁ = add channel_column (channel_text filter.channel) none_yet in
    let w₂ = add status_column (status_text filter.status) w₁ in
    let w₃ = add priority_column (priority_text filter.priority) w₂ in
    add-IsBuilt recipient_column filter.recipient w₃ _ (
      add-IsBuilt priority_column (priority_text filter.priority) w₂ _ (
        add-IsBuilt status_column (status_text filter.status) w₁ _ (
          add-IsBuilt channel_column (channel_text filter.channel) none_yet (λ r. true)
            start-IsBuilt)))
