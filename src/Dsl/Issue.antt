-- ===== src/Dsl/Issue.antt =====
-- internal/dsl/issue.go: the findings of a validation, and their order.
use Prim.Native.Nat.{Ordering}
use Prim.Native.String.{compare}
use evalfrog.Prelude.{String, Bool, true, false, List, [], ◌∷◌, ◌==◌, if◌then◌else◌}

pub record Issue : Type 0 where
  pub code : String
  pub message : String
  pub node_id : String
  pub edge_id : String
  pub field : String

abbrev pub text_below : String → String → Bool
text_below a b = elim (compare a b) [ Ordering.lt ↦ true | _ ↦ false ]

-- the `less` of sortIssues
unfoldable pub issue_below : Issue → Issue → Bool
issue_below left right =
    if left.node_id == right.node_id
    then (if left.edge_id == right.edge_id
        then (if left.field == right.field
            then text_below left.code right.code
            else text_below left.field right.field)
        else text_below left.edge_id right.edge_id)
    else text_below left.node_id right.node_id

-- A stable sort: an issue goes before the first that is not below it.
unfoldable pub insert_issue : Issue → List Issue → List Issue
unfolding issue_below
insert_issue issue [] = issue ∷ []
insert_issue issue (other ∷ rest) =
    let later = insert_issue issue rest in
    if issue_below other issue then other ∷ later else issue ∷ other ∷ rest

unfoldable pub sort_issues : List Issue → List Issue
unfolding insert_issue
sort_issues [] = []
sort_issues (issue ∷ rest) = insert_issue issue (sort_issues rest)

-- `if test { issues = append(issues, issue) }`
abbrev pub issue_when : Bool → Issue → List Issue
issue_when true issue = issue ∷ []
issue_when false issue = []

abbrev pub document_issue : String → String → Issue
document_issue code message = record {
  code = code;
  message = message;
  node_id = "";
  edge_id = "";
  field = "";
}

abbrev pub node_issue : String → String → String → String → Issue
node_issue id field code message = record {
  code = code;
  message = message;
  node_id = id;
  edge_id = "";
  field = field;
}

abbrev pub edge_issue : String → String → String → String → Issue
edge_issue id field code message = record {
  code = code;
  message = message;
  node_id = "";
  edge_id = id;
  field = field;
}
