-- ===== src/Dsl/Compatibility.antt =====
-- internal/dsl/compatibility.go: the check of a document against the operations that are installed.
use evalfrog.Prelude.{Bool, false, not, ◌||◌, List, [], ◌∷◌, flat_map}
use evalfrog.Dsl.{Coordinate, coordinate_of, coordinate_eq, DslNode, Document}
use evalfrog.Dsl.Issue.{Issue, issue_when, node_issue, sort_issues}
use evalfrog.Dsl.Builtin.{version_one}

-- the set of coordinates
unfoldable pub supports : List Coordinate → Coordinate → Bool
unfolding coordinate_eq
supports [] coordinate = false
supports (other ∷ rest) coordinate = coordinate_eq other coordinate || supports rest coordinate

-- BuiltinV1Compatibility
abbrev pub builtin_compatibility : List Coordinate
builtin_compatibility =
    version_one "control.start"
    ∷ version_one "control.end"
    ∷ version_one "control.branch"
    ∷ version_one "task.python"
    ∷ version_one "task.http"
    ∷ version_one "task.rpc"
    ∷ []

unfoldable pub check_supported : List Coordinate → DslNode → List Issue
unfolding supports
check_supported supported node =
    issue_when (not (supports supported (coordinate_of node.operation))) (
      node_issue node.id "operation.version" "RUNTIME_OPERATION_UNSUPPORTED"
        "runtime does not support the operation coordinate")

unfoldable pub check_all : List Coordinate → Document → List Issue
unfolding flat_map check_supported sort_issues
check_all supported document = sort_issues (flat_map (check_supported supported) document.nodes)
