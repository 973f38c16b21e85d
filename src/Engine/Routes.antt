-- ===== src/Engine/Routes.antt =====
-- Which route a branch takes: internal/runtime/engine/branch.go, against a description by the place of
-- the case in the list.
use evalfrog.Prelude.{
  String, ◌≡◌, refl, sym, subst, ap, ◌∙◌, ◌↔◌, true, false, some, List, [], ◌∷◌, ◌++◌, inl, inr,
  All, Option-cases,
}
use evalfrog.Prelude.Assoc.{lookup}
use evalfrog.Json.{RawMessage, Value, BranchCase, Stdlib}
use evalfrog.Runtime.Error.{ok, ok-injective, Result-cases}
use evalfrog.Dsl.{DslNode}
use evalfrog.Engine.State.{or_else}
use evalfrog.Engine.Cases.{Compares, try_case-Compares, Compares-try_case}
use evalfrog.Engine.Branch.{try_case, select_route, evaluate_branch}

module _ (lib : Stdlib) (id : String) (value : Value) where
  abbrev Fail : List BranchCase → Type 0
  Fail cases = All (λ c. Compares lib value c false) cases

  select_route-match :
      (fallback : String) (before : List BranchCase) (c : BranchCase) (after : List BranchCase)
      → Fail before
      → Compares lib value c true
      → select_route lib id value fallback (before ++ c ∷ after) ≡ ok c.route
  unfolding select_route
  select_route-match fallback [] c after fails matches =
      rw (Compares-try_case lib id value c true matches, select_route) refl
  select_route-match fallback (d ∷ before) c after (fails, others) matches =
      rw (Compares-try_case lib id value d false fails, select_route)
        (select_route-match fallback before c after others matches)

  select_route-fallback :
      (fallback : String) (cases : List BranchCase)
      → Fail cases
      → select_route lib id value fallback cases ≡ ok fallback
  unfolding select_route
  select_route-fallback fallback [] fails = refl
  select_route-fallback fallback (c ∷ cases) (fails, others) =
      rw (Compares-try_case lib id value c false fails, select_route)
        (select_route-fallback fallback cases others)

-- The route of a case that matches after cases that do not, or the default where no case does.
pub data IsFirst (lib : Stdlib) (value : Value) (fallback : String) (cases : List BranchCase)
    (route : String) : Type 0 where
  matches :
      (before after : List BranchCase) (c : BranchCase)
      → cases ≡ before ++ c ∷ after
      → All (λ d. Compares lib value d false) before
      → Compares lib value c true
      → route ≡ c.route
      → IsFirst lib value fallback cases route
  by_default :
      All (λ d. Compares lib value d false) cases
      → route ≡ fallback
      → IsFirst lib value fallback cases route

module _ (lib : Stdlib) (id : String) (value : Value) (fallback : String) where
  select_route-IsFirst :
      (cases : List BranchCase) (route : String)
      → select_route lib id value fallback cases ≡ ok route
      → IsFirst lib value fallback cases route
  unfolding select_route
  select_route-IsFirst [] route = λ h. by_default tt (sym (ok-injective h))
  select_route-IsFirst (c ∷ cases) route = elim (Result-cases (try_case lib id value c)) [
    | inr (x, k) ↦ rw (k, select_route) (λ h. absurd (cc h))
    | inl (true, k) ↦
        rw (k, select_route)
          (λ h.
            matches [] cases c refl tt (try_case-Compares lib id value c true k)
              (sym (ok-injective h)))
    | inl (false, k) ↦
        rw (k, select_route)
          (λ h.
            let fails = try_case-Compares lib id value c false k in
            elim (select_route-IsFirst cases route h) [
              | matches before after d same others match r ↦
                  matches (c ∷ before) after d (ap (λ l. c ∷ l) same) (fails, others) match r
              | by_default others r ↦ by_default (fails, others) r
            ])
  ]

  IsFirst-select_route :
      (cases : List BranchCase) (route : String)
      → IsFirst lib value fallback cases route
      → select_route lib id value fallback cases ≡ ok route
  IsFirst-select_route cases route (matches before after c same fails match r) =
      subst (λ l. select_route lib id value fallback l ≡ ok route) (sym same)
        (select_route-match lib id value fallback before c after fails match ∙ ap ok (sym r))
  IsFirst-select_route cases route (by_default fails r) =
      select_route-fallback lib id value fallback cases fails ∙ ap ok (sym r)

abbrev pub config_text : DslNode → String → RawMessage
unfolding lookup
config_text node name = or_else "" (lookup name node.operation.config)

-- The configuration and the value of a branch can be read, and the route is the first of its cases.
pub record Takes (lib : Stdlib) (node : DslNode) (raw : RawMessage) (route : String) : Type 0 where
  pub cases : List BranchCase
  pub fallback : String
  pub value : Value
  pub has_cases : lib.unmarshal_cases (config_text node "cases") ≡ some cases
  pub has_default : lib.unmarshal_string (config_text node "default_route") ≡ some fallback
  pub has_value : lib.decode raw ≡ some value
  pub first : IsFirst lib value fallback cases route

module _ (lib : Stdlib) (node : DslNode) (raw : RawMessage) (route : String) where
  evaluate_branch-Takes : evaluate_branch lib node raw ≡ ok route → Takes lib node raw route
  unfolding evaluate_branch lookup
  evaluate_branch-Takes = elim (Option-cases (lib.unmarshal_cases (config_text node "cases"))) [
    | inl broken ↦ rw (broken, evaluate_branch) (λ h. absurd (cc h))
    | inr (cases, has_cases) ↦
        elim (Option-cases (lib.unmarshal_string (config_text node "default_route"))) [
          | inl broken ↦ rw (has_cases, broken, evaluate_branch) (λ h. absurd (cc h))
          | inr (fallback, has_default) ↦ elim (Option-cases (lib.decode raw)) [
            | inl broken ↦ rw (has_cases, has_default, broken, evaluate_branch) (λ h. absurd (cc h))
            | inr (value, has_value) ↦
                rw (has_cases, has_default, has_value, evaluate_branch)
                  (λ h. record {
                    cases = cases;
                    fallback = fallback;
                    value = value;
                    has_cases = has_cases;
                    has_default = has_default;
                    has_value = has_value;
                    first = select_route-IsFirst lib node.id value fallback cases route h;
                  })
          ]
        ]
  ]

  Takes-evaluate_branch : Takes lib node raw route → evaluate_branch lib node raw ≡ ok route
  unfolding evaluate_branch lookup
  Takes-evaluate_branch t =
      rw (t.has_cases, t.has_default, t.has_value, evaluate_branch)
        (IsFirst-select_route lib node.id t.value t.fallback t.cases route t.first)

  -- A branch takes a route exactly if its cases, its default route and its value can be read and the
  -- route is that of a case that matches and has only cases before it that were compared and do not
  -- match, or is the default where that holds of all cases. A case is compared with the value inside
  -- the branch's value under the names of its path.
  pub evaluate_branch_iff : (evaluate_branch lib node raw ≡ ok route) ↔ Takes lib node raw route
  evaluate_branch_iff = (evaluate_branch-Takes, Takes-evaluate_branch)
