-- ===== src/Json.antt =====
-- JSON values as `encoding/json` decodes them with `UseNumber` (a number keeps its text), and what
-- the program takes from Go's standard library: the JSON decoder, exact rationals and the deep
-- equality of `reflect`. These are not code of the repository, so they are a parameter.
use evalfrog.Prelude.{String, ◌≡◌, Bool, true, Option}
use evalfrog.Prelude.{ℕ, List}
use evalfrog.Prelude.Assoc.{Assoc}
use Prim.Native.Nat.{Ordering}

mutual
  pub data Fields : Type 0 where
    end : Fields
    field : String → Value → Fields → Fields

  pub data Items : Type 0 where
    cons : Value → Items → Items
    nil : Items

  pub data Value : Type 0 where
    null : Value
    bool : Bool → Value
    str : String → Value
    num : String → Value
    obj : Fields → Value
    arr : Items → Value

-- json.RawMessage
abbrev pub RawMessage : Type 0
RawMessage = String

-- map[string]any; `none` is the nil map
abbrev pub Details : Type 0
Details = Option Fields

-- One entry of a branch's configuration, as `json.Unmarshal` fills it.
pub record BranchCase : Type 0 where
  pub route : String
  pub path : String
  pub operator : String
  pub value : RawMessage

-- int; `negsuc n` is -(n + 1)
pub data ℤ : Type 0 where
  pos : ℕ → ℤ
  negsuc : ℕ → ℤ

pub record Stdlib : Type 0 where
  -- json.Valid; it accepts exactly the texts that decode
  pub valid : RawMessage → Bool
  -- a json.Decoder with UseNumber
  pub decode : RawMessage → Option Value
  -- json.Unmarshal into a string, and into a list of branch cases
  pub unmarshal_string : RawMessage → Option String
  pub unmarshal_cases : RawMessage → Option (List BranchCase)
  -- a json.Decoder into a bool, into a list of int, and into a list of map[string]json.RawMessage
  pub unmarshal_bool : RawMessage → Option Bool
  pub unmarshal_ints : RawMessage → Option (List ℤ)
  pub unmarshal_maps : RawMessage → Option (List (Assoc RawMessage))
  -- the routes of the cases that json.Unmarshal leaves in place, also beside an error
  pub unmarshal_routes : RawMessage → List String
  -- bytes.Equal(bytes.TrimSpace(raw), "null")
  pub trims_to_null : RawMessage → Bool
  -- big.Rat: SetString succeeds, IsInt, Cmp
  pub is_rational : String → Bool
  pub is_integer : String → Bool
  pub compare_rational : String → String → Ordering
  -- reflect.DeepEqual on details
  pub deep_equal : Details → Details → Bool
  -- strings.Split(path, "."), strings.Contains, strings.HasPrefix, strings.HasSuffix
  pub split_dots : String → List String
  pub contains_text : String → String → Bool
  pub has_prefix : String → String → Bool
  pub has_suffix : String → String → Bool

-- What the library documents and the theorems need.
pub record IsLawful (lib : Stdlib) : Type 0 where
  -- a value is deeply equal to itself
  pub deep_equal_refl : (d : Details) → lib.deep_equal d d ≡ true
