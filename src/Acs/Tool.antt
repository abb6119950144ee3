-- ===== src/Acs/Tool.antt =====
-- pkg/tools/base.go, EffectClass and ClassOf; pkg/tools/result.go, ToolResult.
use ottie.Prelude.{String, Bool, not, ◌&&◌, Option, List, str_eq, if◌then◌else◌}

-- `EffectClass` is a string.
abbrev pub effect_read_only : String
effect_read_only = "read_only"

unfoldable pub is_side_effecting : String → Bool
is_side_effecting c = not (str_eq c "") && not (str_eq c effect_read_only)

-- What `ClassOf` and `Dispatch` ask of a tool: its name, what its classifier does, and whether it is
-- an `AsyncExecutor`.
pub data Classifier : Type 0 where
  no_classifier panics : Classifier
  classifies : String → Classifier

pub record Tool : Type 0 where
  pub name : String
  pub classifier : Classifier
  pub is_async : Bool

abbrev pub class_by : Classifier → String
class_by no_classifier = effect_read_only
class_by panics = effect_read_only
class_by (classifies c) = if str_eq c "" then effect_read_only else c

-- ClassOf on a tool that is not nil, a panic of its classifier recovered.
unfoldable pub class_of : Tool → String
class_of t = class_by t.classifier

-- `err` is the text of the error.
pub record ToolResult : Type 0 where
  pub for_llm : String
  pub for_user : String
  pub silent : Bool
  pub is_error : Bool
  pub async : Bool
  pub err : Option String
  pub media : List String
