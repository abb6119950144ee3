-- ===== src/Providers/Protocol.antt =====
-- pkg/providers/protocoltypes/types.go: the messages of a conversation, and what their JSON keeps. Texts are valid
-- UTF-8, and a slice that is empty is as one that is nil. A are the maps of arguments.
use ottie.Prelude.{◌≡◌, refl, ap, String, Option, none, List, [], ◌∷◌, map}

pub record FunctionCall : Type 0 where
  pub name : String
  pub arguments : String
  pub thought_signature : String

pub record GoogleExtra : Type 0 where
  pub thought_signature : String

pub record ExtraContent : Type 0 where
  pub google : Option GoogleExtra

-- `kind` is the field Type.
pub record ToolCall (A : Type 0) : Type 0 where
  pub id : String
  pub kind : String
  pub function : Option FunctionCall
  pub name : String
  pub arguments : Option A
  pub thought_signature : String
  pub extra_content : Option ExtraContent

pub record ContentBlock : Type 0 where
  pub kind : String
  pub text : String
  pub cache_control : Option String

pub record Message (A : Type 0) : Type 0 where
  pub role : String
  pub content : String
  pub media : List String
  pub reasoning_content : String
  pub system_parts : List ContentBlock
  pub tool_calls : List (ToolCall A)
  pub tool_call_id : String

module _ {A : Type 0} where
  -- The fields with the tag json:"-" are not written, and stay zero when read.
  abbrev pub stored_call : ToolCall A → ToolCall A
  stored_call c = record c { name = ""; arguments = none; thought_signature = "" }

  unfoldable pub stored : Message A → Message A
  stored m = record m { tool_calls = map stored_call m.tool_calls }

  stored_calls_twice :
      (cs : List (ToolCall A)) → map stored_call (map stored_call cs) ≡ map stored_call cs
  stored_calls_twice [] = refl
  stored_calls_twice (c ∷ cs) = ap (λ l. stored_call c ∷ l) (stored_calls_twice cs)

  -- What was read back once is kept.
  pub stored_twice : (m : Message A) → stored (stored m) ≡ stored m
  unfolding stored
  stored_twice m = ap (λ cs. record m { tool_calls = cs }) (stored_calls_twice m.tool_calls)
