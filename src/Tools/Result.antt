-- ===== src/Tools/Result.antt =====
-- pkg/tools/result.go. An `error` is known by its message.
use chango_assistant.Base.{Bool, List, Option, Text, [], false, none, true}

pub record ToolResult : Type 0 where
  pub for_llm : Text
  pub for_user : Text
  pub silent : Bool
  pub is_error : Bool
  pub async : Bool
  pub media : List Text
  pub err : Option Text

-- `NewToolResult`.
unfoldable pub new_tool_result : Text → ToolResult
new_tool_result for_llm = record {
  for_llm = for_llm;
  for_user = [];
  silent = false;
  is_error = false;
  async = false;
  media = [];
  err = none;
}

-- `SilentResult`.
unfoldable pub silent_result : Text → ToolResult
unfolding new_tool_result
silent_result for_llm = record (new_tool_result for_llm) { silent = true }

-- `AsyncResult`.
unfoldable pub async_result : Text → ToolResult
unfolding new_tool_result
async_result for_llm = record (new_tool_result for_llm) { async = true }

-- `ErrorResult`.
unfoldable pub error_result : Text → ToolResult
unfolding new_tool_result
error_result message = record (new_tool_result message) { is_error = true }

-- `UserResult`.
unfoldable pub user_result : Text → ToolResult
unfolding new_tool_result
user_result content = record (new_tool_result content) { for_user = content }

-- `MediaResult`.
unfoldable pub media_result : Text → List Text → ToolResult
unfolding new_tool_result
media_result for_llm media = record (new_tool_result for_llm) { media = media; silent = true }

-- `WithError`.
unfoldable pub with_error : Option Text → ToolResult → ToolResult
with_error err r = record r { err = err }
