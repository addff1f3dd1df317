-- ===== src/Tools/Registry.antt =====
-- pkg/tools/registry.go: the tools by their names, and how one is run. A tool acts on a world; `run`
-- gives `none` where the deadline of the call passes before the tool returns.
use chango_assistant.Base.{
  Bool, List, Option, Text, [], codes, false, if◌then◌else◌, insert, keys, length, lookup, map,
  none, not, some, text_eq, ℕ, ◌&&◌, ◌++◌,
}
use chango_assistant.Providers.Types.{Fields, ToolDefinition}
use chango_assistant.Tools.Result.{ToolResult, error_result, with_error}

pub record Tool (W : Type 0) : Type 0 where
  pub name : Text
  pub description : Text
  pub parameters : Fields
  pub set_context : Option (Text → Text → W → W)
  pub set_callback : Option (W → W)
  pub run : Fields → W → Option ToolResult × W

abbrev pub ToolRegistry : Type 0 → Type 0
ToolRegistry W = List (Text × Tool W)

abbrev pub with_context : {W : Type 0} → Option (Text → Text → W → W) → Text → Text → W → W
with_context none channel chat_id w = w
with_context (some set) channel chat_id w =
    if not (text_eq channel []) && not (text_eq chat_id []) then set channel chat_id w else w

abbrev pub with_callback : {W : Type 0} → Option (W → W) → Bool → W → W
with_callback none callback w = w
with_callback (some set) callback w = if callback then set w else w

-- `toolTimeout` as it is printed: two minutes, or six for the council.
abbrev timeout_text : Text → Text
timeout_text name = if text_eq name (codes "council") then codes "6m0s" else codes "2m0s"

-- `quote` is the printing of a text by %q.
module _ (quote : Text → Text) where
  unfoldable pub not_found_result : Text → ToolResult
  unfolding error_result with_error
  not_found_result name =
      with_error (some (codes "tool not found"))
        (error_result (codes "tool " ++ (quote name ++ codes " not found")))

  unfoldable pub timed_out_result : Text → ToolResult
  unfolding error_result text_eq
  timed_out_result name =
      error_result
        (codes "tool " ++ (quote name ++ (codes " timed out after " ++ timeout_text name)))

  abbrev or_timed_out : Text → Option ToolResult → ToolResult
  or_timed_out name none = timed_out_result name
  or_timed_out name (some r) = r

module _ {W : Type 0} (quote : Text → Text) where
  -- `ExecuteWithContext`; `callback` says whether there is one.
  unfoldable pub execute_with_context :
      ToolRegistry W → Text → Fields → Text → Text → Bool → W → ToolResult × W
  unfolding text_eq timed_out_result not_found_result
  execute_with_context reg name args channel chat_id callback w = elim (lookup name reg) [
    | none ↦ (not_found_result quote name, w)
    | some tool ↦
        let ready =
          with_callback tool.set_callback callback
            (with_context tool.set_context channel chat_id w) in
        let (r, w') = tool.run args ready in (or_timed_out quote name r, w')
  ]

  -- `Execute`.
  unfoldable pub execute : ToolRegistry W → Text → Fields → W → ToolResult × W
  unfolding execute_with_context
  execute reg name args w = execute_with_context reg name args [] [] false w

module _ {W : Type 0} where
  -- `Register`.
  unfoldable pub register : Tool W → ToolRegistry W → ToolRegistry W
  unfolding insert
  register tool reg = insert tool.name tool reg

  -- `Get`.
  unfoldable pub get : Text → ToolRegistry W → Option (Tool W)
  get name reg = lookup name reg

  -- `ToProviderDefs`, through `ToolToSchema`.
  unfoldable pub to_provider_defs : ToolRegistry W → List ToolDefinition
  to_provider_defs reg =
      map
        (λ p. record {
          kind = codes "function";
          name = p.1.name;
          description = p.1.description;
          parameters = p.1.parameters;
        })
        reg

  -- `List`.
  unfoldable pub names : ToolRegistry W → List Text
  names reg = keys reg

  -- `Count`.
  unfoldable pub count_tools : ToolRegistry W → ℕ
  count_tools reg = length reg
