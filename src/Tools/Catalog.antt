-- ===== src/Tools/Catalog.antt =====
-- pkg/agent/tools: the tools that the model is told of, with their schemas.
use gm_agent.Prelude.{String, true, false, List, [], ◌∷◌}
use gm_agent.Prelude.Dict.{Dict}
use gm_agent.Types.Json.{Json, Members, bool, number, text, strings, object, end, member}
use gm_agent.Types.Tool.{Tool}

-- One property of a schema: its type and description, and then what else it has.
unfoldable pub property : String → String → Members → Json
property type description more =
    object (member "type" (text type) (member "description" (text description) more))

unfoldable pub schema : Members → List String → Dict Json
schema properties required =
    ("type", text "object")
    ∷ ("properties", object properties)
    ∷ ("required", strings required)
    ∷ []

unfoldable pub read_file_tool : Tool
unfolding property schema
read_file_tool = record {
  name = "read_file";
  description = "Read the contents of a file at the given path";
  parameters =
      schema (member "path" (property "string" "The absolute path to the file to read" end) end)
        ("path" ∷ []);
  metadata = ("category", "filesystem") ∷ [];
  read_only = true;
}

unfoldable pub run_shell_tool : Tool
unfolding property schema
run_shell_tool = record {
  name = "run_shell";
  description = "Execute a shell command";
  parameters =
      schema (member "command" (property "string" "The command line to execute" end) end)
        ("command" ∷ []);
  metadata = ("category", "shell") ∷ [];
  read_only = false;
}

unfoldable pub create_file_tool : Tool
unfolding property schema
create_file_tool = record {
  name = "create_file";
  description = "Create or overwrite a file at the given path with content";
  parameters =
      schema
        (member "path" (property "string" "The absolute path to the file to create" end)
          (member "content" (property "string" "The content to write to the file" end) end))
        ("path" ∷ "content" ∷ []);
  metadata = ("category", "filesystem") ∷ [];
  read_only = false;
}

unfoldable pub write_file_tool : Tool
unfolding property schema
write_file_tool = record {
  name = "write_file";
  description =
      "Write content to a file with automatic backup. Creates parent directories if needed.";
  parameters =
      schema
        (member "path" (property "string" "The file path to write to (relative or absolute)" end)
          (member "content" (property "string" "The content to write to the file" end) end))
        ("path" ∷ "content" ∷ []);
  metadata = ("category", "filesystem") ∷ [];
  read_only = false;
}

unfoldable pub edit_file_tool : Tool
unfolding property schema
edit_file_tool = record {
  name = "edit_file";
  description =
      "Edit an existing file by specifying old and new content. Generates a diff and applies it with backup support.";
  parameters =
      schema
        (member "path" (property "string" "The file path to edit" end) (
          member "old_content"
            (property "string" "The exact old content to replace (must match exactly)" end)
            (member "new_content" (property "string" "The new content to replace with" end) end)))
        ("path" ∷ "old_content" ∷ "new_content" ∷ []);
  metadata = ("category", "filesystem") ∷ [];
  read_only = false;
}

unfoldable pub glob_tool : Tool
unfolding property schema
glob_tool = record {
  name = "glob";
  description =
      "Search for files matching a glob pattern (e.g., '**/*.go', 'src/**/*.ts'). Returns list of matching file paths.";
  parameters =
      schema
        (member "pattern"
          (property "string" "Glob pattern to match files (e.g., '**/*.go', 'pkg/**/*.json')" end)
          (member "base_dir"
            (property "string" "Base directory to search from (default: current directory)"
              (member "default" (text ".") end))
            (member "max_results"
              (property "integer" "Maximum number of results to return (default: 100)"
                (member "default" (number "100") end))
              end)))
        ("pattern" ∷ []);
  metadata = ("category", "search") ∷ [];
  read_only = true;
}

unfoldable pub grep_tool : Tool
unfolding property schema
grep_tool = record {
  name = "grep";
  description =
      "Search for text patterns in files. Supports regular expressions. Returns matching lines with file paths and line numbers.";
  parameters =
      schema
        (member "pattern" (property "string" "Text or regex pattern to search for" end) (
          member "path"
            (property "string" "File or directory to search in (default: current directory)"
              (member "default" (text ".") end))
            (member "file_pattern"
              (property "string" "Only search in files matching this glob pattern (e.g., '*.go')"
                (member "default" (text "*") end))
              (member "case_sensitive"
                (property "boolean" "Whether the search is case sensitive (default: false)"
                  (member "default" (bool false) end))
                (member "max_results"
                  (property "integer" "Maximum number of matches to return (default: 50)"
                    (member "default" (number "50") end))
                  (member "context_lines"
                    (property "integer"
                      "Number of context lines to show before and after match (default: 0)"
                      (member "default" (number "0") end))
                    end))))))
        ("pattern" ∷ []);
  metadata = ("category", "search") ∷ [];
  read_only = true;
}

unfoldable pub talk_tool : Tool
unfolding property schema
talk_tool = record {
  name = "talk";
  description =
      "Speak to the user. Use this to provide answers, ask questions, or provide updates.";
  parameters =
      schema (member "message" (property "string" "The message to display to the user" end) end)
        ("message" ∷ []);
  metadata = [];
  read_only = true;
}

unfoldable pub task_complete_tool : Tool
unfolding property schema
task_complete_tool = record {
  name = "task_complete";
  description =
      "Signal that the assigned task is completed. Use this when you have achieved the goal.";
  parameters =
      schema (member "summary" (property "string" "A summary of what was accomplished" end) end)
        ("summary" ∷ []);
  metadata = [];
  read_only = false;
}
