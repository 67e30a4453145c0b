-- ===== src/Worker/Maintenance/Processes.antt =====
-- `detectBlockingProcesses` of apps/worker/src/storage-maintenance.ts. `basename` of node:path is a
-- parameter.
use simple_host_man.Prelude.Text.{is_space, same, starts_with, codes, Text}
use simple_host_man.Prelude.{
  reverse, filter, any, ◌==◌, ℕ, Bool, true, false, not, ◌&&◌, ◌||◌, List, [], ◌∷◌, map,
  if◌then◌else◌,
}

pub record Process : Type 0 where
  pub pid : ℕ
  pub command : Text

-- `split(/\s+/)`: a run of white space is one separator.
abbrev push_token : Text → List Text → List Text
push_token token tokens = token ∷ tokens

abbrev split_spaces_from : Text → Bool → Text → List Text
split_spaces_from token in_space [] = reverse token ∷ []
split_spaces_from token in_space (c ∷ s) = elim (is_space c) [
  | true ↦ elim in_space [
    | true ↦ split_spaces_from token true s
    | false ↦ push_token (reverse token) (split_spaces_from [] true s)
  ]
  | false ↦ split_spaces_from (c ∷ token) false s
]

abbrev split_spaces : Text → List Text
split_spaces = split_spaces_from [] false

abbrev is_quote : ℕ → Bool
is_quote c = c == b'"' || c == b'\''

abbrev drop_quote : Text → Text
drop_quote [] = []
drop_quote (c ∷ s) = if is_quote c then s else c ∷ s

-- `replace(/^['"]|['"]$/g, "")`
unfoldable pub strip_quotes : Text → Text
strip_quotes token = reverse (drop_quote (reverse (drop_quote token)))

abbrev ends_with : Text → Text → Bool
ends_with part s = starts_with (reverse part) (reverse s)

abbrev is_command_flag : Text → Bool
is_command_flag token = same token (codes "-c") || same token (codes "-lc")

abbrev is_shell_wrapper : List Text → Bool
is_shell_wrapper [] = false
is_shell_wrapper (first ∷ []) = false
is_shell_wrapper (first ∷ second ∷ tokens) =
    ends_with (codes "/bash") first && is_command_flag second

abbrev is_empty : Text → Bool
is_empty [] = true
is_empty (c ∷ s) = false

module _ (basename : Text → Text) where
  abbrev matches : List Text → Text → Bool
  matches tokens pattern_text =
      not (is_empty pattern_text)
      && any (λ token. same (basename token) pattern_text || same token pattern_text) tokens

  abbrev pub blocks : List Text → ℕ → Process → Bool
  blocks patterns own_pid process =
      let tokens = map strip_quotes (split_spaces process.command) in
      if process.pid == own_pid
      then false
      else if is_shell_wrapper tokens
      then false
      else any (matches tokens) patterns

  unfoldable pub detect_blocking_processes : List Process → List Text → ℕ → List Process
  detect_blocking_processes processes patterns own_pid = filter (blocks patterns own_pid) processes
