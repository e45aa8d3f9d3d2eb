-- ===== src/Version/Lookup.antt =====
-- src/lib.rs (`which_claude` and what it calls, as built for Unix): where the `claude` binary is looked
-- for. What the file system says of a path is a parameter.
use mur_model_gateway.Common.{
  ◌≡◌, refl, inl, inr, Bool-cases, ap, append-nil, ℕ, ◌/◌, ◌%◌, Bool, false, ◌||◌, ◌&&◌, List, [],
  ◌∷◌, ◌++◌, map, Option, none, some, String, if◌then◌else◌, ◌==◌, not,
}
use mur_model_gateway.Common.Text.{is_empty, push_str}
use mur_model_gateway.Common.Text.Search.{ends_with, split_char}

-- What `metadata` says of a path that it can read.
pub record Metadata : Type 0 where
  pub is_file : Bool
  pub mode : ℕ

-- `Path::join` with a relative name
unfoldable pub join : String → String → String
unfolding push_str ends_with
join dir name =
    if is_empty dir || ends_with dir "/"
    then push_str dir name
    else push_str dir (push_str "/" name)

abbrev home_dirs : Option String → List String
home_dirs none = []
home_dirs (some h) = join h ".local/bin" ∷ join h ".claude/local" ∷ []

unfoldable pub claude_fallback_dirs : Option String → List String
unfolding join
claude_fallback_dirs home = home_dirs home ++ "/opt/homebrew/bin" ∷ "/usr/local/bin" ∷ []

-- `claude_names(None)`
abbrev pub claude_names : List String
claude_names = "claude" ∷ []

-- `mode & 0o111 != 0`
abbrev pub has_execute_bit : ℕ → Bool
has_execute_bit mode = not (mode % 2 == 0) || not (mode / 8 % 2 == 0) || not (mode / 64 % 2 == 0)

module _ (metadata : String → Option Metadata) where
  unfoldable pub is_executable_file : String → Bool
  is_executable_file path = elim (metadata path) [
    | none ↦ false
    | some m ↦ m.is_file && has_execute_bit m.mode
  ]

  abbrev pub find_executable : List String → Option String
  find_executable [] = none
  find_executable (c ∷ cs) = if is_executable_file c then some c else find_executable cs

  abbrev path_dirs : Option String → List String
  path_dirs none = []
  path_dirs (some p) = split_char b':' p

  abbrev in_dirs : List String → List String
  in_dirs [] = []
  in_dirs (d ∷ ds) = map (join d) claude_names ++ in_dirs ds

  unfoldable pub which_claude_in : Option String → List String → Option String
  unfolding is_executable_file split_char join
  which_claude_in path fallbacks = find_executable (in_dirs (path_dirs path ++ fallbacks))

  -- `which_claude`, on the variable `PATH` and the home directory
  unfoldable pub which_claude : Option String → Option String → Option String
  unfolding which_claude_in claude_fallback_dirs
  which_claude path home = which_claude_in path (claude_fallback_dirs home)

  abbrev pub otherwise : Option String → Option String → Option String
  otherwise none b = b
  otherwise (some a) b = some a

  find_executable-append :
      (xs ys : List String)
      → find_executable (xs ++ ys) ≡ otherwise (find_executable xs) (find_executable ys)
  find_executable-append [] ys = refl
  find_executable-append (c ∷ xs) ys = elim (Bool-cases (is_executable_file c)) [
    | inl e ↦ rw (e) refl
    | inr e ↦ rw (e) (find_executable-append xs ys)
  ]

  in_dirs-append : (ds es : List String) → in_dirs (ds ++ es) ≡ in_dirs ds ++ in_dirs es
  in_dirs-append [] es = refl
  in_dirs-append (d ∷ ds) es = ap (λ cs. join d "claude" ∷ cs) (in_dirs-append ds es)

  -- `PATH` keeps priority: what is found on it is taken, and the other directories are looked through
  -- only where it has no executable `claude`.
  pub which_claude_in-path :
      (path : Option String) (fallbacks : List String)
      → which_claude_in path fallbacks
        ≡ otherwise (which_claude_in path []) (which_claude_in none fallbacks)
  unfolding which_claude_in
  which_claude_in-path path fallbacks =
      let ds = path_dirs path in
      rw (append-nil ds, in_dirs-append ds fallbacks)
        (find_executable-append (in_dirs ds) (in_dirs fallbacks))
