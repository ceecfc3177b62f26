-- ===== src/Node/Build.antt =====
-- node/cli/build.rs: the scripts that complete the program's arguments in a shell, and what else is done
-- before the program is compiled; node/runtime/build.rs: how the WebAssembly code is built. The paths
-- are lists of their components; what the libraries do is a step of its own, and a panic is `none`.
use ipci_blockchain.Prelude.{Bool, true, false, ◌≡◌, refl, Option, none, some, List, [], ◌∷◌, ◌++◌}
use ipci_blockchain.Prelude.Options.{◌>>=◌}
use ipci_blockchain.Text.{Text, codes}

pub data Shell : Type 0 where
  bash fish zsh elvish power_shell : Shell

-- what is done at build time; that the directory exists already is not minded
pub data BuildStep : Type 0 where
  create_dir : List Text → BuildStep
  gen_completions : Text → Shell → List Text → BuildStep
  generate_cargo_keys rerun_if_git_head_changed : BuildStep

-- `Path::parent` with `unwrap`
unfoldable pub parent : List Text → Option (List Text)
parent [] = none
parent (a ∷ []) = some []
parent (a ∷ b ∷ p) = do up ← parent (b ∷ p); some (a ∷ up)

-- `build_completion`, with the variable `OUT_DIR`
unfoldable pub build_completion : Option (List Text) → Shell → Option (List BuildStep)
build_completion none shell = some []
build_completion (some outdir) shell = do
  p ← parent outdir
  q ← parent p
  r ← parent q
  let path : List Text = r ++ codes "completion-scripts" ∷ []
  some (create_dir path ∷ gen_completions (codes "substrate-node") shell path ∷ [])

abbrev shells : List Shell
shells = bash ∷ fish ∷ zsh ∷ elvish ∷ power_shell ∷ []

abbrev build_all : Option (List Text) → List Shell → Option (List BuildStep)
build_all outdir [] = some []
build_all outdir (shell ∷ rest) = do
  done ← build_completion outdir shell
  more ← build_all outdir rest
  some (done ++ more)

-- `build_shell_completion`
unfoldable pub build_shell_completion : Option (List Text) → Option (List BuildStep)
build_shell_completion outdir = build_all outdir shells

-- `main` of the module `cli`
unfoldable cli_main : Option (List Text) → Option (List BuildStep)
cli_main outdir = do
  scripts ← build_shell_completion outdir
  some (scripts ++ generate_cargo_keys ∷ rerun_if_git_head_changed ∷ [])

-- `main`, with the feature `cli` or without it
unfoldable build_main : Bool → Option (List Text) → Option (List BuildStep)
build_main true outdir = cli_main outdir
build_main false outdir = some []

-- the calls on the builder of the WebAssembly code, and `main` of node/runtime/build.rs
data WasmBuilder : Type 0 where
  new_builder : WasmBuilder
  with_current_project export_heap_base import_memory : WasmBuilder → WasmBuilder

abbrev runtime_main : {Built : Type 0} → (WasmBuilder → Built) → Built
runtime_main build = build (import_memory (export_heap_base (with_current_project new_builder)))

parent-snoc : (p : List Text) (a : Text) → parent (p ++ a ∷ []) ≡ some p
unfolding parent
parent-snoc [] a = refl
parent-snoc (b ∷ []) a = refl
parent-snoc (b ∷ c ∷ p) a = rw (parent-snoc (c ∷ p) a)

-- what is done for one shell in a directory
abbrev script : List Text → Shell → List BuildStep
script path shell = create_dir path ∷ gen_completions (codes "substrate-node") shell path ∷ []

build_completion-script :
    (p : List Text) (a b c : Text) (shell : Shell)
    → build_completion (some (((p ++ a ∷ []) ++ b ∷ []) ++ c ∷ [])) shell
      ≡ some (script (p ++ codes "completion-scripts" ∷ []) shell)
unfolding build_completion
build_completion-script p a b c shell =
    rw (parent-snoc ((p ++ a ∷ []) ++ b ∷ []) c, parent-snoc (p ++ a ∷ []) b, parent-snoc p a)

-- Where the output directory is the third below some directory, the script of each shell is made in
-- the same directory beside it.
build_shell_completion-scripts :
    (p : List Text) (a b c : Text)
    → build_shell_completion (some (((p ++ a ∷ []) ++ b ∷ []) ++ c ∷ []))
      ≡ some (
          let path : List Text = p ++ codes "completion-scripts" ∷ [] in
          script path bash
          ++ script path fish
          ++ script path zsh
          ++ script path elvish
          ++ script path power_shell)
unfolding build_shell_completion
build_shell_completion-scripts p a b c = rw (
  build_completion-script p a b c bash,
  build_completion-script p a b c fish,
  build_completion-script p a b c zsh,
  build_completion-script p a b c elvish,
  build_completion-script p a b c power_shell,
)

-- Without an output directory no script is made.
build_nothing : build_shell_completion none ≡ some []
unfolding build_shell_completion build_completion
build_nothing = refl

-- The cargo keys are generated, and a new head is watched, whenever the scripts are made or there is no
-- directory for them; where the directory is too near the root, a panic stops all three.
build_main_keys :
    (outdir : Option (List Text)) (steps : List BuildStep)
    → build_shell_completion outdir ≡ some steps
    → build_main true outdir ≡ some (steps ++ generate_cargo_keys ∷ rerun_if_git_head_changed ∷ [])
unfolding build_main cli_main
build_main_keys outdir steps made = rw made

build_main_panics :
    (a b : Text) → (build_main true (some []) ≡ none) × (build_main true (some (a ∷ b ∷ [])) ≡ none)
unfolding build_main cli_main build_shell_completion build_completion parent
build_main_panics a b = (refl, refl)
