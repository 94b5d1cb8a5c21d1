-- ===== src/Cli/Display.antt =====
-- What a run prints and returns.
use interactsh_lite.Cli.Run.{Shown, Viewer, is_shown, formatted, Reason, on_timeout}
use interactsh_lite.Cli.Settings.{CliConfig}
use interactsh_lite.Server.{Interaction}
use interactsh_lite.Prelude.{
  ℕ, ◌+◌, Bool, true, false, ◌&&◌, Option, none, some, List, [], ◌∷◌, ◌++◌, ltb, leb, if◌then◌else◌,
  Bytes, ◌≡◌,
}

abbrev pub optional : Option Bytes → List Bytes
optional none = []
optional (some text) = text ∷ []

-- What the interactions that are shown print.
abbrev pub texts : {Re : Type 0} → Viewer Re → CliConfig → List Interaction → List Bytes
texts v cfg [] = []
texts v cfg (i ∷ is) =
    let rest = texts v cfg is in
    if is_shown v cfg i then optional (formatted v cfg i) ++ rest else rest

-- How many are shown.
abbrev pub shown : {Re : Type 0} → Viewer Re → CliConfig → List Interaction → ℕ
shown v cfg [] = 0
shown v cfg (i ∷ is) = let rest = shown v cfg is in if is_shown v cfg i then 1 + rest else rest

-- The count and the closes after a number of further displays.
abbrev Counts : ℕ → ℕ → Shown → Shown → Type 0
Counts k n st st' =
    (st'.display_count ≡ st.display_count + n)
    × (st'.closes
        ≡ st.closes + (if ltb st.display_count k && leb k (st.display_count + n) then 1 else 0))

abbrev pub is_timeout : Reason → Bool
is_timeout on_timeout = true
is_timeout _ = false
