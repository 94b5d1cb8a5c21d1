-- ===== src/Setup/Files.antt =====
-- The configuration file: `UnmarshalYAML` of interactsh-srv/oobsrv/config.go on the tree that the
-- YAML library makes, and `LoadConfig` and `ExpandResolvers` of interactsh-srv/config.go.
use interactsh_lite.Cli.Settings.{trimmed_parts, FileRead, no_file, unreadable, contents}
use interactsh_lite.Prelude.Text.{Unicode, codes, split}
use interactsh_lite.Setup.{SetupConfig, default_config}
use interactsh_lite.Prelude.{
  Bool, true, Option, none, some, List, [], ◌∷◌, ◌++◌, any, if◌then◌else◌, Bytes, equal, ◌≡◌, refl,
  arith,
}

-- A value of a mapping: a scalar, a sequence of scalars, or another node.
pub data Node : Type 0 where
  scalar : Bytes → Node
  sequence : List Bytes → Node
  other_node : Node

abbrev slice_fields : List Bytes
slice_fields = codes "domain" ∷ codes "ip" ∷ codes "resolvers" ∷ []

unfoldable pub split_value : Unicode → Bytes → Node → Node
unfolding equal split
split_value u key (scalar v) =
    if any (equal key) slice_fields then sequence (trimmed_parts u (split b',' v)) else scalar v
split_value u key (sequence vs) = sequence vs
split_value u key other_node = other_node

-- The loop of `UnmarshalYAML` over the keys and values.
unfoldable pub split_slices : Unicode → List (Bytes × Node) → List (Bytes × Node)
unfolding split_value
split_slices u [] = []
split_slices u ((key, val) ∷ rest) = (key, split_value u key val) ∷ split_slices u rest

-- The configuration and whether there was an error; `unmarshal` is YAML over the defaults.
unfoldable pub load_server_config :
    (Bytes → SetupConfig → SetupConfig × Bool) → Bool → FileRead → SetupConfig × Bool
unfolding default_config
load_server_config unmarshal must_exist no_file = (default_config, must_exist)
load_server_config unmarshal must_exist unreadable = (default_config, true)
load_server_config unmarshal must_exist (contents d) = unmarshal d default_config

-- What a resolver names: no file, a file that cannot be read, or a text.
pub data ResolverFile : Type 0 where
  no_resolver_file unreadable_resolvers : ResolverFile
  resolver_text : Bytes → ResolverFile

abbrev pub line_parts : Unicode → List Bytes → List Bytes
line_parts u [] = []
line_parts u (l ∷ ls) = trimmed_parts u (split b',' l) ++ line_parts u ls

unfoldable pub expand_resolvers :
    Unicode → (Bytes → ResolverFile) → List Bytes → List Bytes → Option (List Bytes)
unfolding split
expand_resolvers u file [] result = some result
expand_resolvers u file (r ∷ rs) result = elim (file r) [
  | no_resolver_file ↦ expand_resolvers u file rs (result ++ (r ∷ []))
  | unreadable_resolvers ↦ none
  | resolver_text d ↦ expand_resolvers u file rs (result ++ line_parts u (split b'\n' d))
]

-- Splitting a value twice is splitting it once.
split_value-twice :
    (u : Unicode) (key : Bytes) (n : Node)
    → split_value u key (split_value u key n) ≡ split_value u key n
unfolding split_value
split_value-twice u key (scalar v) = ground arith
split_value-twice u key (sequence vs) = refl
split_value-twice u key other_node = refl
