-- ===== src/Cli/Items.antt =====
-- Lists in settings, and the stored response that the settings build.
use interactsh_lite.Cli.Settings.{
  CliConfig, build_response_config, built, failed, combined_redirect, response_set, trimmed_parts,
  parse_comma_separated,
}
use interactsh_lite.Endpoints.{check_response}
use interactsh_lite.Oobclient.Response.{
  ResponseConfig, location_headers, is_allowed_unauthenticated,
}
use interactsh_lite.Prelude.Int.{pos}
use interactsh_lite.Prelude.Text.{
  Unicode, codes, cut, equal_fold, is_ascii, join, lower_byte, split, trim_left, trim_right,
  trim_space,
}
use interactsh_lite.Server.{Server, Library}
use interactsh_lite.Prelude.{
  true, false, not, none, some, List, [], ◌∷◌, ◌++◌, ◌==◌, Bytes, equal, equal_iff, any, All, ◌≡◌,
  ◌≢◌, ◌↔◌, refl, ap, ◌∙◌, arith,
}

-- An item that a list in a setting can have.
pub record IsItem (u : Unicode) (s : Bytes) : Type 0 where
  pub nonempty : equal s [] ≡ false
  pub no_comma : any (λ c. c == b',') s ≡ false
  pub trimmed : trim_space u s ≡ s

split-comma :
    (x s : Bytes) → any (λ c. c == b',') x ≡ false → split b',' (x ++ (b',' ∷ s)) ≡ x ∷ split b',' s
unfolding split
split-comma [] s h = refl
split-comma (c ∷ x) s h = ground (arith, h, split-comma x s)

split_one : (x : Bytes) → any (λ c. c == b',') x ≡ false → split b',' x ≡ x ∷ []
unfolding split
split_one [] h = refl
split_one (c ∷ x) h = ground (arith, h, split_one x)

trimmed_parts-item :
    (u : Unicode) (x : Bytes) (ps : List Bytes)
    → IsItem u x
    → trimmed_parts u (x ∷ ps) ≡ x ∷ trimmed_parts u ps
trimmed_parts-item u x ps h = ground (arith, h.trimmed, h.nonempty)

trimmed_parts-join :
    (u : Unicode) (x : Bytes) (xs : List Bytes)
    → All (IsItem u) (x ∷ xs)
    → trimmed_parts u (split b',' (join (codes ",") (x ∷ xs))) ≡ x ∷ xs
unfolding join
trimmed_parts-join u x [] (h, hs) =
    ap (trimmed_parts u) (split_one x h.no_comma) ∙ trimmed_parts-item u x [] h
trimmed_parts-join u x (y ∷ ys) (h, hs) =
    let rest = join (codes ",") (y ∷ ys) in
    ap (trimmed_parts u) (split-comma x rest h.no_comma)
    ∙ trimmed_parts-item u x (split b',' rest) h
    ∙ ap (◌∷◌ x) (trimmed_parts-join u y ys hs)

join_nonempty :
    (u : Unicode) (x : Bytes) (xs : List Bytes)
    → IsItem u x
    → equal (join (codes ",") (x ∷ xs)) [] ≡ false
unfolding join equal
join_nonempty u [] xs h = absurd (ground (arith, h.nonempty))
join_nonempty u (c ∷ x) [] h = refl
join_nonempty u (c ∷ x) (y ∷ ys) h = refl

-- `ParseCommaSeparated` gives back the items that are joined by commas, if none is empty, has a
-- comma, or has space around it.
parse_comma_separated-join :
    (u : Unicode) (xs : List Bytes)
    → All (IsItem u) xs
    → parse_comma_separated u (join (codes ",") xs) ≡ xs
unfolding parse_comma_separated join equal
parse_comma_separated-join u [] h = refl
parse_comma_separated-join u (x ∷ xs) (h, hs) =
    rw (join_nonempty u x xs h) (trimmed_parts-join u x xs (h, hs))

location_header :
    (u : Unicode) (url : Bytes) → location_headers u false ((codes "Location: " ++ url) ∷ []) ≡ true
unfolding location_headers cut equal_fold trim_space trim_left trim_right is_ascii lower_byte equal
location_header u url = refl

abbrev redirect_config : Bytes → ResponseConfig
redirect_config url = record {
  status_code = pos 307;
  headers = (codes "Location: " ++ url) ∷ [];
  body = [];
}

-- With a redirect set, another response setting is refused, and nothing else is. A redirect alone
-- builds a response that every server with dynamic responses accepts, be it with authentication
-- or without.
pub build_response_config_redirect :
    {H : Type 0} (lib : Library) (cfg : CliConfig) (s : Server H)
    → cfg.redirect ≢ []
    → s.cfg.dynamic_resp ≡ true
    → ((build_response_config cfg ≡ failed combined_redirect) ↔ (response_set cfg ≡ true))
      × (response_set cfg ≡ false
          → (c : ResponseConfig) × (build_response_config cfg ≡ built (some c))
            × (check_response lib (some c) s ≡ none))
unfolding build_response_config check_response is_allowed_unauthenticated equal
build_response_config_redirect lib cfg s r d =
    let set : not (equal cfg.redirect []) ≡ true = ground (arith, r, equal_iff cfg.redirect []) in
    (
      ground (arith, set),
      λ e. (
        redirect_config cfg.redirect,
        ground (arith, set, e),
        ground (arith, d, location_header lib.unicode cfg.redirect),
      ),
    )
