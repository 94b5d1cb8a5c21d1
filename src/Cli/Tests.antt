-- ===== src/Cli/Tests.antt =====
-- A run with two interactions and a count of one.
use interactsh_lite.Cli.Filter.{Selects, SomeOf, should_display_iff}
use interactsh_lite.Cli.Items.{IsItem, build_response_config_redirect}
use interactsh_lite.Cli.Output.{ProtocolFilter, matches_interaction, should_display}
use interactsh_lite.Cli.Run.{Viewer}
use interactsh_lite.Cli.Settings.{
  CliConfig, initial_config, build_response_config, failed, combined_redirect, response_set,
}
use interactsh_lite.Prelude.Int.{pos}
use interactsh_lite.Prelude.Text.{
  codes, no_unicode, to_lower, trim_space, trim_left, trim_right, is_ascii,
}
use interactsh_lite.Server.{Interaction}
use interactsh_lite.Server.Tests.{interaction, library, server}
use interactsh_lite.Prelude.{
  true, false, some, List, [], ◌∷◌, Bytes, equal, ◌≡◌, ◌≢◌, ◌↔◌, ◌⊎◌, refl, All, arith,
}

abbrev filter_dns : ProtocolFilter
filter_dns = record {
  dns_only = true;
  http_only = false;
  smtp_only = false;
  ftp_only = false;
  ldap_only = false;
}

-- A pattern fits a text that equals it.
should_display_iff_example :
    (should_display equal no_unicode filter_dns (codes "a" ∷ []) [] (interaction (codes "a"))
      ≡ true)
    ↔ (Selects filter_dns (to_lower no_unicode (codes "dns"))
        × ((◌≡◌ {A = List Bytes} (codes "a" ∷ []) [])
            ⊎ SomeOf
                (λ re. matches_interaction equal re (interaction (codes "a")))
                (codes "a" ∷ []))
        × Unit {0})
should_display_iff_example =
    should_display_iff equal no_unicode filter_dns (codes "a" ∷ []) [] (interaction (codes "a"))

abbrev items : List Bytes
items = codes "a.test" ∷ codes "b.test" ∷ []

items-IsItem : All (IsItem no_unicode) items
unfolding equal trim_space trim_left trim_right is_ascii
items-IsItem = (
  record { nonempty = refl; no_comma = refl; trimmed = refl },
  (record { nonempty = refl; no_comma = refl; trimmed = refl }, tt),
)

abbrev redirecting : CliConfig
redirecting = record initial_config { redirect = codes "https://a.test/" }

redirects : redirecting.redirect ≢ []
redirects e = ground (arith, e)

build_response_config_redirect_example :
    (build_response_config redirecting ≡ failed combined_redirect)
    ↔ (response_set redirecting ≡ true)
unfolding server
build_response_config_redirect_example =
    (build_response_config_redirect library redirecting server redirects refl).0

abbrev viewer : Viewer Bytes
viewer = record {
  unicode = no_unicode;
  match_string = equal;
  format_time = λ t. codes "now";
  marshal = λ i. some i.full_id;
  use_color = false;
  match_regexes = codes "a" ∷ [];
  filter_regexes = [];
}

abbrev counting : CliConfig
counting = record initial_config { count = pos 1; json = true }

abbrev received : List Interaction
received = interaction (codes "a") ∷ interaction (codes "b") ∷ []
