-- ===== src/Tests/Config.antt =====
-- The configuration under small environments.
use percas.Base.{
  List, [], ◌∷◌, none, some, ◌≡◌, ◌≢◌, refl, returned, true, false, Member, here, find,
}
use percas.Text.{String, str_eq, ◌<>◌}
use percas.Config.{Config, default}
use percas.Config.Entries.{OptionEntry, known_option_entries}
use percas.Config.Entries.Names.{spells, known_option_entries_lem}
use percas.Config.Load.{Toml, Value, LoadConfigResult, pos, negsuc, parse_i64, load_config, split}
use percas.Config.Load.Known.{Accepted, load_config-Accepted, load_config-initial_peers}

numbers :
    (parse_i64 "42" ≡ some (pos 42))
    × (parse_i64 "-3" ≡ some (negsuc 2))
    × (parse_i64 "9223372036854775808" ≡ none)
    × (parse_i64 "-" ≡ none)
unfolding parse_i64
numbers = (refl, refl, refl, refl)

parts : split "server.dir" ≡ ("server", "dir" ∷ [])
unfolding split
parts = refl

-- A document of no content that reads as the default configuration.
instance abbrev toy_toml : Toml
toy_toml = record {
  DocumentMut = Unit {0};
  from_str = λ s. some tt;
  contains = λ doc path part. false;
  index_mut = λ doc path part. some tt;
  assign = λ doc path part value. some tt;
  deserialize = λ doc. some (default 1024);
}

abbrev dir_var : List (String × String)
dir_var = ("PERCAS_CONFIG_SERVER_DIR", "/d") ∷ ("HOME", "/root") ∷ []

abbrev loaded : LoadConfigResult
loaded = record {
  config = default 1024;
  warnings = record { key = "PERCAS_CONFIG_SERVER_DIR"; path = "server.dir"; part = "server" } ∷ [];
}

loads : load_config (some "") (some dir_var) ≡ returned (some loaded)
unfolding load_config known_option_entries find
loads = refl

load_config-Accepted_example : Accepted "PERCAS_CONFIG_SERVER_DIR" "/d"
unfolding percas.Config.Load.starts_with
load_config-Accepted_example =
    load_config-Accepted (some "") dir_var loaded "PERCAS_CONFIG_SERVER_DIR" "/d" loads (here refl)
      refl

abbrev peers_var : List (String × String)
peers_var = ("PERCAS_CONFIG_SERVER_INITIAL_PEERS", "[]") ∷ []

load_config-initial_peers_example : load_config (some "") (some peers_var) ≢ returned (some loaded)
load_config-initial_peers_example =
    load_config-initial_peers (some "") peers_var loaded "[]" (here refl)

abbrev first_entry : OptionEntry
first_entry = record {
  env_name = "PERCAS_CONFIG_SERVER_ADVERTISE_CTRL_ADDR";
  ent_path = "server.advertise_ctrl_addr";
  ent_type = "string";
}

listed : Member first_entry known_option_entries
unfolding known_option_entries
listed = here refl

known_option_entries_lem_example :
    (spells first_entry.env_name ("PERCAS_CONFIG_" <> first_entry.ent_path) ≡ true)
    × (find (λ x. str_eq first_entry.env_name x.env_name) known_option_entries ≡ some first_entry)
known_option_entries_lem_example = known_option_entries_lem first_entry listed
