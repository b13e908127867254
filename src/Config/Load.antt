-- ===== src/Config/Load.antt =====
-- cmd/percas/src/config.rs: the configuration file with the environment on top of it. The crate
-- `toml_edit` is a parameter.
pub mod Known
use percas.Base.{
  ℕ, zero, suc, ◌+◌, ◌*◌, ◌-◌, ◌^◌, List, [], ◌∷◌, ◌++◌, Option, none, some, Bool, true, false,
  ◌&&◌, if◌then◌else◌, leb, ◌==◌, Outcome, returned, panicked, find,
}
use percas.Text.{String, str_eq}
use percas.Config.{Config}
use percas.Config.Entries.{OptionEntry, known_option_entries}
use Prim.Native.Char.{code}

-- An i64.
pub data ℤ : Type 0 where
  pos negsuc : ℕ → ℤ

-- The digits of a decimal number, after `n`.
unfoldable pub digits : ℕ → String → Option ℕ
digits n String.[] = some n
digits n (String.◌∷◌ c s) =
    if leb b'0' (code c) && leb (code c) b'9' then digits (n * 10 + (code c - b'0')) s else none

-- A decimal number, which has a digit at least.
unfoldable pub natural : String → Option ℕ
unfolding digits
natural String.[] = none
natural (String.◌∷◌ c s) = digits 0 (String.◌∷◌ c s)

abbrev at_most : Option ℕ → Option ℤ
at_most none = none
at_most (some n) = if leb n (2 ^ 63 - 1) then some (pos n) else none

abbrev negated : Option ℕ → Option ℤ
negated none = none
negated (some zero) = some (pos 0)
negated (some (suc n)) = if leb (suc n) (2 ^ 63) then some (negsuc n) else none

-- `v.parse::<i64>()`.
unfoldable pub parse_i64 : String → Option ℤ
unfolding natural
parse_i64 String.[] = none
parse_i64 (String.◌∷◌ c s) =
    if code c == b'-'
    then negated (natural s)
    else if code c == b'+'
    then at_most (natural s)
    else at_most (natural (String.◌∷◌ c s))

-- `v.parse::<bool>()`.
abbrev pub parse_bool : String → Option Bool
parse_bool v = if str_eq v "true" then some true else if str_eq v "false" then some false else none

pub data Value : Type 0 where
  string : String → Value
  integer : ℤ → Value
  boolean : Bool → Value

-- `toml_edit::DocumentMut`: whether the item at a path has a member, `&mut item[part]`, which creates
-- the member or panics (`none`), an assignment to it, and the reading of a configuration.
pub record Toml : Type 1 where
  pub DocumentMut : Type 0
  pub from_str : String → Option DocumentMut
  pub contains : DocumentMut → List String → String → Bool
  pub index_mut : DocumentMut → List String → String → Option DocumentMut
  pub assign : DocumentMut → List String → String → Value → Option DocumentMut
  pub deserialize : DocumentMut → Option Config

-- `str::starts_with`, the prefix first.
unfoldable pub starts_with : String → String → Bool
starts_with String.[] s = true
starts_with (String.◌∷◌ c p) String.[] = false
starts_with (String.◌∷◌ c p) (String.◌∷◌ d s) = (code c == code d) && starts_with p s

-- `path.split('.')`: the first part, and the others.
unfoldable pub split : String → String × List String
split String.[] = (String.[], [])
split (String.◌∷◌ c s) =
    let (part, parts) = split s in
    if code c == b'.' then (String.[], part ∷ parts) else (String.◌∷◌ c part, parts)

-- A warning: the key, the path, and the part that was missing.
pub record Warning : Type 0 where
  pub key : String
  pub path : String
  pub part : String

pub record LoadConfigResult : Type 0 where
  pub config : Config
  pub warnings : List Warning

-- A value of the type that an option has, by the name of the type.
unfoldable pub item : String → String → Option Value
unfolding parse_i64
item ent_type v =
    if str_eq ent_type "string"
    then some (string v)
    else if str_eq ent_type "integer"
    then elim (parse_i64 v) [ none ↦ none | some n ↦ some (integer n) ]
    else if str_eq ent_type "boolean"
    then elim (parse_bool v) [ none ↦ none | some b ↦ some (boolean b) ]
    else none

module _ ⦃t : Toml⦄ where
  -- The parts of the path from `part` on, inside the item at `current`.
  unfoldable pub set_parts :
      String
      → String
      → Value
      → t.DocumentMut
      → List String
      → String
      → List String
      → List Warning
      → Option (t.DocumentMut × List Warning)
  set_parts key path value doc current part [] warnings = elim (t.assign doc current part value) [
    | none ↦ none
    | some doc' ↦ some (doc', warnings)
  ]
  set_parts key path value doc current part (below ∷ rest) warnings =
      elim (t.index_mut doc current part) [
        | none ↦ none
        | some doc' ↦ set_parts key path value doc' (current ++ (part ∷ [])) below rest (
            if t.contains doc current part
            then warnings
            else warnings ++ (record { key = key; path = path; part = part } ∷ []))
      ]

  unfoldable pub set_toml_path :
      t.DocumentMut → String → String → Value → Option (t.DocumentMut × List Warning)
  unfolding set_parts split
  set_toml_path doc key path value =
      set_parts key path value doc [] (split path).0 (split path).1 []

  -- The loop of `load_config` over the environment; `returned none` is an error.
  unfoldable pub apply :
      t.DocumentMut
      → List Warning
      → List (String × String)
      → Outcome (Option (t.DocumentMut × List Warning))
  unfolding item set_toml_path
  apply doc warnings [] = returned (some (doc, warnings))
  apply doc warnings ((k, v) ∷ rest) = elim (find (λ e. str_eq k e.env_name) known_option_entries) [
    | none ↦ returned none
    | some ent ↦ elim (item ent.ent_type v) [
      | none ↦ returned none
      | some value ↦ elim (set_toml_path doc k ent.ent_path value) [
        | none ↦ panicked
        | some (doc', new) ↦ apply doc' (warnings ++ new) rest
      ]
    ]
  ]

  -- `filter(|(k, _)| k.starts_with("PERCAS_CONFIG_"))`.
  unfoldable pub config_vars : List (String × String) → List (String × String)
  unfolding starts_with
  config_vars [] = []
  config_vars ((k, v) ∷ rest) =
      let others = config_vars rest in
      if starts_with "PERCAS_CONFIG_" k then (k, v) ∷ others else others

  abbrev pub finish :
      Outcome (Option (t.DocumentMut × List Warning)) → Outcome (Option LoadConfigResult)
  finish panicked = panicked
  finish (returned none) = returned none
  finish (returned (some (doc, warnings))) = returned (elim (t.deserialize doc) [
    | none ↦ none
    | some config ↦ some (record { config = config; warnings = warnings })
  ])

  -- The options of the environment over those of the file. `std::env::vars` panics on a variable that is
  -- not unicode.
  abbrev pub with_vars :
      t.DocumentMut → Option (List (String × String)) → Outcome (Option LoadConfigResult)
  with_vars doc none = panicked
  with_vars doc (some vars) = finish (apply doc [] (config_vars vars))

  -- `content` is what the file holds, `none` where it cannot be read; `vars` are the variables of the
  -- environment, `none` where one of them is not unicode.
  unfoldable pub load_config :
      Option String → Option (List (String × String)) → Outcome (Option LoadConfigResult)
  unfolding apply config_vars
  load_config none vars = returned none
  load_config (some content) vars = elim (t.from_str content) [
    | none ↦ returned none
    | some doc ↦ with_vars doc vars
  ]
