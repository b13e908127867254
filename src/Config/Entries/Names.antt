-- ===== src/Config/Entries/Names.antt =====
-- The names of the environment variables against the paths in the configuration file.
use percas.Base.{
  ℕ, ◌-◌, List, [], ◌∷◌, Option, none, some, Bool, true, false, ◌&&◌, if◌then◌else◌, leb, ◌==◌,
  find, Member, here, there, ◌≡◌, inl, inr, refl, sym, ap, ◌∙◌, Bool-cases, true≢false,
}
use percas.Text.{String, str_eq, eq_iff, ◌<>◌}
use percas.Config.Entries.{OptionEntry, known_option_entries}
use Prim.Native.Char.{code}

-- The character that a character of a path becomes in the name of its variable.
abbrev spelled : ℕ → ℕ
spelled c = if c == b'.' then b'_' else if leb b'a' c && leb c b'z' then c - 32 else c

-- Whether a text is another one in capitals with `_` for `.`.
unfoldable pub spells : String → String → Bool
spells String.[] String.[] = true
spells String.[] (String.◌∷◌ d t) = false
spells (String.◌∷◌ c s) String.[] = false
spells (String.◌∷◌ c s) (String.◌∷◌ d t) = (code c == spelled (code d)) && spells s t

abbrev same_entry : OptionEntry → Option OptionEntry → Bool
same_entry e none = false
same_entry e (some x) =
    str_eq e.env_name x.env_name && (str_eq e.ent_path x.ent_path && str_eq e.ent_type x.ent_type)

abbrev is_good : OptionEntry → Bool
is_good e =
    spells e.env_name ("PERCAS_CONFIG_" <> e.ent_path)
    && same_entry e (find (λ x. str_eq e.env_name x.env_name) known_option_entries)

abbrev all : List OptionEntry → Bool
all [] = true
all (e ∷ rest) = is_good e && all rest

all-Member :
    (es : List OptionEntry) (e : OptionEntry) → all es ≡ true → Member e es → is_good e ≡ true
all-Member [] e h w = elim w [ ]
all-Member (x ∷ es) e h (here s) = elim (Bool-cases (is_good x)) [
  | inl g ↦ ap is_good s ∙ g
  | inr g ↦ absurd (true≢false (sym (rw g at h)))
]
all-Member (x ∷ es) e h (there w) = elim (Bool-cases (is_good x)) [
  | inl g ↦ all-Member es e (rw g at h) w
  | inr g ↦ absurd (true≢false (sym (rw g at h)))
]

all_known : all known_option_entries ≡ true
unfolding known_option_entries spells find
all_known = refl

and_left : (a b : Bool) → (a && b) ≡ true → a ≡ true
and_left true b h = refl
and_left false b h = absurd (true≢false (sym h))

and_right : (a b : Bool) → (a && b) ≡ true → b ≡ true
and_right true b h = h
and_right false b h = absurd (true≢false (sym h))

same_entry-eq : (e : OptionEntry) (o : Option OptionEntry) → same_entry e o ≡ true → o ≡ some e
same_entry-eq e none h = absurd (true≢false (sym h))
same_entry-eq e (some x) h =
    let names = str_eq e.env_name x.env_name in
    let paths = str_eq e.ent_path x.ent_path in
    let types = str_eq e.ent_type x.ent_type in
    let n = (eq_iff e.env_name x.env_name).0 (and_left names (paths && types) h) in
    let rest = and_right names (paths && types) h in
    let p = (eq_iff e.ent_path x.ent_path).0 (and_left paths types rest) in
    let t = (eq_iff e.ent_type x.ent_type).0 (and_right paths types rest) in
    λ i. some (record { env_name = sym n i; ent_path = sym p i; ent_type = sym t i })

-- The variable of each known option is named after its path, in capitals with `_` for `.` and after
-- `PERCAS_CONFIG_`, and the search for the name finds that option.
pub known_option_entries_lem :
    (e : OptionEntry)
    → Member e known_option_entries
    → (spells e.env_name ("PERCAS_CONFIG_" <> e.ent_path) ≡ true)
      × (find (λ x. str_eq e.env_name x.env_name) known_option_entries ≡ some e)
known_option_entries_lem e w =
    let named = spells e.env_name ("PERCAS_CONFIG_" <> e.ent_path) in
    let hit = find (λ x. str_eq e.env_name x.env_name) known_option_entries in
    let good = all-Member known_option_entries e all_known w in
    (
      and_left named (same_entry e hit) good,
      same_entry-eq e hit (and_right named (same_entry e hit) good),
    )
