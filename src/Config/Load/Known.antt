-- ===== src/Config/Load/Known.antt =====
-- Which variables of the environment a configuration can be loaded under.
use percas.Base.{
  List, [], ◌∷◌, ◌++◌, Option, none, some, Bool, true, false, Outcome, returned, panicked,
  not-returned, returned-injective, find, Member, here, there, ◌≡◌, ◌≢◌, refl, sym, ap, ◌∙◌,
  Option-cases, Bool-cases, none-ne-some, inl, inr, arith, true≢false, if◌then◌else◌,
}
use percas.Text.{String, str_eq}
use percas.Config.Entries.{OptionEntry, known_option_entries}
use percas.Config.Load.{
  Toml, Value, Warning, LoadConfigResult, item, set_toml_path, apply, starts_with, config_vars,
  finish, load_config,
}

-- What a variable has to be: the name of a known option with a value of its type.
pub record Accepted (k v : String) : Type 0 where
  pub entry : OptionEntry
  pub known : find (λ e. str_eq k e.env_name) known_option_entries ≡ some entry
  pub value : Value
  pub typed : item entry.ent_type v ≡ some value

module _ ⦃t : Toml⦄ where
  apply-cons :
      (doc : t.DocumentMut) (ws : List Warning) (k v : String) (rest : List (String × String))
      (result : t.DocumentMut × List Warning)
      → apply doc ws ((k, v) ∷ rest) ≡ returned (some result)
      → Accepted k v
        × ((doc' : t.DocumentMut) × (ws' : List Warning) × (apply doc' ws' rest
              ≡ returned (some result)))
  unfolding apply
  apply-cons doc ws k v rest result h =
      elim (Option-cases (find (λ (e : OptionEntry). str_eq k e.env_name) known_option_entries)) [
        | inl e ↦ absurd (none-ne-some (returned-injective (rw (e, apply) at h)))
        | inr (ent, e) ↦ elim (Option-cases (item ent.ent_type v)) [
          | inl f ↦ absurd (none-ne-some (returned-injective (rw (e, apply, f) at h)))
          | inr (value, f) ↦ elim (Option-cases (set_toml_path doc k ent.ent_path value)) [
            | inl g ↦ absurd (not-returned (rw (e, apply, f, g) at h))
            | inr ((doc', new), g) ↦ (
              record { entry = ent; known = e; value = value; typed = f },
              (doc', ws ++ new, rw (e, apply, f, g) at h),
            )
          ]
        ]
      ]

  apply-Accepted :
      (doc : t.DocumentMut) (ws : List Warning) (vars : List (String × String))
      (result : t.DocumentMut × List Warning) (k v : String)
      → apply doc ws vars ≡ returned (some result)
      → Member (k, v) vars
      → Accepted k v
  apply-Accepted doc ws [] result k v h w = elim w [ ]
  apply-Accepted doc ws ((q, u) ∷ rest) result k v h (here e) =
      rw (ap (λ x. x.0) e, ap (λ x. x.1) e) (apply-cons doc ws q u rest result h).0
  apply-Accepted doc ws ((q, u) ∷ rest) result k v h (there w) =
      let (_, next) = apply-cons doc ws q u rest result h in
      apply-Accepted next.0 next.1 rest result k v next.2 w

  Member-config_vars :
      (vars : List (String × String)) (k v : String)
      → Member (k, v) vars
      → starts_with "PERCAS_CONFIG_" k ≡ true
      → Member (k, v) (config_vars vars)
  unfolding config_vars
  Member-config_vars [] k v w s = elim w [ ]
  Member-config_vars ((q, u) ∷ rest) k v (here e) s = rw (name (sym e) s) (here e)
    where
      name :
          ◌≡◌ {A = String × String} (q, u) (k, v)
          → starts_with "PERCAS_CONFIG_" k ≡ true
          → starts_with "PERCAS_CONFIG_" q ≡ true
      name f g = ap (λ x. starts_with "PERCAS_CONFIG_" x.0) f ∙ g
  Member-config_vars ((q, u) ∷ rest) k v (there w) s =
      elim (Bool-cases (starts_with "PERCAS_CONFIG_" q)) [
        | inl f ↦ rw f (there (Member-config_vars rest k v w s))
        | inr f ↦ rw f (Member-config_vars rest k v w s)
      ]

  finish-inv :
      (r : Outcome (Option (t.DocumentMut × List Warning))) (result : LoadConfigResult)
      → finish r ≡ returned (some result)
      → (x : t.DocumentMut × List Warning) × (r ≡ returned (some x))
  finish-inv panicked result h = absurd (not-returned h)
  finish-inv (returned none) result h = absurd (none-ne-some (returned-injective h))
  finish-inv (returned (some x)) result h = (x, refl)

  -- Where a configuration is loaded, every variable of the environment whose name starts with
  -- `PERCAS_CONFIG_` has the name of a known option and a value of the type of that option.
  pub load_config-Accepted :
      (content : Option String) (vars : List (String × String)) (result : LoadConfigResult)
      (k v : String)
      → load_config content (some vars) ≡ returned (some result)
      → Member (k, v) vars
      → starts_with "PERCAS_CONFIG_" k ≡ true
      → Accepted k v
  unfolding load_config
  load_config-Accepted none vars result k v h w s = absurd (none-ne-some (returned-injective h))
  load_config-Accepted (some content) vars result k v h w s =
      elim (Option-cases (t.from_str content)) [
        | inl e ↦ absurd (none-ne-some (returned-injective (rw (e, load_config) at h)))
        | inr (doc, e) ↦
            let (x, f) =
              finish-inv (apply doc [] (config_vars vars)) result (rw (e, load_config) at h) in
            apply-Accepted doc [] (config_vars vars) x k v f (Member-config_vars vars k v w s)
      ]

  not-Accepted_peers : (v : String) → ¬ Accepted "PERCAS_CONFIG_SERVER_INITIAL_PEERS" v
  unfolding known_option_entries find item
  not-Accepted_peers v a = absurd (
      none-ne-some (
        ap (λ (e : OptionEntry). item e.ent_type v) (percas.Base.some-injective a.known) ∙ a.typed))

  -- No configuration is loaded where the variable `PERCAS_CONFIG_SERVER_INITIAL_PEERS` is set, whatever
  -- its value.
  pub load_config-initial_peers :
      (content : Option String) (vars : List (String × String)) (result : LoadConfigResult)
      (v : String)
      → Member ("PERCAS_CONFIG_SERVER_INITIAL_PEERS", v) vars
      → load_config content (some vars) ≢ returned (some result)
  unfolding starts_with
  load_config-initial_peers content vars result v w h =
      not-Accepted_peers v
        (load_config-Accepted content vars result "PERCAS_CONFIG_SERVER_INITIAL_PEERS" v h w refl)
