-- ===== src/Commands/Presetting/Preset.antt =====
-- What becomes of each flag.
use mathlib.Core.List.{append-nil, append_assoc}
use cruiser.Base.{
  ℕ, zero, suc, not, ◌&&◌, String, Bool, true, false, List, [], ◌∷◌, ◌++◌, Option, none, some, Dict,
  index, index-assign, mem, mem-cons, mem-nil, eq_iff, ◌==◌, ◌||◌, if◌then◌else◌, ◌≡◌, refl, sym,
  ap, ◌∙◌, arith, Option-cases, Bool-cases, inl, inr,
}
use cruiser.Commands.Presetting.{
  FlagValue, text, texts, set_value, string_of, Flag, Command, Commands, command, none_left,
  next_command, Viper, set_flag, preset_flag, preset_found, preset_required_flags,
  post_init_command, post_init_commands,
}

-- The names of the flags of a command and of the commands under it.
unfoldable mutual
  pub names_of : Command → List String
  names_of (command names subcommands) = names ++ all_names subcommands

  pub all_names : Commands → List String
  all_names none_left = []
  all_names (next_command c cs) = names_of c ++ all_names cs

-- How many times a name is visited.
abbrev pub visits : String → List String → ℕ
visits j [] = 0
visits j (name ∷ names) = let rest = visits j names in if name == j then suc rest else rest

pub visits-mem : (j : String) (xs : List String) → mem j xs ≡ true → (n : ℕ) × (visits j xs ≡ suc n)
visits-mem j [] h = ground (arith, mem-nil j)
visits-mem j (x ∷ xs) h = elim (Bool-cases (x == j)) [
  | inl e ↦ (visits j xs, ap (λ b. if b then suc (visits j xs) else visits j xs) e)
  | inr e ↦
      let (n, f) = visits-mem j xs (sym (mem-cons j x xs ∙ ap (λ b. b || mem j xs) e) ∙ h) in
      (n, ap (λ b. if b then suc (visits j xs) else visits j xs) e ∙ f)
]

abbrev pub repeated : ℕ → List String → List String
repeated zero values = []
repeated (suc n) values = values ++ repeated n values

module _ (V : Viper) where
  -- The text that is configured for a flag, if it can be set.
  abbrev pub usable : String → Option String → Option String
  usable name none = none
  usable name (some value) = if value == "" || not (V.accepts name value) then none else some value

  abbrev pub wanted : String → Option String
  wanted name = usable name (V.configured (V.underscored name))

  -- The value after one visit and `n` more, by whether the flag is bound and was set. A flag of
  -- texts that is not bound has the fields of each visit, behind those it was set to before.
  abbrev pub filled_value : ℕ → String → Bool → Bool → FlagValue → FlagValue
  filled_value n value bound changed (text old) = text value
  filled_value n value bound changed (texts old) = texts (
      (if changed then old else [])
      ++ (if bound then V.fields value else repeated (suc n) (V.fields value)))

  abbrev pub filled : ℕ → Bool → Option String → Flag → Flag
  filled n bound none flag = flag
  filled n bound (some value) flag = record {
    value = filled_value n value bound flag.changed flag.value;
    changed = true;
  }

  -- The flag after as many visits.
  abbrev pub after_visits : ℕ → Bool → Option String → Flag → Flag
  after_visits zero bound value flag = flag
  after_visits (suc n) bound value flag =
      if bound && flag.changed then flag else filled n bound value flag

  -- What a visit does.
  abbrev visited_once : Bool → Option String → Flag → Flag
  visited_once bound none flag = flag
  visited_once bound (some value) flag =
      if bound && flag.changed
      then flag
      else record { value = set_value V value flag.changed flag.value; changed = true }

  set_own :
      (name : String) (v : FlagValue)
      → set_flag V name (some (string_of V v)) (record { value = v; changed = true })
        ≡ record { value = v; changed = true }
  set_own name (text value) = ground arith
  set_own name (texts values) = ground arith

  set_usable :
      (name : String) (o : Option String) (flag : Flag)
      → set_flag V name o flag ≡ visited_once false (usable name o) flag
  set_usable name none flag = refl
  set_usable name (some value) flag = ground arith

  preset-visited_once :
      (bound : Bool) (name : String) (v : FlagValue) (changed : Bool)
      → V.is_bound name ≡ bound
      → preset_flag V name (record { value = v; changed = changed })
        ≡ visited_once bound (wanted name) (record { value = v; changed = changed })
  preset-visited_once true name v true b = rw b (set_own name v ∙ sym (kept (wanted name)))
    where
      kept :
          (o : Option String)
          → visited_once true o (record { value = v; changed = true })
            ≡ record { value = v; changed = true }
      kept none = refl
      kept (some value) = refl
  preset-visited_once true name v false b = rw b (
      set_usable name (V.configured (V.underscored name)) (record { value = v; changed = false })
      ∙ unset (wanted name))
    where
      unset :
          (o : Option String)
          → visited_once false o (record { value = v; changed = false })
            ≡ visited_once true o (record { value = v; changed = false })
      unset none = refl
      unset (some value) = refl
  preset-visited_once false name v changed b = rw b (
      set_usable name (V.configured (V.underscored name)) (record { value = v; changed = changed }))

  -- A visit before `n` others.
  visit_first :
      (n : ℕ) (bound : Bool) (o : Option String) (v : FlagValue) (changed : Bool)
      → after_visits n bound o (visited_once bound o (record { value = v; changed = changed }))
        ≡ after_visits (suc n) bound o (record { value = v; changed = changed })
  visit_first zero bound none v changed = ground arith
  visit_first (suc n) bound none v changed = ground arith
  visit_first zero true (some value) v true = refl
  visit_first (suc n) true (some value) v true = refl
  visit_first zero true (some value) (text old) false = refl
  visit_first (suc n) true (some value) (text old) false = refl
  visit_first zero true (some value) (texts old) false = refl
  visit_first (suc n) true (some value) (texts old) false = refl
  visit_first zero false (some value) (text old) changed = refl
  visit_first (suc n) false (some value) (text old) changed = refl
  visit_first zero false (some value) (texts old) true =
      ap (λ l. record { value = texts (old ++ l); changed = true })
        (sym (append-nil (V.fields value)))
  visit_first (suc n) false (some value) (texts old) true =
      ap (λ l. record { value = texts l; changed = true })
        (append_assoc old (V.fields value) (repeated (suc n) (V.fields value)))
  visit_first zero false (some value) (texts old) false =
      ap (λ l. record { value = texts l; changed = true }) (sym (append-nil (V.fields value)))
  visit_first (suc n) false (some value) (texts old) false = refl

  abbrev preset : String → Option Flag → Option Flag
  preset name none = none
  preset name (some flag) = some (preset_flag V name flag)

  abbrev presets : ℕ → String → Option Flag → Option Flag
  presets zero name o = o
  presets (suc n) name o = presets n name (preset name o)

  -- A flag after as many visits, if there is one.
  abbrev pub visited : ℕ → String → Option Flag → Option Flag
  visited n name none = none
  visited n name (some flag) = some (after_visits n (V.is_bound name) (wanted name) flag)

  presets-visited : (n : ℕ) (name : String) (o : Option Flag) → presets n name o ≡ visited n name o
  presets-visited zero name none = refl
  presets-visited zero name (some flag) = refl
  presets-visited (suc n) name none = presets-visited n name none
  presets-visited (suc n) name (some flag) =
      presets-visited n name (some (preset_flag V name flag))
      ∙ ap (λ f. some (after_visits n (V.is_bound name) (wanted name) f))
          (preset-visited_once (V.is_bound name) name flag.value flag.changed refl)
      ∙ ap some (visit_first n (V.is_bound name) (wanted name) flag.value flag.changed)

  index-preset_found :
      (flags : Dict Flag) (name j : String)
      → index (preset_found V name (index flags name) flags) j
        ≡ (if name == j then preset j (index flags j) else index flags j)
  index-preset_found flags name j = elim (Option-cases (index flags name)) [
    | inl e ↦ rw e (ground (arith, eq_iff name j))
    | inr (flag, e) ↦
        rw e (ground (arith, eq_iff name j, index-assign flags name (preset_flag V name flag) j))
  ]

  presets-if :
      (b : Bool) (n : ℕ) (j : String) (o : Option Flag)
      → presets n j (if b then preset j o else o) ≡ presets (if b then suc n else n) j o
  presets-if true n j o = refl
  presets-if false n j o = refl

  index-required :
      (names : List String) (flags : Dict Flag) (j : String)
      → index (preset_required_flags V names flags) j ≡ presets (visits j names) j (index flags j)
  unfolding preset_required_flags
  index-required [] flags j = refl
  index-required (name ∷ names) flags j =
      index-required names (preset_found V name (index flags name) flags) j
      ∙ ap (presets (visits j names) j) (index-preset_found flags name j)
      ∙ presets-if (name == j) (visits j names) j (index flags j)

  presets-append :
      (xs ys : List String) (j : String) (o : Option Flag)
      → presets (visits j (xs ++ ys)) j o ≡ presets (visits j ys) j (presets (visits j xs) j o)
  presets-append [] ys j o = refl
  presets-append (x ∷ xs) ys j o =
      sym (presets-if (x == j) (visits j (xs ++ ys)) j o)
      ∙ presets-append xs ys j (if x == j then preset j o else o)
      ∙ ap (presets (visits j ys) j) (presets-if (x == j) (visits j xs) j o)

  -- Two passes over names are one over both.
  passes :
      (xs ys : List String) (j : String) (o p q : Option Flag)
      → p ≡ presets (visits j xs) j o
      → q ≡ presets (visits j ys) j p
      → q ≡ presets (visits j (xs ++ ys)) j o
  passes xs ys j o p q e f = f ∙ ap (presets (visits j ys) j) e ∙ sym (presets-append xs ys j o)

  mutual
    unfolding post_init_command names_of

    index-post_init_command :
        (c : Command) (flags : Dict Flag) (j : String)
        → index (post_init_command V c flags) j ≡ presets (visits j (names_of c)) j (index flags j)
    index-post_init_command (command names subcommands) flags j =
        passes names (all_names subcommands) j (index flags j)
          (index (preset_required_flags V names flags) j) _ (index-required names flags j)
          (index-post_init_commands subcommands (preset_required_flags V names flags) j)

    index-post_init_commands :
        (cs : Commands) (flags : Dict Flag) (j : String)
        → index (post_init_commands V cs flags) j
          ≡ presets (visits j (all_names cs)) j (index flags j)
    index-post_init_commands none_left flags j = refl
    index-post_init_commands (next_command c cs) flags j =
        passes (names_of c) (all_names cs) j (index flags j) (index (post_init_command V c flags) j)
          _ (index-post_init_command c flags j)
          (index-post_init_commands cs (post_init_command V c flags) j)

  -- After the flags of a tree of commands were preset, a flag that is bound and was set is as it was,
  -- and so is one that no command has, or for which no text is configured that it can be set to.
  -- Another one is set: a flag of one text has the text that is configured, however many commands
  -- share it; one of a list has the fields of that text, once if it is bound, and otherwise once
  -- for each command that has the flag, at whatever depth, behind what it had been set to before.
  pub post_init_commands_effect :
      (cs : Commands) (flags : Dict Flag) (j : String)
      → index (post_init_commands V cs flags) j
        ≡ visited (visits j (all_names cs)) j (index flags j)
  post_init_commands_effect cs flags j =
      index-post_init_commands cs flags j
      ∙ presets-visited (visits j (all_names cs)) j (index flags j)

  -- A flag of one text whose key is not bound to it loses the value that it was given on the command
  -- line to the one that the environment or the file has for it, if it can be set to it.
  pub unbound_overruled :
      (cs : Commands) (flags : Dict Flag) (name old value : String) (changed : Bool)
      → index flags name ≡ some record { value = text old; changed = changed }
      → mem name (all_names cs) ≡ true
      → V.is_bound name ≡ false
      → wanted name ≡ some value
      → index (post_init_commands V cs flags) name
        ≡ some record { value = text value; changed = true }
  unbound_overruled cs flags name old value changed found m b w =
      let (n, e) = visits-mem name (all_names cs) m in
      post_init_commands_effect cs flags name
      ∙ ap (visited (visits name (all_names cs)) name) found
      ∙ ap
          (λ k. some (
            after_visits k (V.is_bound name) (wanted name)
              (record { value = text old; changed = changed })))
          e
      ∙ ap
          (λ c.
            some (
              after_visits (suc n) c (wanted name)
                (record { value = text old; changed = changed })))
          b
      ∙ ap (λ o. some (filled n false o (record { value = text old; changed = changed }))) w
