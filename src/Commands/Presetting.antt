-- ===== src/Commands/Presetting.antt =====
-- cmd/root.go: `postInitCommands` and `presetRequiredFlags`, which give the flags of all commands
-- the values of the environment and of the configuration file.
pub mod Preset
mod Tests
use cruiser.Base.{
  String, Bool, true, false, List, [], ◌∷◌, ◌++◌, Option, none, some, Dict, index, assign, ◌==◌,
  ◌||◌, ◌&&◌, not, if◌then◌else◌,
}

-- The value of a flag: one text, or the texts of a `StringSliceVar`.
pub data FlagValue : Type 0 where
  text : String → FlagValue
  texts : List String → FlagValue

-- `pflag.Flag`, and whether it was set. The commands share a flag of the root, so the flags are in
-- one store, by their names.
pub record Flag : Type 0 where
  pub value : FlagValue
  pub changed : Bool

-- A command of cobra: the names of the flags that `VisitAll` meets, and its subcommands.
mutual
  pub data Command : Type 0 where
    command : (flags : List String) → (subcommands : Commands) → Command

  pub data Commands : Type 0 where
    none_left : Commands
    next_command : Command → Commands → Commands

-- What is used of viper and pflag. `underscored` is the key for the name of a flag, `is_bound` says
-- whether that key is bound to the flag, and `configured` is the value of a key in the environment
-- or in the file. `accepts` says whether `Set` can parse a text for a flag, whose error is ignored, and `fields` are
-- the texts between the commas of one.
pub record Viper : Type 0 where
  pub underscored : String → String
  pub is_bound : String → Bool
  pub configured : String → Option String
  pub accepts : String → String → Bool
  pub fields : String → List String

module _ (V : Viper) where
  -- `GetString` of a flag: what is a slice is no string, for which it gives the empty one.
  abbrev pub string_of : FlagValue → String
  string_of (text value) = value
  string_of (texts values) = ""

  -- `viper.GetString(name)`, where `viper.IsSet(name)`: a flag that is bound and was set comes
  -- first.
  abbrev pub setting : String → Flag → Option String
  setting name flag =
      if V.is_bound name && flag.changed
      then some (string_of flag.value)
      else V.configured (V.underscored name)

  -- `Set` on a value: a slice that was set is appended to.
  abbrev pub set_value : String → Bool → FlagValue → FlagValue
  set_value value changed (text old) = text value
  set_value value true (texts old) = texts (old ++ V.fields value)
  set_value value false (texts old) = texts (V.fields value)

  -- `cmd.Flags().Set(f.Name, val)`, unless the value is empty.
  abbrev pub set_flag : String → Option String → Flag → Flag
  set_flag name none flag = flag
  set_flag name (some value) flag =
      if value == "" || not (V.accepts name value)
      then flag
      else record { value = set_value value flag.changed flag.value; changed = true }

  abbrev pub preset_flag : String → Flag → Flag
  preset_flag name flag = set_flag name (setting name flag) flag

  abbrev pub preset_found : String → Option Flag → Dict Flag → Dict Flag
  preset_found name none flags = flags
  preset_found name (some flag) flags = assign flags name (preset_flag name flag)

  unfoldable pub preset_required_flags : List String → Dict Flag → Dict Flag
  preset_required_flags [] flags = flags
  preset_required_flags (name ∷ names) flags =
      preset_required_flags names (preset_found name (index flags name) flags)

  unfoldable mutual
    -- One round of the loop of `postInitCommands`.
    pub post_init_command : Command → Dict Flag → Dict Flag
    post_init_command (command names subcommands) flags =
        post_init_commands subcommands (preset_required_flags names flags)

    pub post_init_commands : Commands → Dict Flag → Dict Flag
    post_init_commands none_left flags = flags
    post_init_commands (next_command c cs) flags = post_init_commands cs (post_init_command c flags)
