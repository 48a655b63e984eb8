-- ===== src/Commands/Flags/Kept.antt =====
-- What becomes of a flag that was set on the command line.
use cruiser.Base.{
  ℕ, zero, suc, List, ◌&&◌, String, Bool, true, false, Option, some, Dict, index, assign, keys, mem,
  All, All-mem, ◌==◌, if◌then◌else◌, replace_dashes, ◌≡◌, refl, ap, ◌∙◌,
}
use cruiser.Commands.Presetting.{text, Flag, Commands, post_init_commands}
use cruiser.Commands.Presetting.Preset.{
  all_names, visits, usable, wanted, filled, visited, post_init_commands_effect, unbound_overruled,
}
use cruiser.Commands.Flags.{
  root_flags, xds_flags, bind_flags, init_bindings, is_bound, viper_of, or_else,
}

is_bound-root_flags : All (λ name. is_bound name ≡ true) (keys root_flags)
unfolding is_bound init_bindings bind_flags index assign keys replace_dashes
is_bound-root_flags = (
  refl,
  (
    refl,
    (
      refl,
      (refl, (refl, (refl, (refl, (refl, (refl, (refl, (refl, (refl, (refl, (refl, tt))))))))))),
    ),
  ),
)

is_bound-xds_flags : All (λ name. is_bound name ≡ false) (keys xds_flags)
unfolding is_bound init_bindings bind_flags index assign keys replace_dashes
is_bound-xds_flags = (refl, (refl, tt))

module _ (environment file : String → Option String) (accepts : String → String → Bool)
    (fields : String → List String) where
  visited-changed :
      (n : ℕ) (name : String) (flag : Flag)
      → is_bound name ≡ true
      → flag.changed ≡ true
      → visited (viper_of environment file accepts fields) n name (some flag) ≡ some flag
  visited-changed zero name flag b c = refl
  visited-changed (suc n) name flag b c =
      let o = wanted (viper_of environment file accepts fields) name in
      ap
        (λ d. some (
          if d
          then flag
          else filled (viper_of environment file accepts fields) n (is_bound name) o flag))
        (ap (λ x. x && flag.changed) b ∙ c)

  -- A flag of the root that was set on the command line has that value after the flags of all
  -- commands were preset, whatever the environment and the configuration file say.
  pub command_line_kept :
      (cs : Commands) (flags : Dict Flag) (name : String) (flag : Flag)
      → mem name (keys root_flags) ≡ true
      → index flags name ≡ some flag
      → flag.changed ≡ true
      → index (post_init_commands (viper_of environment file accepts fields) cs flags) name
        ≡ some flag
  command_line_kept cs flags name flag root found c =
      let V = viper_of environment file accepts fields in
      post_init_commands_effect V cs flags name
      ∙ ap (visited V (visits name (all_names cs)) name) found
      ∙ visited-changed (visits name (all_names cs)) name flag
          (All-mem (λ name. is_bound name ≡ true) (keys root_flags) name is_bound-root_flags root) c

  -- A flag of the xDS command that holds one text, one that some command of the tree has, loses its
  -- value, also one from the command line, to that of its variable in the environment, if that is
  -- not empty and can be parsed.
  pub xds_flag_overruled :
      (cs : Commands) (flags : Dict Flag) (name old value : String) (changed : Bool)
      → mem name (keys xds_flags) ≡ true
      → mem name (all_names cs) ≡ true
      → index flags name ≡ some record { value = text old; changed = changed }
      → environment (replace_dashes name) ≡ some value
      → (value == "") ≡ false
      → accepts name value ≡ true
      → index (post_init_commands (viper_of environment file accepts fields) cs flags) name
        ≡ some record { value = text value; changed = true }
  xds_flag_overruled cs flags name old value changed xds visited found e filled parsed =
      let V = viper_of environment file accepts fields in
      unbound_overruled V cs flags name old value changed found visited
        (All-mem (λ name. is_bound name ≡ false) (keys xds_flags) name is_bound-xds_flags xds)
        (ap (λ o. usable V name (or_else o (file (replace_dashes name)))) e
          ∙ rw (filled, parsed) refl)
