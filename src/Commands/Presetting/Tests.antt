-- ===== src/Commands/Presetting/Tests.antt =====
-- Two commands, with a flag that they share and flags that are not bound.
use cruiser.Base.{
  true, false, [], ◌∷◌, none, some, Dict, index, assign, ◌==◌, if◌then◌else◌, ◌≡◌, refl,
}
use cruiser.Commands.Presetting.{
  text, texts, Flag, Commands, command, none_left, next_command, Viper, post_init_commands,
  preset_required_flags,
}
use cruiser.Commands.Presetting.Preset.{names_of, post_init_commands_effect}

abbrev viper : Viper
viper = record {
  underscored = λ n. if n == "port-key" then "port_key" else n;
  is_bound = λ n. n == "address";
  configured = λ k.
      if k == "port_key"
      then some "p"
      else if k == "address"
      then some "0.0.0.0"
      else if k == "namespaces"
      then some "a,b"
      else none;
  accepts = λ n v. true;
  fields = λ v. "a" ∷ "b" ∷ [];
}

abbrev tree : Commands
tree =
    next_command
      (command ("address" ∷ "namespaces" ∷ [])
        (next_command (command ("address" ∷ "namespaces" ∷ "port-key" ∷ []) none_left) none_left))
      none_left

abbrev flags : Dict Flag
flags =
    ("address", record { value = text "127.0.0.1"; changed = true })
    ∷ ("port-key", record { value = text "q"; changed = true })
    ∷ ("namespaces", record { value = texts []; changed = false })
    ∷ []

address_kept :
    index (post_init_commands viper tree flags) "address"
    ≡ some record { value = text "127.0.0.1"; changed = true }
unfolding post_init_commands preset_required_flags index assign
address_kept = refl

-- What is configured for the list that two commands share is doubled.
post_init_commands_effect_example :
    index (post_init_commands viper tree flags) "namespaces"
    ≡ some record { value = texts ("a" ∷ "b" ∷ "a" ∷ "b" ∷ []); changed = true }
unfolding names_of index
post_init_commands_effect_example = post_init_commands_effect viper tree flags "namespaces"
