-- ===== src/Commands/Flags/Tests.antt =====
-- A command line with an address and with a key, and an environment with others.
use cruiser.Base.{
  String, Bool, true, List, [], ◌∷◌, Option, none, some, Dict, index, keys, mem, ◌==◌,
  if◌then◌else◌, replace_dashes, ◌≡◌, refl,
}
use cruiser.Commands.Presetting.{
  text, Flag, Commands, command, none_left, next_command, post_init_commands,
}
use cruiser.Commands.Presetting.Preset.{names_of, all_names}
use cruiser.Commands.Flags.{root_flags, xds_flags, viper_of}
use cruiser.Commands.Flags.Kept.{command_line_kept, xds_flag_overruled}

abbrev environment : String → Option String
environment key =
    if key == "aws_service_port_tag_key"
    then some "port"
    else if key == "listener_address"
    then some "0.0.0.0:1"
    else none

abbrev file : String → Option String
file key = none

abbrev accepts : String → String → Bool
accepts name value = true

abbrev fields : String → List String
fields value = value ∷ []

abbrev tree : Commands
tree =
    next_command
      (command ("listener-address" ∷ []) (
        next_command (command ("listener-address" ∷ "aws-service-port-tag-key" ∷ []) none_left)
          none_left))
      none_left

abbrev address : Flag
address = record { value = text "127.0.0.1:4880"; changed = true }

abbrev tag_key : Flag
tag_key = record { value = text "http-port"; changed = true }

abbrev flags : Dict Flag
flags = ("listener-address", address) ∷ ("aws-service-port-tag-key", tag_key) ∷ []

runs : Unit {0}
unfolding mem keys index replace_dashes names_of
runs = tt

root : mem "listener-address" (keys root_flags) ≡ true
unfolding runs
root = refl

address_found : index flags "listener-address" ≡ some address
unfolding runs
address_found = refl

command_line_kept_example :
    index
      (post_init_commands (viper_of environment file accepts fields) tree flags)
      "listener-address"
    ≡ some address
command_line_kept_example =
    command_line_kept environment file accepts fields tree flags "listener-address" address root
      address_found refl

xds : mem "aws-service-port-tag-key" (keys xds_flags) ≡ true
unfolding runs
xds = refl

visited : mem "aws-service-port-tag-key" (all_names tree) ≡ true
unfolding runs
visited = refl

tag_key_found : index flags "aws-service-port-tag-key" ≡ some tag_key
unfolding runs
tag_key_found = refl

variable : environment (replace_dashes "aws-service-port-tag-key") ≡ some "port"
unfolding runs
variable = refl

xds_flag_overruled_example :
    index
      (post_init_commands (viper_of environment file accepts fields) tree flags)
      "aws-service-port-tag-key"
    ≡ some record { value = text "port"; changed = true }
xds_flag_overruled_example =
    xds_flag_overruled environment file accepts fields tree flags "aws-service-port-tag-key"
      "http-port" "port" true xds visited tag_key_found variable refl refl
