-- ===== src/State/Terraform.antt =====
-- pkg/state/terraform.go: the part of a Terraform state that the program reads.
use cruiser.Base.{String, List}

pub record ResourceInstance : Type 0 where
  pub proto_json : String

pub record Resource : Type 0 where
  pub type : String
  pub name : String
  pub mode : String
  pub provider : String
  pub instances : List ResourceInstance

pub record Tfstate : Type 0 where
  pub resources : List Resource
