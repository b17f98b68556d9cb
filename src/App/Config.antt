-- ===== src/App/Config.antt =====
-- app/deploy_config.go: the file of --deploy-config and the settings of a deploy. What the command
-- line gives is an argument of the model, as the file is once it is parsed. A port is not negative. A
-- map is a list of keys and values; the values of the generator's options are their texts.
pub mod Resolve
pub mod Printed
pub mod RoundTrip
pub mod FlagOnly
mod Tests
use nuzur_cli.Base.{ℕ, Bool, Option, List, if◌then◌else◌, none, some, false}
use nuzur_cli.Text.{Text}

abbrev pub Codegen : Type 0
Codegen = List (Text × Text)

pub record DeployConfig : Type 0 where
  pub provider : Option Text
  pub host : Option Text
  pub region : Option Text
  pub size : Option Text
  pub image : Option Text
  pub ssh_key_name : Option Text
  pub user : Option Text
  pub ssh_key : Option Text
  pub port : Option ℕ
  pub domain : Option Text
  pub project : Option Text
  pub version : Option Text
  pub identifier : Option Text
  pub db_only : Option Bool
  pub db : Option Text
  pub db_schema : Option Text
  pub db_dsn : Option Text
  pub connection : Option Text
  pub save_connection : Option Bool
  pub no_save_connection : Option Bool
  pub storage_enabled : Option Bool
  pub storage : Option Text
  pub api : Option Text
  pub auth : Option Text
  pub custom : Option Bool
  pub source_dir : Option Text
  pub cli_install_cmd : Option Text
  pub sudo : Option Bool
  pub web_url : Option Text
  pub namespace : Option Text
  pub release : Option Text
  pub helm_cmd : Option Text
  pub kubectl_cmd : Option Text
  pub image_repo : Option Text
  pub image_tag : Option Text
  pub auth_domain : Option Text
  pub grpc_domain : Option Text
  pub chart_values : Option Text
  pub codegen : Codegen

pub record DeploySettings : Type 0 where
  pub provider : Text
  pub host : Text
  pub region : Text
  pub size : Text
  pub image : Text
  pub ssh_key_name : Text
  pub user : Text
  pub ssh_key : Text
  pub port : ℕ
  pub domain : Text
  pub project : Text
  pub version : Text
  pub identifier : Text
  pub db_only : Bool
  pub db : Text
  pub db_stated : Bool
  pub db_schema : Text
  pub db_dsn : Text
  pub connection : Text
  pub save_connection : Bool
  pub no_save_connection : Bool
  pub storage_enabled : Bool
  pub storage : Text
  pub s3_bucket : Text
  pub s3_region : Text
  pub s3_access_key : Text
  pub s3_secret : Text
  pub s3_endpoint : Text
  pub api : Text
  pub auth : Text
  pub custom : Option Bool
  pub source_dir : Text
  pub cli_install_cmd : Text
  pub sudo : Bool
  pub web_url : Text
  pub allow_destructive : Bool
  pub new_vm : Bool
  pub namespace : Text
  pub release : Text
  pub helm_cmd : Text
  pub kubectl_cmd : Text
  pub image_repo : Text
  pub image_tag : Text
  pub auth_domain : Text
  pub grpc_domain : Text
  pub chart_values : Text
  pub write_config : Text
  pub skip_schema : Bool
  pub pin_digest : Bool
  pub no_commit : Bool
  pub no_wait : Bool
  pub release_only : Bool
  pub codegen : Codegen

-- What the program asks of `cli.Context`.
pub record Flags : Type 0 where
  pub is_set : Text → Bool
  pub string : Text → Text
  pub bool : Text → Bool
  pub int : Text → ℕ
