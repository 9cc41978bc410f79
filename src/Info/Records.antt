-- ===== src/Info/Records.antt =====
-- PluginInfo of sdkgo/plugin.go and what it declares, and the messages of protocol/proto/plugin.pb.go.
-- A string type is a String. No entry of a repeated field that is read here may be nil.
use airgate_sdk.Prelude.{String, Bool, ℤ, List, Option}
use airgate_sdk.Outcome.{StringMap}
use airgate_sdk.Dispatch.Records.{DispatchDsl, ProtoDsl}
use airgate_sdk.Plans.{AccountPlan, ProtoPlan}

pub record ConfigOption : Type 0 where
  pub value : String
  pub label : String

pub record ProtoConfigOption : Type 0 where
  pub value : String
  pub label : String

pub record ConfigField : Type 0 where
  pub key : String
  pub label : String
  pub field_type : String
  pub required : Bool
  pub default_value : String
  pub description : String
  pub placeholder : String
  pub options : List ConfigOption

pub record ProtoConfigField : Type 0 where
  pub key : String
  pub label : String
  pub field_type : String
  pub required : Bool
  pub default_value : String
  pub description : String
  pub placeholder : String
  pub options : List ProtoConfigOption

pub record CredentialField : Type 0 where
  pub key : String
  pub label : String
  pub field_type : String
  pub required : Bool
  pub placeholder : String
  pub edit_disabled : Bool

pub record ProtoCredentialField : Type 0 where
  pub key : String
  pub label : String
  pub field_type : String
  pub required : Bool
  pub placeholder : String
  pub edit_disabled : Bool

pub record AccountType : Type 0 where
  pub key : String
  pub label : String
  pub description : String
  pub fields : List CredentialField

pub record ProtoAccountType : Type 0 where
  pub key : String
  pub label : String
  pub description : String
  pub fields : List ProtoCredentialField

pub record FrontendPage : Type 0 where
  pub path : String
  pub title : String
  pub icon : String
  pub description : String
  pub audience : String

pub record ProtoFrontendPage : Type 0 where
  pub path : String
  pub title : String
  pub icon : String
  pub description : String
  pub audience : String

pub record FrontendWidget : Type 0 where
  pub slot : String
  pub entry_file : String
  pub title : String

pub record ProtoFrontendWidget : Type 0 where
  pub slot : String
  pub entry_file : String
  pub title : String

pub record PluginInfo : Type 0 where
  pub id : String
  pub name : String
  pub version : String
  pub sdk_version : String
  pub description : String
  pub author : String
  pub plugin_type : String
  pub dependencies : List String
  pub config_schema : List ConfigField
  pub account_types : List AccountType
  pub account_plans : List AccountPlan
  pub frontend_pages : List FrontendPage
  pub frontend_widgets : List FrontendWidget
  pub instruction_presets : List String
  pub capabilities : List String
  pub dispatch_dsl : DispatchDsl
  pub metadata : StringMap
  pub priority : ℤ

pub record ProtoPluginInfo : Type 0 where
  pub id : String
  pub name : String
  pub version : String
  pub sdk_version : String
  pub description : String
  pub author : String
  pub plugin_type : String
  pub dependencies : List String
  pub config_schema : List ProtoConfigField
  pub account_types : List ProtoAccountType
  pub account_plans : List (Option ProtoPlan)
  pub frontend_pages : List ProtoFrontendPage
  pub frontend_widgets : List ProtoFrontendWidget
  pub instruction_presets : List String
  pub capabilities : List String
  pub dispatch_dsl : Option ProtoDsl
  pub metadata : StringMap
  pub priority : ℤ
