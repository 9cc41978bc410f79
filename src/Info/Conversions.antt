-- ===== src/Info/Conversions.antt =====
-- GetInfo of runtimego/grpc/plugin_server.go, and what InfoContext of common.go makes of its answer.
use airgate_sdk.Prelude.{map}
use airgate_sdk.Dispatch.Conversions.{dsl_to_proto, dsl_from_proto}
use airgate_sdk.Plans.{account_plans_to_proto, account_plans_from_proto}
use airgate_sdk.Info.Records.{
  ConfigOption, ProtoConfigOption, ConfigField, ProtoConfigField, CredentialField,
  ProtoCredentialField, AccountType, ProtoAccountType, FrontendPage, ProtoFrontendPage,
  FrontendWidget, ProtoFrontendWidget, PluginInfo, ProtoPluginInfo,
}

unfoldable pub config_option_to_proto : ConfigOption → ProtoConfigOption
config_option_to_proto x = record { value = x.value; label = x.label }

unfoldable pub config_option_from_proto : ProtoConfigOption → ConfigOption
config_option_from_proto x = record { value = x.value; label = x.label }

unfoldable pub config_field_to_proto : ConfigField → ProtoConfigField
unfolding config_option_to_proto
config_field_to_proto x = record {
  key = x.key;
  label = x.label;
  field_type = x.field_type;
  required = x.required;
  default_value = x.default_value;
  description = x.description;
  placeholder = x.placeholder;
  options = map config_option_to_proto x.options;
}

unfoldable pub config_field_from_proto : ProtoConfigField → ConfigField
unfolding config_option_from_proto
config_field_from_proto x = record {
  key = x.key;
  label = x.label;
  field_type = x.field_type;
  required = x.required;
  default_value = x.default_value;
  description = x.description;
  placeholder = x.placeholder;
  options = map config_option_from_proto x.options;
}

unfoldable pub credential_field_to_proto : CredentialField → ProtoCredentialField
credential_field_to_proto x = record {
  key = x.key;
  label = x.label;
  field_type = x.field_type;
  required = x.required;
  placeholder = x.placeholder;
  edit_disabled = x.edit_disabled;
}

unfoldable pub credential_field_from_proto : ProtoCredentialField → CredentialField
credential_field_from_proto x = record {
  key = x.key;
  label = x.label;
  field_type = x.field_type;
  required = x.required;
  placeholder = x.placeholder;
  edit_disabled = x.edit_disabled;
}

unfoldable pub account_type_to_proto : AccountType → ProtoAccountType
unfolding credential_field_to_proto
account_type_to_proto x = record {
  key = x.key;
  label = x.label;
  description = x.description;
  fields = map credential_field_to_proto x.fields;
}

unfoldable pub account_type_from_proto : ProtoAccountType → AccountType
unfolding credential_field_from_proto
account_type_from_proto x = record {
  key = x.key;
  label = x.label;
  description = x.description;
  fields = map credential_field_from_proto x.fields;
}

unfoldable pub frontend_page_to_proto : FrontendPage → ProtoFrontendPage
frontend_page_to_proto x = record {
  path = x.path;
  title = x.title;
  icon = x.icon;
  description = x.description;
  audience = x.audience;
}

unfoldable pub frontend_page_from_proto : ProtoFrontendPage → FrontendPage
frontend_page_from_proto x = record {
  path = x.path;
  title = x.title;
  icon = x.icon;
  description = x.description;
  audience = x.audience;
}

unfoldable pub frontend_widget_to_proto : FrontendWidget → ProtoFrontendWidget
frontend_widget_to_proto x = record { slot = x.slot; entry_file = x.entry_file; title = x.title }

unfoldable pub frontend_widget_from_proto : ProtoFrontendWidget → FrontendWidget
frontend_widget_from_proto x = record { slot = x.slot; entry_file = x.entry_file; title = x.title }

unfoldable pub info_to_proto : PluginInfo → ProtoPluginInfo
info_to_proto info = record {
  id = info.id;
  name = info.name;
  version = info.version;
  sdk_version = info.sdk_version;
  description = info.description;
  author = info.author;
  plugin_type = info.plugin_type;
  dependencies = info.dependencies;
  config_schema = map config_field_to_proto info.config_schema;
  account_types = map account_type_to_proto info.account_types;
  account_plans = account_plans_to_proto info.account_plans;
  frontend_pages = map frontend_page_to_proto info.frontend_pages;
  frontend_widgets = map frontend_widget_to_proto info.frontend_widgets;
  instruction_presets = info.instruction_presets;
  capabilities = info.capabilities;
  dispatch_dsl = dsl_to_proto info.dispatch_dsl;
  metadata = info.metadata;
  priority = info.priority;
}

unfoldable pub info_from_proto : ProtoPluginInfo → PluginInfo
info_from_proto info = record {
  id = info.id;
  name = info.name;
  version = info.version;
  sdk_version = info.sdk_version;
  description = info.description;
  author = info.author;
  plugin_type = info.plugin_type;
  dependencies = info.dependencies;
  config_schema = map config_field_from_proto info.config_schema;
  account_types = map account_type_from_proto info.account_types;
  account_plans = account_plans_from_proto info.account_plans;
  frontend_pages = map frontend_page_from_proto info.frontend_pages;
  frontend_widgets = map frontend_widget_from_proto info.frontend_widgets;
  instruction_presets = info.instruction_presets;
  capabilities = info.capabilities;
  dispatch_dsl = dsl_from_proto info.dispatch_dsl;
  metadata = info.metadata;
  priority = info.priority;
}
