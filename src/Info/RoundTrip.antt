-- ===== src/Info/RoundTrip.antt =====
-- The information of a plugin, sent and received.
use airgate_sdk.Prelude.{◌≡◌, refl, ap, List, [], ◌∷◌, map, All}
use airgate_sdk.Dispatch.RoundTrip.{HasStatus, dsl_from_proto-to_proto}
use airgate_sdk.Plans.{account_plans_from_proto-to_proto}
use airgate_sdk.Info.Records.{
  ConfigOption, ConfigField, CredentialField, AccountType, FrontendPage, FrontendWidget, PluginInfo,
}
use airgate_sdk.Info.Conversions.{
  config_option_to_proto, config_option_from_proto, config_field_to_proto, config_field_from_proto,
  credential_field_to_proto, credential_field_from_proto, account_type_to_proto,
  account_type_from_proto, frontend_page_to_proto, frontend_page_from_proto,
  frontend_widget_to_proto, frontend_widget_from_proto, info_to_proto, info_from_proto,
}

pub map-map :
    {A B : Type 0} (f : A → B) (g : B → A)
    → ((x : A) → g (f x) ≡ x)
    → (xs : List A) → map g (map f xs) ≡ xs
map-map f g h [] = refl
map-map f g h (x ∷ xs) = λ i. h x i ∷ map-map f g h xs i

config_option_lem : (x : ConfigOption) → config_option_from_proto (config_option_to_proto x) ≡ x
unfolding config_option_from_proto config_option_to_proto
config_option_lem x = refl

config_field_lem : (x : ConfigField) → config_field_from_proto (config_field_to_proto x) ≡ x
unfolding config_field_from_proto config_field_to_proto
config_field_lem x =
    ap (λ l. record x { options = l })
      (map-map config_option_to_proto config_option_from_proto config_option_lem x.options)

credential_field_lem :
    (x : CredentialField) → credential_field_from_proto (credential_field_to_proto x) ≡ x
unfolding credential_field_from_proto credential_field_to_proto
credential_field_lem x = refl

account_type_lem : (x : AccountType) → account_type_from_proto (account_type_to_proto x) ≡ x
unfolding account_type_from_proto account_type_to_proto
account_type_lem x =
    ap (λ l. record x { fields = l })
      (map-map credential_field_to_proto credential_field_from_proto credential_field_lem x.fields)

frontend_page_lem : (x : FrontendPage) → frontend_page_from_proto (frontend_page_to_proto x) ≡ x
unfolding frontend_page_from_proto frontend_page_to_proto
frontend_page_lem x = refl

frontend_widget_lem :
    (x : FrontendWidget) → frontend_widget_from_proto (frontend_widget_to_proto x) ≡ x
unfolding frontend_widget_from_proto frontend_widget_to_proto
frontend_widget_lem x = refl

-- What a plugin says of itself comes to Core as it is, each list in its order, if the statuses of the
-- gates of its rules fit 32 bits.
pub info_from_proto-to_proto :
    (info : PluginInfo)
    → All HasStatus info.dispatch_dsl.rules
    → info_from_proto (info_to_proto info) ≡ info
unfolding info_from_proto info_to_proto
info_from_proto-to_proto info statuses = λ i. record info {
  config_schema =
      map-map config_field_to_proto config_field_from_proto config_field_lem info.config_schema i;
  account_types =
      map-map account_type_to_proto account_type_from_proto account_type_lem info.account_types i;
  account_plans = account_plans_from_proto-to_proto info.account_plans i;
  frontend_pages =
      map-map frontend_page_to_proto frontend_page_from_proto frontend_page_lem info.frontend_pages
        i;
  frontend_widgets =
      map-map frontend_widget_to_proto frontend_widget_from_proto frontend_widget_lem
        info.frontend_widgets i;
  dispatch_dsl = dsl_from_proto-to_proto info.dispatch_dsl statuses i;
}
