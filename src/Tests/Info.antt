-- ===== src/Tests/Info.antt =====
-- A plugin, what it sends of itself, and the caches of its client.
use airgate_sdk.Prelude.{arith, some, ◌≡◌, refl, true, false, none, inl, List, [], ◌∷◌, pos}
use airgate_sdk.Tests.Dispatch.{dsl}
use airgate_sdk.Info.Records.{PluginInfo}
use airgate_sdk.Info.Conversions.{info_to_proto, info_from_proto}
use airgate_sdk.Info.RoundTrip.{info_from_proto-to_proto}
use airgate_sdk.Info.Schemas.{PluginSchema}
use airgate_sdk.Info.Discovery.{schema, get_schema, no_payload}
use airgate_sdk.Info.Discovered.{schema-get_schema}
use airgate_sdk.Info.Caches.{Caches}
use airgate_sdk.Info.Fresh.{Plugin, CacheCall, IsFresh, cache_calls, cache_calls-IsFresh}

abbrev openai : PluginInfo
openai = record {
  id = "openai";
  name = "OpenAI";
  version = "1.2.0";
  sdk_version = "1";
  description = "";
  author = "";
  plugin_type = "gateway";
  dependencies = "usage" ∷ [];
  config_schema =
      record {
        key = "timeout";
        label = "Timeout";
        field_type = "select";
        required = true;
        default_value = "30";
        description = "";
        placeholder = "";
        options = record { value = "30"; label = "half a minute" } ∷ [];
      }
      ∷ [];
  account_types =
      record {
        key = "api_key";
        label = "API key";
        description = "";
        fields =
            record {
              key = "key";
              label = "Key";
              field_type = "password";
              required = true;
              placeholder = "sk-";
              edit_disabled = false;
            }
            ∷ [];
      }
      ∷ [];
  account_plans =
      record {
        key = "pro";
        label = "Pro";
        credential_key = "plan";
        match_mode = "exact";
        matches = "pro" ∷ [];
      }
      ∷ [];
  frontend_pages = [];
  frontend_widgets = record { slot = "form"; entry_file = "form.js"; title = "Form" } ∷ [];
  instruction_presets = [];
  capabilities = "gateway.forward" ∷ [];
  dispatch_dsl = dsl;
  metadata = [];
  priority = pos 3;
}

info_from_proto-to_proto_example : info_from_proto (info_to_proto openai) ≡ openai
info_from_proto-to_proto_example = info_from_proto-to_proto openai ((omega arith, omega arith), tt)

abbrev this_plugin : Plugin
this_plugin = record {
  its_platform = "openai";
  its_models =
      record {
        id = "gpt";
        name = "GPT";
        context_window = pos 128000;
        max_output_tokens = pos 4096;
        capabilities = [];
        metadata = [];
      }
      ∷ [];
  its_routes = record { method = "POST"; path = "/v1/chat"; description = ""; metadata = [] } ∷ [];
  its_info = info_to_proto openai;
}

abbrev empty_caches : Caches
empty_caches = record {
  cached_platform = "";
  cached_models = none;
  cached_routes = none;
  cached_info = none;
}

abbrev some_calls : List CacheCall
some_calls =
    CacheCall.asks_models false
    ∷ CacheCall.asks_models true
    ∷ CacheCall.replaced (record this_plugin { its_models = [] })
    ∷ CacheCall.asks_models true
    ∷ CacheCall.asks_platform true
    ∷ []

cache_calls-IsFresh_example : IsFresh (cache_calls some_calls (this_plugin, empty_caches))
cache_calls-IsFresh_example =
    cache_calls-IsFresh some_calls (this_plugin, empty_caches)
      record {
        platform_holds = inl refl;
        models_hold = inl refl;
        routes_hold = inl refl;
        info_holds = inl refl;
      }

abbrev one_task : PluginSchema
one_task = record {
  routes = [];
  tasks =
      record {
        task_type = "sync";
        summary = "";
        input = record {
          content_type = "application/json";
          schema_text = "";
          example = "{}";
          metadata = [];
        };
        output = no_payload;
        metadata = [];
      }
      ∷ [];
  events = [];
  invokes = [];
  metadata = ("area", "usage") ∷ [];
}

schema-get_schema_example : schema (some (get_schema (some one_task))) ≡ one_task
schema-get_schema_example = schema-get_schema (some one_task)
