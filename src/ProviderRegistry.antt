-- ===== src/ProviderRegistry.antt =====
-- providers/registry.c: the table of providers, and how one is chosen by the key or the address.
use dobby_ai.Base.{
  Bool, true, false, Option, none, some, List, [], ◌∷◌, Bytes, codes, is_empty, if◌then◌else◌,
}
use dobby_ai.Text.{str_case_eq, is_prefix, split_sub}

-- `provider_spec_t`; the rows without the sentinel
pub record ProviderSpec : Type 0 where
  pub name : Bytes
  pub default_url : Option Bytes
  pub detect_key_prefix : Option Bytes
  pub detect_url_keyword : Option Bytes
  pub extra_headers : List Bytes

abbrev pub providers : List ProviderSpec
providers =
    record {
      name = codes "openrouter";
      default_url = some (codes "https://openrouter.ai/api/v1");
      detect_key_prefix = some (codes "sk-or-");
      detect_url_keyword = some (codes "openrouter");
      extra_headers =
          codes "HTTP-Referer: https://github.com/dobby-ai/dobby" ∷ codes "X-Title: Dobby AI" ∷ [];
    }
    ∷ record {
      name = codes "groq";
      default_url = some (codes "https://api.groq.com/openai/v1");
      detect_key_prefix = some (codes "gsk_");
      detect_url_keyword = some (codes "groq");
      extra_headers = [];
    }
    ∷ record {
      name = codes "together";
      default_url = some (codes "https://api.together.xyz/v1");
      detect_key_prefix = none;
      detect_url_keyword = some (codes "together");
      extra_headers = [];
    }
    ∷ record {
      name = codes "openai";
      default_url = some (codes "https://api.openai.com/v1");
      detect_key_prefix = some (codes "sk-");
      detect_url_keyword = some (codes "openai");
      extra_headers = [];
    }
    ∷ []

unfoldable pub find_spec : List ProviderSpec → Bytes → Option ProviderSpec
find_spec [] name = none
find_spec (s ∷ specs) name =
    let rest = find_spec specs name in if str_case_eq s.name name then some s else rest

unfoldable pub registry_find_by_name : Option Bytes → Option ProviderSpec
registry_find_by_name none = none
registry_find_by_name (some name) = if is_empty name then none else find_spec providers name

-- a prefix of the key, where both are there and the key is not empty
unfoldable pub key_test : Option Bytes → Option Bytes → Bool
key_test (some prefix) (some key) = if is_empty key then false else is_prefix prefix key
key_test prefix key = false

-- a part of the address, under the same conditions
unfoldable pub url_test : Option Bytes → Option Bytes → Bool
url_test (some keyword) (some url) =
    if is_empty url then false else elim (split_sub keyword url) [ none ↦ false | some hit ↦ true ]
url_test keyword url = false

-- In the order of the table, the key before the address for each row.
unfoldable pub detect_in : List ProviderSpec → Option Bytes → Option Bytes → Option ProviderSpec
detect_in [] api_key api_url = none
detect_in (s ∷ specs) api_key api_url =
    let rest = detect_in specs api_key api_url in
    if key_test s.detect_key_prefix api_key
    then some s
    else if url_test s.detect_url_keyword api_url
    then some s
    else rest

unfoldable pub registry_detect : Option Bytes → Option Bytes → Option ProviderSpec
registry_detect api_key api_url = detect_in providers api_key api_url

abbrev pub spec_url : Option ProviderSpec → Option Bytes
spec_url none = none
spec_url (some s) = s.default_url

unfoldable pub registry_resolve_url : Option ProviderSpec → Option Bytes → Option Bytes
registry_resolve_url spec none = spec_url spec
registry_resolve_url spec (some api_url) = if is_empty api_url then spec_url spec else some api_url
