-- ===== src/Examples/Routers.antt =====
-- The router over two providers that are their own capabilities.
use tiny_mite.Examples.Crates.{texts}
use tiny_mite.Agents.Validator.{ModelCapabilities}
use tiny_mite.Runtime.Router.{
  Providers, ModelRouter, new_router, register_provider, satisfies, usable, first_preferred,
  first_usable, find_provider_name,
}
use tiny_mite.Runtime.Router.Choice.{Serves, NoneUsable, find_provider_name_cases}
use tiny_mite.Prelude.{◌≡◌, refl, String, some, none, ◌⊎◌, true, false, ok, insert, lookup}

abbrev mocks : Providers
mocks = record {
  Provider = ModelCapabilities;
  Request = String;
  Response = String;
  ProviderError = String;
  internal = λ s. s;
  provider_capabilities = λ p. p;
  respond = λ p request. ok request;
}

abbrev talks : ModelCapabilities
talks = record {
  text_generation = true;
  chat = true;
  tool_calling = false;
  structured_output = false;
  embeddings = false;
  reranking = false;
  vision = false;
  audio = false;
  reasoning = false;
  speculative_decoding = false;
  grammar_constrained_output = false;
}

abbrev two_providers : ModelRouter texts mocks
two_providers =
    register_provider texts mocks (λ p. true) "noon" "a" talks
      (register_provider texts mocks (λ p. true) "noon" "b" (record talks { chat = false })
        (new_router texts mocks))

-- Vision is not among the capabilities that the router compares.
vision_is_not_compared :
    find_provider_name texts mocks (record talks { vision = true }) two_providers ≡ some "a"
unfolding find_provider_name first_preferred first_usable usable satisfies register_provider
    new_router insert lookup
vision_is_not_compared = refl

find_provider_name_cases_example :
    ((name : String) × ((find_provider_name texts mocks talks two_providers ≡ some name)
        × Serves texts mocks talks two_providers.providers name))
    ⊎ ((find_provider_name texts mocks talks two_providers ≡ none)
        × NoneUsable texts mocks talks two_providers)
find_provider_name_cases_example = find_provider_name_cases texts mocks talks two_providers
