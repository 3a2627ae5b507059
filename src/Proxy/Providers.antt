-- ===== src/Proxy/Providers.antt =====
-- detectProvider, buildTargetURL and the header that goes upstream.
use Prim.Native.String.{◌++◌ as str_append, slice, len}
use text.Mathlib.Text.{starts_with}
use ajah.Prelude.{
  String, List, [], ◌∷◌, ◌++◌, Option, none, some, Result, ok, err, if◌then◌else◌, drop,
}
use ajah.Text.{Bytes, ascii, has_prefix}
use ajah.Http.{Header, header_get, header_del, header_set}

-- strings.TrimPrefix(auth, "Bearer ")
unfoldable pub api_key_of : String → String
api_key_of auth = if starts_with auth "Bearer " then slice auth 7 (len auth) else auth

pub data ProviderError : Type 0 where
  azure_not_configured unrecognized : ProviderError

-- The prefixes in the order of the switch, with their providers.
abbrev pub prefixes : List (String × String)
prefixes =
    ("sk-ant-", "anthropic")
    ∷ ("sk-", "openai")
    ∷ ("gsk_", "groq")
    ∷ ("AIza", "gemini")
    ∷ ("xai-", "grok")
    ∷ ("mistral-", "mistral")
    ∷ ("together-", "together")
    ∷ ("nvapi-", "nvidia")
    ∷ ("cohere-", "cohere")
    ∷ []

-- The first case that holds, as a switch takes it.
unfoldable pub first_match : List (String × String) → String → Option String
first_match [] key = none
first_match ((prefix, provider) ∷ cases) key =
    let rest = first_match cases key in if starts_with key prefix then some provider else rest

unfoldable pub detect_key : String → Result ProviderError String
unfolding first_match
detect_key key = elim (first_match prefixes key) [
  | some provider ↦ ok provider
  | none ↦ if starts_with key "azure-" then err azure_not_configured else err unrecognized
]

unfoldable pub detect_provider : String → Result ProviderError String
detect_provider auth = detect_key (api_key_of auth)

-- `path_of` is the path that url.Parse finds, if it finds one.
unfoldable pub build_target_url : (Bytes → Option Bytes) → Bytes → Bytes → Bytes
unfolding has_prefix
build_target_url path_of provider_url request_uri = elim (path_of provider_url) [
  | none ↦ provider_url ++ request_uri
  | some [] ↦ provider_url ++ request_uri
  | some (c ∷ []) ↦
      if has_prefix (c ∷ []) (ascii "/")
      then provider_url ++ request_uri
      else provider_url
        ++ (if has_prefix request_uri (ascii "/v1") then drop 3 request_uri else request_uri)
  | some (_ ∷ _ ∷ _) ↦
      provider_url
      ++ (if has_prefix request_uri (ascii "/v1") then drop 3 request_uri else request_uri)
]

-- copyHeaders into an empty header, then the deletion and the replacement.
unfoldable pub upstream_headers : Header → Header
upstream_headers h =
    header_set "Authorization" (str_append "Bearer " (api_key_of (header_get "Authorization" h)))
      (header_del "X-Source-Context" h)
