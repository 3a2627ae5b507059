-- ===== src/Proxy/Fixtures.antt =====
-- A server, providers and requests on which the proxy handler is run.

use ajah.Prelude.{ℕ, true, false, String, str_eq, [], ◌∷◌, Option, none, some, ok, if◌then◌else◌}
use ajah.Text.{Bytes, ascii, has_prefix}
use ajah.Float.Scaled.{scaled}
use ajah.Http.{Http}
use ajah.Redis.Store.{Store, absent}
use ajah.Security.{Compile, scan}
use ajah.Fallback.{Manager}
use ajah.Proxy.Payload.{Codec}
use ajah.Proxy.Admission.{Incoming, Config, Setting}

abbrev pub compile : Compile
compile source text = none

-- A request is its URL; the URLs of groq are down.
abbrev pub http : Http
http = record {
  E = Unit {0};
  Outgoing = Bytes;
  new_request = λ method url body header. ok url;
  do_request = λ url.
      if has_prefix url (ascii "https://down") then ok (503, ok []) else ok (200, ok (ascii "hi"));
}

abbrev pub json : Codec
json = record {
  Int = ℕ;
  zero_int = 0;
  usage = λ body. none;
  model = λ body. none;
  messages = λ body. none;
  choices = λ body. none;
  contents = λ body. none;
}

abbrev pub digest : Bytes → String
digest text = "digest"

abbrev pub config : Config
config = record { max_request_body_bytes = 100; cache_enabled = true; cache_ttl_seconds = 60 }

abbrev pub setting : Setting scaled compile
setting = record {
  config = config;
  detector = some (scan scaled compile (record { patterns = []; block_thresh = 700 }));
  has_redis = true;
}

abbrev pub path_of : Bytes → Option Bytes
path_of url = some (ascii "/v1")

abbrev pub provider_urls : String → Bytes
provider_urls name = if str_eq name "groq" then ascii "https://down/v1" else ascii "https://api/v1"

abbrev pub manager : Manager
manager = record {
  fallback = some (record { model = ascii "mini"; url = ascii "https://b/v1"; api_key = "k" });
  connected = true;
}

abbrev pub backup_of : Option Manager
backup_of = some manager

abbrev pub question : Bytes
question = ascii "{}"

abbrev pub asked_by : String → Incoming
asked_by auth = record {
  method = "POST";
  headers = ("Authorization", auth) ∷ [];
  uri = ascii "/v1/chat";
  body = some question;
  cancelled = false;
}

abbrev pub empty : Store
empty k = absent
