-- ===== src/Http.antt =====
-- net/http, which the gateway only calls: requests that it sends, and header maps.
use ajah.Prelude.{ℕ, String, str_eq, List, [], ◌∷◌, ◌++◌, Result, if◌then◌else◌}
use ajah.Text.{Bytes}

-- The entries of a header map; of one name they are in order.
abbrev pub Header : Type 0
Header = List (String × String)

-- A request of a method, a URL, a body and a header, and its answer: a status and a body, which may
-- fail to be read.
pub record Http : Type 1 where
  pub E : Type 0
  pub Outgoing : Type 0
  pub new_request : String → Bytes → Bytes → Header → Result E Outgoing
  pub do_request : Outgoing → Result E (ℕ × Result E Bytes)

-- Header.Get, Header.Values, Header.Del and Header.Set, of a canonical name.
unfoldable pub header_get : String → Header → String
header_get name [] = ""
header_get name ((k, v) ∷ h) = let rest = header_get name h in if str_eq k name then v else rest

unfoldable pub header_values : String → Header → List String
header_values name [] = []
header_values name ((k, v) ∷ h) =
    let rest = header_values name h in if str_eq k name then v ∷ rest else rest

unfoldable pub header_del : String → Header → Header
header_del name [] = []
header_del name ((k, v) ∷ h) =
    let rest = header_del name h in if str_eq k name then rest else (k, v) ∷ rest

unfoldable pub header_set : String → String → Header → Header
header_set name value h = header_del name h ++ (name, value) ∷ []
