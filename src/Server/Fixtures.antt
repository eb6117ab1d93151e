-- ===== src/Server/Fixtures.antt =====
-- A sample server, whose users' tokens are their names, and requests to it.
use Prim.Native.Char.{Char}
use nest_nexus.Prelude.{String, none, some, []}
use nest_nexus.Exec.{ok}
use nest_nexus.Samples.{sample, fresh_token}
use nest_nexus.Auth.JwtStrategy.{JwtState}
use nest_nexus.Auth.Webauthn.{Ceremony}
use nest_nexus.Http.{Request, Drawn}

-- Passkeys of a library that takes no response.
instance abbrev pub no_ceremony : Ceremony
no_ceremony = record {
  verify_registration = λ response expected origin rp_id. ok none;
  verify_authentication = λ response expected origin rp_id key. ok none;
}

abbrev pub drawn : Drawn Char
drawn = record {
  token = fresh_token;
  id = "new id";
  second_id = "second id";
  text = "drawn";
  iv = [];
  hex = λ i. "0123456789abcdef";
}

abbrev pub from : String → Request
from name = record {
  bearer = some name;
  user_agent = none;
  ip = none;
  refresh_cookie = some "raw";
  state_cookie = none;
  state_query = none;
}

abbrev pub server : JwtState
server = record { active_cache = []; app = sample }
