-- ===== src/Tests/Clients.antt =====
-- The theorems on internal/transport/client.go and internal/server at one request in direct mode.
use hyrule_network_proxy.Prelude.{ℕ, true, false, none, some, [], ◌∷◌, bytes, arith, pos}
use hyrule_network_proxy.Prelude.Map.{string_key, lookup}
use hyrule_network_proxy.Tunnel.Control.{Json}
use hyrule_network_proxy.Egress.Client.{
  Config, NetworkRequest, Outgoing, World, new_client, http_client, guarded, do_request, outgoing,
}
use hyrule_network_proxy.Egress.Client.Bounded.{IsAnswered, do_request-IsAnswered}
use hyrule_network_proxy.Egress.Server.{Server, request}
use hyrule_network_proxy.Egress.Server.Audited.{
  Call, IsAudited, asked, refused, denials, serve_all, serve_all-IsAudited,
}
use hyrule_network_proxy.Tests.Guards.{lib, resolver, target, headers}

abbrev limits : Config
limits = record {
  max_request_body_bytes = 4;
  max_response_body_bytes = 2;
  default_timeout = pos 15;
  max_timeout = pos 60;
  max_redirects = pos 3;
}

-- The upstream answers with three bytes.
abbrev world : World ℕ
world = record {
  lib = lib;
  upper = λ s. s;
  lower = λ s. s;
  builds = λ u. true;
  resolver = resolver;
  exchange = λ q. some (record {
    status_code = 200;
    headers = ("set-cookie", bytes "c" ∷ []) ∷ ("etag", bytes "e" ∷ []) ∷ [];
    body = some (1 ∷ 2 ∷ 3 ∷ []);
  });
}

abbrev get_request : NetworkRequest
get_request = record {
  url = 8 ∷ [];
  method = "GET";
  headers = headers;
  body = none;
  proxy_mode = "direct";
  timeout_seconds = pos 1;
}

abbrev sent : Outgoing
sent =
    outgoing world limits get_request "GET" target (http_client limits "direct" (guarded "direct"))

do_request-IsAnswered_example :
    IsAnswered world limits (do_request world (new_client limits) get_request)
unfolding new_client
do_request-IsAnswered_example =
    do_request-IsAnswered world (new_client limits) get_request (omega arith)

-- A body of one byte is the request.
abbrev json : Json NetworkRequest
json = record { decode = λ d. some (get_request, []); at_eof = λ d. true }

abbrev server : Server
server = record {
  client = new_client limits;
  token = bytes "t";
  metrics = record {
    requests_total = [];
    request_bytes_total = [];
    response_bytes_total = [];
    policy_denials_total = [];
    mode_available = [];
  };
}

abbrev call : Call ℕ
call = record {
  world = world;
  probes = record {
    tor_listens = false;
    i2p_url_parses = true;
    i2p_listens = false;
    yggdrasil_enabled = false;
    yggdrasil_addresses = [];
  };
  auth = bytes "Bearer t";
  route = request;
  body = some (0 ∷ []);
}

server-IsAudited : IsAudited server.client.cfg.max_response_body_bytes server.metrics "direct"
unfolding lookup asked refused denials
server-IsAudited = record { denied_le = omega arith; bytes_le = omega arith }

serve_all-IsAudited_example :
    IsAudited server.client.cfg.max_response_body_bytes
      (serve_all json "v" (λ s. s) (call ∷ call ∷ []) server).metrics
      "direct"
serve_all-IsAudited_example =
    serve_all-IsAudited json "v" (λ s. s) (call ∷ call ∷ []) server "direct" server-IsAudited
