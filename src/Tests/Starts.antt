-- ===== src/Tests/Starts.antt =====
-- The theorems on the host key, the start of the daemon and the STUN responder: keys of a few bytes,
-- a daemon with the same value for every variable, and a responder that gets a request, other
-- datagrams and an error.
use hyrule_network_proxy.Prelude.{
  bytes_discrete, ℕ_discrete, to_int64, ◌*ℤ◌, inr, pos, bytes, ℕ, ◌≡◌, refl, true, false, none,
  some, List, [], ◌∷◌, All, length,
}
use hyrule_network_proxy.Config.Environment.{Environment, getenv}
use hyrule_network_proxy.Config.Tunnel.{
  Config, read_config, load, loaded, parse_port_range, first_error,
}
use hyrule_network_proxy.Sshd.HostKey.{
  KeyCodec, KeyEnv, Files, complete, broken, signer, write_file, persist_der, persist_key,
  load_or_create, load_or_create_host_key, load_or_create_host_key_stable,
}
use hyrule_network_proxy.Tunnel.Daemon.{Daemon}
use hyrule_network_proxy.Tunnel.Daemon.Guarded.{IsGuarded}
use hyrule_network_proxy.Tunnel.Start.{Boot, start_up, running, start_up-IsGuarded}
use hyrule_network_proxy.Tests.{pf, pf-RoundTrips, one, one-IsSound}
use hyrule_network_proxy.Tests.Servers.{visited}
use hyrule_network_proxy.Tests.Settings.{network}
use hyrule_network_proxy.Stun.{
  UdpAddr, StunCodec, Received, failed, other_addr, datagram, listen_and_serve,
}
use hyrule_network_proxy.Stun.Answers.{IsAnswered, listen_and_serve-IsAnswered}

abbrev codec : KeyCodec ℕ ℕ
codec = record {
  marshal_private_key = λ k. some (k ∷ []);
  encode_to_memory = λ d. 45 ∷ d;
  parse_private_key = λ d. elim d [ [] ↦ none | x ∷ r ↦ elim r [ [] ↦ none | k ∷ q ↦ some k ] ];
}

abbrev first_run : KeyEnv ℕ
first_run = record { reads = true; generated = some 7; written = complete }

abbrev second_run : KeyEnv ℕ
second_run = record { reads = true; generated = some 8; written = broken none }

abbrev no_files : Files
no_files path = none

load_or_create_host_key_stable_example :
    let after = (load_or_create_host_key codec first_run (bytes "key") no_files).1 in
    load_or_create_host_key codec second_run (bytes "key") after ≡ (signer 7, after)
unfolding load_or_create_host_key load_or_create persist_key persist_der write_file
load_or_create_host_key_stable_example =
    load_or_create_host_key_stable codec (bytes "key") first_run second_run no_files 7 refl refl

abbrev stun_codec : StunCodec
stun_codec = record {
  binding_request = 1;
  decode = λ raw. elim raw [
    | [] ↦ none
    | t ∷ id ↦ some (record { message_type = t; transaction_id = id })
  ];
  build = λ id src. some (src.port ∷ id);
}

abbrev client : UdpAddr
client = record { ip = 10 ∷ 0 ∷ 0 ∷ 1 ∷ []; port = 4000 }

abbrev received : List Received
received =
    datagram true client (1 ∷ 9 ∷ [])
    ∷ other_addr (1 ∷ [])
    ∷ failed false
    ∷ datagram false client (1 ∷ 8 ∷ [])
    ∷ datagram true client (2 ∷ [])
    ∷ failed true
    ∷ []

listen_and_serve-IsAnswered_example :
    let r = (listen_and_serve stun_codec received (record { stun_requests = 0; sent = [] })).1 in
    All (IsAnswered stun_codec received) r.sent × (r.stun_requests ≡ length r.sent)
listen_and_serve-IsAnswered_example = listen_and_serve-IsAnswered stun_codec received

-- Every variable has the same value, which is no number.
abbrev uniform : Environment
uniform = record {
  var = λ k. bytes "0123456789abcdef0123456789abcdef";
  parse_int = λ s. none;
  parse_bool = λ s. none;
}

abbrev config : Config
config = read_config network uniform (pos 10000, pos 10499)

config_loaded : load network uniform ≡ loaded config
unfolding load parse_port_range read_config first_error getenv bytes_discrete ℕ_discrete to_int64
    ◌*ℤ◌
config_loaded = refl

abbrev boot : Boot ℕ
boot = record {
  makes_dir = true;
  opens = true;
  commits = true;
  now = pos 1400;
  db = one.db;
  key = first_run;
  files = no_files;
  zero_forward = visited;
}

start_up-IsGuarded_example :
    (d : Daemon) × (start_up pf network uniform codec boot ≡ running d 7) × IsGuarded pf d
unfolding load_or_create_host_key load_or_create persist_key persist_der write_file
start_up-IsGuarded_example =
    start_up-IsGuarded pf network uniform codec boot config 7 pf-RoundTrips
      (inr (one, one-IsSound, refl)) config_loaded refl refl refl refl
