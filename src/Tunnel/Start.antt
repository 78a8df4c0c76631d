-- ===== src/Tunnel/Start.antt =====
-- The start of the tunnel daemon: main of cmd/hyrule-tunnel-proxy/main.go up to its servers, with New
-- of internal/tunnel/sshd/server.go.
use hyrule_network_proxy.Prelude.{
  ℕ, ◌≤◌, ◌≡◌, ◌⊎◌, inl, inr, refl, sym, ap, ◌∙◌, subst, Bool, true, none, arith, ℤ, pos_part, pos,
  negsuc, if◌then◌else◌, ◌≤ℤ◌,
}
use hyrule_network_proxy.Config.Environment.{Environment}
use hyrule_network_proxy.Config.Tunnel.{
  Config, Network, read_config, Loaded, loaded, rejected, load,
}
use hyrule_network_proxy.Config.Tunnel.Checks.{load_valid_iff}
use hyrule_network_proxy.Lease.Error.{Result, ok, err}
use hyrule_network_proxy.Lease.Platform.{Platform, Db}
use hyrule_network_proxy.Lease.Store.{Store}
use hyrule_network_proxy.Lease.Store.Reach.{IsSound, empty_store, empty_store-IsSound}
use hyrule_network_proxy.Lease.Store.Open.{open_store}
use hyrule_network_proxy.Lease.Store.Open.Recovery.{RoundTrips}
use hyrule_network_proxy.Lease.Store.Open.Restart.{open_store_new, open_store_restarts}
use hyrule_network_proxy.Sshd.Forward.{Forward}
use hyrule_network_proxy.Sshd.HostKey.{
  KeyCodec, KeyEnv, Files, HostKey, signer, failed, load_or_create_host_key,
}
use hyrule_network_proxy.Tunnel.Daemon.{Daemon, start_daemon}
use hyrule_network_proxy.Tunnel.Daemon.Guarded.{IsGuarded, start_daemon-IsGuarded}

-- The exits of main, by what it logs.
pub data Exit : Type 0 where
  config_load_failed : Exit
  state_dir_create_failed : Exit
  lease_store_open_failed : Exit
  ssh_server_init_failed : Exit

-- Main has ended, or its servers run with the signer of the host key.
pub data Started (S : Type 0) : Type 0 where
  exited : Exit → Started S
  running : Daemon → S → Started S

-- What main meets: whether the directory is made, whether the file opens and its transaction
-- commits, the time, the database, the environment of the host key and the files.
pub record Boot (K : Type 0) : Type 0 where
  pub makes_dir : Bool
  pub opens : Bool
  pub commits : Bool
  pub now : ℤ
  pub db : Db
  pub key : KeyEnv K
  pub files : Files
  pub zero_forward : Forward

unfoldable pub start_server : {S : Type 0} → Config → Forward → Store → HostKey S → Started S
start_server cfg zero s (failed e) = exited ssh_server_init_failed
start_server cfg zero s (signer k) =
    running (start_daemon s (pos_part cfg.max_visitor_conns_per_lease) zero) k

unfoldable pub start_on_store :
    {K S : Type 0} → KeyCodec K S → Config → Boot K → Result Store → Started S
unfolding start_server
start_on_store c cfg b (err e) = exited lease_store_open_failed
start_on_store c cfg b (ok s) =
    start_server cfg b.zero_forward s (load_or_create_host_key c b.key cfg.host_key_path b.files).0

unfoldable pub start_configured :
    {K S : Type 0} → Platform → KeyCodec K S → Boot K → Loaded → Started S
unfolding start_on_store
start_configured pf c b (rejected e) = exited config_load_failed
start_configured pf c b (loaded cfg) =
    if b.makes_dir
    then start_on_store c cfg b (
        open_store pf b.now b.opens b.commits (pos_part cfg.data_port_min)
          (pos_part cfg.data_port_max) b.db)
    else exited state_dir_create_failed

unfoldable pub start_up :
    {Addr K S : Type 0} → Platform → Network Addr → Environment → KeyCodec K S → Boot K → Started S
unfolding start_configured
start_up pf net env c b = start_configured pf c b (load net env)

-- A file that Open has just made, or that a sound store has left.
abbrev pub IsFile : Platform → Db → Type 0
IsFile pf db = (db.bucket ≡ none) ⊎ ((s : Store) × IsSound pf s × (s.db ≡ db))

opened_file :
    (pf : Platform) (now : ℤ) (min max : ℕ) (db : Db)
    → min ≤ max
    → RoundTrips pf
    → IsFile pf db
    → (s : Store) × (open_store pf now true true min max db ≡ ok s) × IsSound pf s
opened_file pf now min max db range trips (inl new) = (
  empty_store min max,
  ap (λ o. open_store pf now true true min max (record { bucket = o })) new
      ∙ open_store_new pf now min max,
  empty_store-IsSound pf min max range,
)
opened_file pf now min max db range trips (inr (t, v, left)) =
    let (u, made, w, gets) = open_store_restarts pf t now min max range trips v in
    (u, ap (open_store pf now true true min max) (sym left) ∙ made, w)

ordered : (a b : ℤ) → pos 1 ≤ℤ a → a ≤ℤ b → pos_part a ≤ pos_part b
unfolding ◌≤ℤ◌
ordered (pos m) (pos n) h k = omega (arith, h, k)
ordered (pos m) (negsuc n) h k = omega (arith, h, k)
ordered (negsuc m) b h k = absurd (omega (arith, h))

-- The range of a configuration that Load has returned.
loaded_range :
    {Addr : Type 0} (net : Network Addr) (env : Environment) (cfg : Config)
    → load net env ≡ loaded cfg
    → pos_part cfg.data_port_min ≤ pos_part cfg.data_port_max
unfolding read_config
loaded_range net env cfg h =
    let (lo, hi, (scanned, low, order, high), same, valid) = (load_valid_iff net env cfg).0 h in
    subst (λ (c : Config). pos_part c.data_port_min ≤ pos_part c.data_port_max) (sym same)
      (ordered lo hi low order)

-- With a codec that reads back what it wrote, on a new file or on one that a sound store has left,
-- with any configuration that Load returns, whatever the range of its ports: if the directory is
-- made, the file opens, its transaction commits and the host key is found or made, main gets its
-- servers running with that key, and the daemon has the invariant that keeps its listeners to
-- their leases.
pub start_up-IsGuarded :
    {Addr K S : Type 0} (pf : Platform) (net : Network Addr) (env : Environment) (c : KeyCodec K S)
    (b : Boot K) (cfg : Config) (k : S)
    → RoundTrips pf
    → IsFile pf b.db
    → load net env ≡ loaded cfg
    → b.makes_dir ≡ true
    → b.opens ≡ true
    → b.commits ≡ true
    → (load_or_create_host_key c b.key cfg.host_key_path b.files).0 ≡ signer k
    → (d : Daemon) × (start_up pf net env c b ≡ running d k) × IsGuarded pf d
unfolding start_up start_configured start_on_store start_server
start_up-IsGuarded pf net env c b cfg k trips file configured dir opens commits key =
    let min = pos_part cfg.data_port_min in
    let max = pos_part cfg.data_port_max in
    let visitors = pos_part cfg.max_visitor_conns_per_lease in
    let (s, made, v) =
      opened_file pf b.now min max b.db (loaded_range net env cfg configured) trips file in
    (
      start_daemon s visitors b.zero_forward,
      rw (configured, dir, opens, commits, made, key) refl,
      start_daemon-IsGuarded pf s visitors b.zero_forward v,
    )
