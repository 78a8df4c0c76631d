-- ===== src/Config/Environment.antt =====
-- The readers of environment variables that internal/config/config.go and
-- internal/tunnel/config/config.go share. A variable that is not set is empty, as for os.Getenv;
-- the parsers of package strconv are fields of `Environment`.
use hyrule_network_proxy.Prelude.{
  String, Bool, Option, none, some, ite, ℤ, pos, ◌*ℤ◌, to_int64, Bytes, bytes_discrete, [],
}

pub record Environment : Type 0 where
  pub var : String → Bytes
  pub parse_int : Bytes → Option ℤ
  pub parse_bool : Bytes → Option Bool

unfoldable pub getenv : Environment → String → Bytes → Bytes
getenv env key fallback = ite (bytes_discrete (env.var key) []) fallback (env.var key)

-- getenvInt and getenvInt64
unfoldable pub getenv_int : Environment → String → ℤ → ℤ
getenv_int env key fallback = elim (env.parse_int (env.var key)) [ none ↦ fallback | some v ↦ v ]

unfoldable pub getenv_bool : Environment → String → Bool → Bool
getenv_bool env key fallback =
    ite (bytes_discrete (env.var key) []) fallback
      (elim (env.parse_bool (env.var key)) [ none ↦ fallback | some v ↦ v ])

-- time.Duration(n) * time.Second
unfoldable pub seconds : ℤ → ℤ
seconds n = to_int64 (n *ℤ pos 1_000_000_000)
