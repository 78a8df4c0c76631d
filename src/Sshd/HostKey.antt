-- ===== src/Sshd/HostKey.antt =====
-- loadOrCreateHostKey of internal/tunnel/sshd/server.go. Keys, their PKCS #8 and PEM forms and their
-- signers are those of crypto/ed25519, crypto/x509, encoding/pem and golang.org/x/crypto/ssh.
use hyrule_network_proxy.Prelude.{
  ◌≡◌, refl, Bytes, Bool, true, false, Option, none, some, List, ite, arith, ℕ, Option-cases, inl,
  inr, if◌then◌else◌, bytes_discrete,
}

-- The packages that read and write keys.
pub record KeyCodec (K S : Type 0) : Type 0 where
  pub marshal_private_key : K → Option (List ℕ)
  pub encode_to_memory : List ℕ → List ℕ
  pub parse_private_key : List ℕ → Option S

-- What os.WriteFile does: it has written all, or it fails and leaves something.
pub data Written : Type 0 where
  complete : Written
  broken : Option (List ℕ) → Written

-- What a run meets: whether os.ReadFile reads a file that is there, the key that is generated, and
-- the outcome of the write.
pub record KeyEnv (K : Type 0) : Type 0 where
  pub reads : Bool
  pub generated : Option K
  pub written : Written

abbrev pub Files : Type 0
Files = Bytes → Option (List ℕ)

pub data KeyError : Type 0 where
  parse_failed : KeyError
  generate_failed : KeyError
  marshal_failed : KeyError
  persist_failed : KeyError

pub data HostKey (S : Type 0) : Type 0 where
  signer : S → HostKey S
  failed : KeyError → HostKey S

abbrev pub read_file : Bool → Bytes → Files → Option (List ℕ)
read_file reads path files = if reads then files path else none

unfoldable pub write_file : Written → Bytes → List ℕ → Files → Bool × Files
write_file complete path bytes files =
    (true, λ p. ite (bytes_discrete path p) (some bytes) (files p))
write_file (broken left) path bytes files = (false, λ p. ite (bytes_discrete path p) left (files p))

abbrev pub parsed : {S : Type 0} → KeyError → Option S → HostKey S
parsed e none = failed e
parsed e (some s) = signer s

abbrev persisted : {K S : Type 0} → KeyCodec K S → List ℕ → Bool × Files → HostKey S × Files
persisted c bytes (false, files) = (failed persist_failed, files)
persisted c bytes (true, files) = (parsed parse_failed (c.parse_private_key bytes), files)

unfoldable pub persist_der :
    {K S : Type 0} → KeyCodec K S → Written → Bytes → Files → Option (List ℕ) → HostKey S × Files
unfolding write_file
persist_der c w path files none = (failed marshal_failed, files)
persist_der c w path files (some der) =
    persisted c (c.encode_to_memory der) (write_file w path (c.encode_to_memory der) files)

unfoldable pub persist_key :
    {K S : Type 0} → KeyCodec K S → Written → Bytes → Files → Option K → HostKey S × Files
unfolding persist_der
persist_key c w path files none = (failed generate_failed, files)
persist_key c w path files (some priv) = persist_der c w path files (c.marshal_private_key priv)

unfoldable pub load_or_create :
    {K S : Type 0} → KeyCodec K S → KeyEnv K → Bytes → Files → Option (List ℕ) → HostKey S × Files
unfolding persist_key
load_or_create c env path files (some d) = (parsed parse_failed (c.parse_private_key d), files)
load_or_create c env path files none = persist_key c env.written path files env.generated

unfoldable pub load_or_create_host_key :
    {K S : Type 0} → KeyCodec K S → KeyEnv K → Bytes → Files → HostKey S × Files
unfolding load_or_create
load_or_create_host_key c env path files =
    load_or_create c env path files (read_file env.reads path files)

module _ {K S : Type 0} (c : KeyCodec K S) (path : Bytes) where
  -- The file has the signer of the result, if there is one.
  abbrev Stored : HostKey S × Files → Type 0
  Stored (signer s, files) = (d : List ℕ) × (files path ≡ some d) × (c.parse_private_key d ≡ some s)
  Stored (failed e, files) = Unit

  parsed-Stored :
      (files : Files) (d : List ℕ)
      → files path ≡ some d
      → Stored (parsed parse_failed (c.parse_private_key d), files)
  parsed-Stored files d at = elim (Option-cases (c.parse_private_key d)) [
    | inl e ↦ rw e tt
    | inr (s, e) ↦ rw e (d, at, e)
  ]

  persisted-Stored :
      (w : Written) (bytes : List ℕ) (files : Files)
      → Stored (persisted c bytes (write_file w path bytes files))
  unfolding write_file
  persisted-Stored complete bytes files = parsed-Stored _ bytes (ground arith)
  persisted-Stored (broken left) bytes files = tt

  persist_der-Stored :
      (w : Written) (files : Files) (o : Option (List ℕ)) → Stored (persist_der c w path files o)
  unfolding persist_der
  persist_der-Stored w files none = tt
  persist_der-Stored w files (some der) = persisted-Stored w (c.encode_to_memory der) files

  persist_key-Stored :
      (w : Written) (files : Files) (o : Option K) → Stored (persist_key c w path files o)
  unfolding persist_key
  persist_key-Stored w files none = tt
  persist_key-Stored w files (some priv) = persist_der-Stored w files (c.marshal_private_key priv)

  load_or_create-Stored :
      (env : KeyEnv K) (files : Files) (o : Option (List ℕ))
      → ((d : List ℕ) → o ≡ some d → files path ≡ some d)
      → Stored (load_or_create c env path files o)
  unfolding load_or_create
  load_or_create-Stored env files (some d) at = parsed-Stored files d (at d refl)
  load_or_create-Stored env files none at = persist_key-Stored env.written files env.generated

  load_or_create_host_key-Stored :
      (env : KeyEnv K) (files : Files) → Stored (load_or_create_host_key c env path files)
  unfolding load_or_create_host_key
  load_or_create_host_key-Stored env files =
      load_or_create-Stored env files (read_file env.reads path files) (λ d e. ground arith)

  -- A start that has found or made a host key leaves it in its file, so that each later start that
  -- reads the file, whatever key would be generated, has the same signer and writes nothing.
  pub load_or_create_host_key_stable :
      (env later : KeyEnv K) (files : Files) (s : S)
      → (load_or_create_host_key c env path files).0 ≡ signer s
      → later.reads ≡ true
      → let after = (load_or_create_host_key c env path files).1 in
        load_or_create_host_key c later path after ≡ (signer s, after)
  load_or_create_host_key_stable env later files s done reads =
      read_again (load_or_create_host_key c env path files) done
        (load_or_create_host_key-Stored env files)
    where
      read_again :
          (r : HostKey S × Files)
          → r.0 ≡ signer s
          → Stored r
          → load_or_create_host_key c later path r.1 ≡ (signer s, r.1)
      read_again (signer t, after) e (d, at, p) =
          unfold load_or_create_host_key load_or_create in ground arith
      read_again (failed x, after) e v = absurd (ground arith)
