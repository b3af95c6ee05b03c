-- ===== src/Startup/Config.antt =====
-- config/config.go. The environment after `godotenv.Load`, `strconv.ParseUint`, `pem.Decode`, `x509` and
-- the number of processors are parameters.
pub mod Checks
use text.Mathlib.Text.{◌==◌ as str_eq}
use blog_go.Prelude.{ℕ, ◌%◌, ◌^◌, min, not, Option, none, some, String, Text, if◌then◌else◌}
use blog_go.Errs.{Error, other}
use blog_go.Action.{Result, ok, err}

-- `argon2id.Params`
pub record HashParams : Type 0 where
  pub memory : ℕ
  pub iterations : ℕ
  pub parallelism : ℕ
  pub salt_length : ℕ
  pub key_length : ℕ

-- `jwt.SigningMethodEdDSA`
pub data SigningMethod : Type 0 where
  ed_dsa : SigningMethod

-- `K` are the private keys and `P` the public ones.
pub record Config (K P : Type 0) : Type 0 where
  pub server_port : String
  pub server_dev_address : String
  pub database_url : String
  pub redis_url : String
  pub jwt_secret : String
  pub is_release : String
  pub otlp_grpc_address : String
  pub uptrace_dsn : String
  pub private_key : K
  pub public_key : P
  pub sign_method : SigningMethod
  pub hash_params : HashParams

-- What `ParsePKCS8PrivateKey` returns: an Ed25519 key, or one of another kind.
pub data Parsed (K : Type 0) : Type 0 where
  ed25519 : K → Parsed K
  other_key : Parsed K

pub record System (K P : Type 0) : Type 0 where
  -- `os.Getenv`: the empty text for a name that is not set
  pub getenv : String → String
  -- `strconv.ParseUint(s, 10, 32)`
  pub parse_uint : String → Result ℕ
  -- the bytes of the first block
  pub pem_decode : String → Option Text
  pub parse_pkcs8 : Text → Result (Parsed K)
  -- `private.Public()`
  pub public_of : K → P
  pub num_cpu : ℕ

abbrev pub to_uint32 : ℕ → ℕ
to_uint32 n = n % 2 ^ 32

abbrev pub to_uint8 : ℕ → ℕ
to_uint8 n = n % 2 ^ 8

module _ {K P : Type 0} (system : System K P) where
  unfoldable pub get_env : String → String → String
  get_env key default_value =
      let value = system.getenv key in if not (str_eq value "") then value else default_value

  unfoldable pub read_key : Result (Parsed K) → Result K
  read_key (err e) = err e
  read_key (ok other_key) = err (other "expected Ed25519 private key")
  read_key (ok (ed25519 pk)) = ok pk

  unfoldable pub read_block : Option Text → Result K
  unfolding read_key
  read_block none = err (other "failed to decode PEM block")
  read_block (some bytes) = read_key (system.parse_pkcs8 bytes)

  unfoldable pub from_string_to_private_key : String → Result K
  unfolding read_block
  from_string_to_private_key key_string = read_block (system.pem_decode key_string)

  -- The configuration, for the parsed memory and key.
  unfoldable pub config : ℕ → K → Config K P
  unfolding get_env
  config argon2_memory private = record {
    server_port = get_env "SERVER_PORT" "8080";
    server_dev_address = get_env "SERVER_DEV_ADDRESS" "localhost";
    database_url = get_env "DATABASE_URL" "";
    redis_url = get_env "REDIS_URL" "";
    jwt_secret = get_env "JWT_SECRET" "";
    is_release = get_env "IS_RELEASE" "0";
    otlp_grpc_address = get_env "OTLP_GRPC_ADDRESS" "localhost";
    uptrace_dsn = get_env "UPTRACE_DSN" "";
    private_key = private;
    public_key = system.public_of private;
    sign_method = ed_dsa;
    hash_params = record {
      memory = to_uint32 argon2_memory;
      iterations = 4;
      parallelism = min (to_uint8 system.num_cpu) 4;
      salt_length = 16;
      key_length = 32;
    };
  }

  unfoldable pub load_keyed : ℕ → Result K → Result (Config K P)
  unfolding config get_env
  load_keyed memory (err e) = err e
  load_keyed memory (ok private) =
      if str_eq (get_env "DATABASE_URL" "") ""
      then err (other "DATABASE_URL is required")
      else if str_eq (get_env "JWT_SECRET" "") ""
      then err (other "JWT_SECRET is required")
      else ok (config memory private)

  unfoldable pub load_sized : Result ℕ → Result (Config K P)
  unfolding load_keyed from_string_to_private_key get_env
  load_sized (err e) = err (other "failed to parse ARGON2_MEMORY")
  load_sized (ok memory) = load_keyed memory (from_string_to_private_key (get_env "JWT_SECRET" ""))

  unfoldable pub load : Result (Config K P)
  unfolding load_sized get_env
  load = load_sized (system.parse_uint (get_env "ARGON2_MEMORY" "65536"))
