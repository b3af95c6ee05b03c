-- ===== src/Startup/Config/Checks.antt =====
-- What a configuration that config/config.go has loaded can be relied on for.
use text.Mathlib.Text.{◌==◌ as str_eq}
use blog_go.Prelude.{
  ℕ, subst, ◌%◌, ◌^◌, ◌≤◌, ◌<◌, ◌≡◌, refl, inl, inr, false, String, arith, Bool-cases,
}
use blog_go.Action.{Result, ok, err}
use blog_go.Startup.Config.{
  System, Config, get_env, from_string_to_private_key, config, load_keyed, load_sized, load,
}

-- `ParseUint` with 32 bits.
abbrev pub FitsBits : {K P : Type 0} → System K P → Type 0
FitsBits system = (s : String) (n : ℕ) → system.parse_uint s ≡ ok n → n < 2 ^ 32

module _ {K P : Type 0} (system : System K P) where
  pub record IsLoaded (cfg : Config K P) : Type 0 where
    pub memory_read :
        system.parse_uint (get_env system "ARGON2_MEMORY" "65536") ≡ ok cfg.hash_params.memory
    pub key_read : from_string_to_private_key system cfg.jwt_secret ≡ ok cfg.private_key
    pub public_read : cfg.public_key ≡ system.public_of cfg.private_key
    pub has_database : str_eq cfg.database_url "" ≡ false
    pub has_secret : str_eq cfg.jwt_secret "" ≡ false
    pub few_threads : cfg.hash_params.parallelism ≤ 4
    pub no_threads : cfg.hash_params.parallelism ≡ 0 → system.num_cpu % 256 ≡ 0

  load_keyed-IsLoaded :
      (memory : ℕ) (key : Result K) (cfg : Config K P)
      → system.parse_uint (get_env system "ARGON2_MEMORY" "65536") ≡ ok memory
      → memory < 2 ^ 32
      → from_string_to_private_key system (get_env system "JWT_SECRET" "") ≡ key
      → load_keyed system memory key ≡ ok cfg
      → IsLoaded cfg
  unfolding load_keyed config
  load_keyed-IsLoaded memory (err e) cfg read small same loaded = ground arith
  load_keyed-IsLoaded memory (ok private) cfg read small same loaded =
      elim (Bool-cases (str_eq (get_env system "DATABASE_URL" "") "")) [
        | inl no_url ↦ ground arith
        | inr url ↦ elim (Bool-cases (str_eq (get_env system "JWT_SECRET" "") "")) [
          | inl no_secret ↦ ground arith
          | inr secret ↦
              let built : config system memory private ≡ cfg = ground arith in
              subst IsLoaded built record {
                memory_read = let fits : memory % 2 ^ 32 ≡ memory = omega arith in rw fits read;
                key_read = same;
                public_read = refl;
                has_database = url;
                has_secret = secret;
                few_threads = omega arith;
                no_threads = λ idle. omega arith;
              }
        ]
      ]

  load_sized-IsLoaded :
      (parsed : Result ℕ) (cfg : Config K P)
      → system.parse_uint (get_env system "ARGON2_MEMORY" "65536") ≡ parsed
      → FitsBits system
      → load_sized system parsed ≡ ok cfg
      → IsLoaded cfg
  unfolding load_sized
  load_sized-IsLoaded (err e) cfg read fits loaded = ground arith
  load_sized-IsLoaded (ok memory) cfg read fits loaded =
      load_keyed-IsLoaded memory _ cfg read (fits _ memory read) refl loaded

  -- A configuration that `Load` returns has the memory and the private key of the environment, the public key of that private key, neither
  -- an empty database URL nor an empty JWT secret, at most 4 threads for argon2id, and none only where
  -- the number of processors is a multiple of 256; `ParseUint` keeps to its 32 bits.
  pub load-IsLoaded : (cfg : Config K P) → FitsBits system → load system ≡ ok cfg → IsLoaded cfg
  unfolding load
  load-IsLoaded cfg fits loaded = load_sized-IsLoaded _ cfg refl fits loaded
