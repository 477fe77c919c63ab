-- ===== src/Config/Settings.antt =====
-- What the two configurations share: the `config` crate, the file system and the parsers of PEM files
-- and of addresses, as parameters by what their calls answer; `get_metrics_config` of
-- src/nts_ke/server/config.rs and src/ntp/server/config.rs; and `CookieKey::parse` of src/cookie.rs.
use Prim.Native.String.{String}
use cfnts.Base.{
  ℕ, ◌-◌, ◌%◌, ◌^◌, ◌<◌, List, [], ◌∷◌, Bytes, Option, some, none, ltb, if◌then◌else◌, ltb→lt,
  lt→ltb, Outcome, ok, err, ◌>>=◌, bind-eq-ok, arith, ◌≡◌, refl,
}

-- An `i64`; `negsuc n` is -(n + 1).
pub data ℤ : Type 0 where
  pos : ℕ → ℤ
  negsuc : ℕ → ℤ

-- `u16::try_from` and `u64::try_from`
unfoldable pub u16_try_from : ℤ → Option ℕ
u16_try_from (pos n) = if ltb n (2 ^ 16) then some n else none
u16_try_from (negsuc n) = none

unfoldable pub u64_try_from : ℤ → Option ℕ
u64_try_from (pos n) = if ltb n (2 ^ 64) then some n else none
u64_try_from (negsuc n) = none

-- `as u16` keeps the lowest 16 bits of the two's complement.
unfoldable pub as_u16 : ℤ → ℕ
as_u16 (pos n) = n % 2 ^ 16
as_u16 (negsuc n) = 2 ^ 16 - 1 - n % 2 ^ 16

-- The causes that `wrap_err` puts in a `Foreign` error: an error of the system, a file that holds no
-- PEM certificates or no keys, and a text that is no address.
pub data Cause : Type 0 where
  os_error : ℕ → Cause
  no_certs no_secret_keys no_address : Bytes → Cause

-- `other` is any other error of the crate.
pub data ConfigError : Type 0 where
  not_found other : String → ConfigError
  foreign : Cause → ConfigError
  message : String → ConfigError

-- What a getter of `config::Config` answers.
pub data Setting (A : Type 0) : Type 0 where
  value : A → Setting A
  missing : Setting A
  unreadable : Setting A

-- The getters at a key; an element of an array is the text that `to_string` makes of it.
pub record Settings : Type 0 where
  pub get_string : String → Setting Bytes
  pub get_int : String → Setting ℤ
  pub get_array : String → Setting (List Bytes)

-- A file that is open: what can be read from it, and the error at which the reading stops, if one does.
pub record OpenFile : Type 0 where
  pub contents : Bytes
  pub read_error : Option ℕ

-- A file, or the error that `open` gives.
pub data Opened : Type 0 where
  opened : OpenFile → Opened
  refused : ℕ → Opened

pub record SocketAddr : Type 0 where
  pub ip : Bytes
  pub port : ℕ

-- What the system and the crates answer: the settings of a file, if they can be built; a file, or
-- the number of the error that `open` gives; the certificates and the keys of a PEM file; an address
-- with a port, and one without.
pub record System : Type 0 where
  pub build : Bytes → Option Settings
  pub open_file : Bytes → Opened
  pub certs : OpenFile → Option (List Bytes)
  pub pkcs8_private_keys : OpenFile → Option (List Bytes)
  pub parse_socket_addr : Bytes → Option SocketAddr
  pub parse_ip_addr : Bytes → Option Bytes

-- The `?` behind a getter.
abbrev pub found : {A : Type 0} → String → Setting A → Outcome ConfigError A
found key (value a) = ok a
found key missing = err (not_found key)
found key unreadable = err (other key)

abbrev pub get : {A : Type 0} → String → (String → Setting A) → Outcome ConfigError A
get key getter = found key (getter key)

pub found-ok :
    {A : Type 0} (key : String) (x : Setting A) {a : A} → found key x ≡ ok a → x ≡ value a
found-ok key (value b) h = cc
found-ok key missing h = cc
found-ok key unreadable h = cc

-- `MetricsConfig` of src/metrics.rs
pub record MetricsConfig : Type 0 where
  pub port : ℕ
  pub addr : Bytes

-- An address without a port, or with one that is no integer, gives no configuration.
unfoldable pub get_metrics_config : Settings → Option MetricsConfig
unfolding as_u16
get_metrics_config settings = elim (settings.get_string "metrics_addr") [
  | value addr ↦ elim (settings.get_int "metrics_port") [
    | value port ↦ some (record { port = as_u16 port; addr = addr })
    | _ ↦ none
  ]
  | _ ↦ none
]

-- `File::open(filename)?`
abbrev pub io_result : Opened → Outcome Cause OpenFile
io_result (opened file) = ok file
io_result (refused n) = err (os_error n)

abbrev pub open_at : System → Bytes → Outcome Cause OpenFile
open_at sys filename = io_result (sys.open_file filename)

-- `file.read_to_end(&mut buffer)?`
abbrev pub all_read : Bytes → Option ℕ → Outcome Cause Bytes
all_read contents none = ok contents
all_read contents (some n) = err (os_error n)

abbrev pub read_to_end : OpenFile → Outcome Cause Bytes
read_to_end file = all_read file.contents file.read_error

-- `CookieKey::parse`
unfoldable pub parse_cookie_key : System → Bytes → Outcome Cause Bytes
parse_cookie_key sys filename = do file ← open_at sys filename; read_to_end file

pub io_result-ok : (x : Opened) {file : OpenFile} → io_result x ≡ ok file → x ≡ opened file
io_result-ok (opened f) h = cc
io_result-ok (refused n) h = cc

all_read-ok :
    (contents : Bytes) (x : Option ℕ) {key : Bytes}
    → all_read contents x ≡ ok key
    → (x ≡ none) × (contents ≡ key)
all_read-ok contents none h = (refl, cc)
all_read-ok contents (some n) h = cc

pub parse_cookie_key-ok :
    (sys : System) (filename : Bytes) {key : Bytes}
    → parse_cookie_key sys filename ≡ ok key
    → (file : OpenFile) × (sys.open_file filename ≡ opened file)
      × (file.read_error ≡ none)
      × (file.contents ≡ key)
unfolding parse_cookie_key
parse_cookie_key-ok sys filename h =
    let (file, o, r) = bind-eq-ok (open_at sys filename) _ h in
    let (whole, all) = all_read-ok file.contents file.read_error r in
    (file, io_result-ok (sys.open_file filename) o, whole, all)

pub u16_try_from-some : (val : ℤ) {n : ℕ} → u16_try_from val ≡ some n → (val ≡ pos n) × (n < 2 ^ 16)
unfolding u16_try_from
u16_try_from-some (pos n) h = ground (arith, ltb→lt n (2 ^ 16))
u16_try_from-some (negsuc n) h = cc

pub u16_try_from-pos : (n : ℕ) → n < 2 ^ 16 → u16_try_from (pos n) ≡ some n
unfolding u16_try_from
u16_try_from-pos n h = rw (lt→ltb n (2 ^ 16) h) refl

pub u64_try_from-some : (val : ℤ) {n : ℕ} → u64_try_from val ≡ some n → (val ≡ pos n) × (n < 2 ^ 64)
unfolding u64_try_from
u64_try_from-some (pos n) h = ground (arith, ltb→lt n (2 ^ 64))
u64_try_from-some (negsuc n) h = cc

-- The addresses that the texts stand for, in their order.
abbrev pub AreAddrs : System → List Bytes → List SocketAddr → Type 0
AreAddrs sys [] [] = Unit {0}
AreAddrs sys (text ∷ texts) (addr ∷ addrs) =
    (sys.parse_socket_addr text ≡ some addr) × AreAddrs sys texts addrs
AreAddrs sys _ _ = ⊥
