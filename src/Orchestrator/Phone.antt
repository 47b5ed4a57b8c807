-- ===== src/Orchestrator/Phone.antt =====
-- resolve/phone.ts: from a phone number to the address of the phone on its host. Ids, numbers, serials,
-- addresses and tokens are opaque numbers, and an empty text is none. What the registry and a host
-- answer is a parameter.
pub mod Resolved
mod Tests
use otacon.Prelude.{
  ℕ, Bool, true, false, ◌&&◌, ◌||◌, Option, none, some, List, [], ◌∷◌, find, ◌==◌, if◌then◌else◌,
}

pub record RegistryPhone : Type 0 where
  pub id : ℕ
  pub phone_number : Option ℕ
  pub host_id : Option ℕ
  pub adb_serial : Option ℕ
  pub connected : Bool

pub record Host : Type 0 where
  pub id : ℕ
  pub address : Option ℕ
  pub api_port : ℕ

pub record HostPhone : Type 0 where
  pub id : ℕ
  pub adb_serial : Option ℕ
  pub registry_id : Option ℕ

-- `https://${address}:${api_port}`
pub record HostUrl : Type 0 where
  pub address : ℕ
  pub api_port : ℕ

-- `${host_url}/phones/${local_phone_id}`
pub record BaseUrl : Type 0 where
  pub host : HostUrl
  pub local_id : ℕ

pub record ResolvedPhone : Type 0 where
  pub phone_id : ℕ
  pub local_phone_id : ℕ
  pub host_url : HostUrl
  pub base_url : BaseUrl

pub data Response (A : Type 0) : Type 0 where
  unreachable : Response A
  status : ℕ → Response A
  ok : A → Response A

pub data Error : Type 0 where
  no_registry_url no_token fetch_failed : Error
  list_failed : ℕ → Error
  no_phone : ℕ → Error
  no_host : ℕ → Error
  host_failed : ℕ → ℕ → Error
  no_address : ℕ → Error

pub data Result : Type 0 where
  resolved : ResolvedPhone → Result
  thrown : Error → Result

-- The registry, by its address and the token, and the hosts, by theirs.
pub record Services : Type 0 where
  pub phones : ℕ → ℕ → Response (List RegistryPhone)
  pub host : ℕ → ℕ → ℕ → Response Host
  pub host_phones : HostUrl → Response (List HostPhone)

pub record OtaconConfig : Type 0 where
  pub registry_url : Option ℕ
  pub token : Option ℕ

-- JavaScript's `a || b`.
abbrev pub or_else : {A : Type 0} → Option A → Option A → Option A
or_else none b = b
or_else (some a) b = some a

-- `loadOtaconConfig`: the environment's address and token, and those of the file, if it can be read.
unfoldable pub load_otacon_config : OtaconConfig → Option OtaconConfig → OtaconConfig
load_otacon_config env none = env
load_otacon_config env (some file) = record {
  registry_url = or_else env.registry_url file.registry_url;
  token = or_else env.token file.token;
}

-- `a === b` where `b` is there.
abbrev pub is : Option ℕ → ℕ → Bool
is none n = false
is (some m) n = m == n

abbrev pub has_number : ℕ → RegistryPhone → Bool
has_number n p = is p.phone_number n

abbrev pub is_up : ℕ → RegistryPhone → Bool
is_up n p = has_number n p && p.connected

unfoldable pub find_phone : List RegistryPhone → ℕ → Option RegistryPhone
find_phone phones n = or_else (find (is_up n) phones) (find (has_number n) phones)

-- The tests of a host's phone, in the order of trust.
abbrev pub has_serial : Option ℕ → HostPhone → Bool
has_serial none h = false
has_serial (some serial) h = is h.adb_serial serial

abbrev pub has_registry_id : ℕ → HostPhone → Bool
has_registry_id id h = is h.registry_id id

abbrev pub has_id : ℕ → HostPhone → Bool
has_id id h = h.id == id

abbrev pub id_or : Option HostPhone → ℕ → ℕ
id_or none id = id
id_or (some h) id = h.id

unfoldable pub local_id : RegistryPhone → Response (List HostPhone) → ℕ
local_id p (ok phones) =
    id_or
      (or_else (find (has_serial p.adb_serial) phones)
        (or_else (find (has_registry_id p.id) phones) (find (has_id p.id) phones)))
      p.id
local_id p answer = p.id

-- The last step, once the host's address is known.
abbrev pub on_host : Services → RegistryPhone → HostUrl → Result
on_host services p url =
    let id = local_id p (services.host_phones url) in
    resolved (record {
      phone_id = p.id;
      local_phone_id = id;
      host_url = url;
      base_url = record { host = url; local_id = id };
    })

abbrev pub of_host : Services → RegistryPhone → ℕ → Response Host → Result
of_host services p host_id unreachable = thrown fetch_failed
of_host services p host_id (status code) = thrown (host_failed host_id code)
of_host services p host_id (ok host) = elim host.address [
  | none ↦ thrown (no_address host.id)
  | some address ↦ on_host services p (record { address = address; api_port = host.api_port })
]

abbrev pub of_phone : Services → ℕ → ℕ → ℕ → Option RegistryPhone → Result
of_phone services url token n none = thrown (no_phone n)
of_phone services url token n (some p) = elim p.host_id [
  | none ↦ thrown (no_host p.id)
  | some host_id ↦ of_host services p host_id (services.host url token host_id)
]

abbrev pub of_phones : Services → ℕ → ℕ → ℕ → Response (List RegistryPhone) → Result
of_phones services url token n unreachable = thrown fetch_failed
of_phones services url token n (status code) = thrown (list_failed code)
of_phones services url token n (ok phones) = of_phone services url token n (find_phone phones n)

abbrev pub with_config : Services → Option ℕ → Option ℕ → ℕ → Result
with_config services none token n = thrown no_registry_url
with_config services (some url) none n = thrown no_token
with_config services (some url) (some token) n =
    of_phones services url token n (services.phones url token)

unfoldable pub resolve_phone : Services → OtaconConfig → ℕ → Result
resolve_phone services config n = with_config services config.registry_url config.token n
