-- ===== src/Orchestrator/Phone/Resolved.antt =====
-- Which phone a number resolves to.
use otacon.Prelude.{
  ℕ, ◌≡◌, refl, ◌⊎◌, inl, inr, Bool, true, false, Option, none, some, List, find, All, Among, Found,
  find-Found, arith, subst,
}
use otacon.Orchestrator.Phone.{
  RegistryPhone, Host, HostPhone, Response, unreachable, status, ok, Services, OtaconConfig, Result,
  resolved, thrown, no_registry_url, no_token, fetch_failed, list_failed, no_phone, no_host,
  host_failed, no_address, has_number, is_up, find_phone, has_serial, has_registry_id, has_id,
  id_or, or_else, local_id, on_host, of_host, of_phone, of_phones, resolve_phone,
}

-- The phone of a number: one of the registry's, connected if any of its number is.
abbrev pub Chosen : ℕ → List RegistryPhone → RegistryPhone → Type 0
Chosen n phones p =
    Among p phones
    × (has_number n p ≡ true)
    × ((p.connected ≡ true) ⊎ All (λ q. is_up n q ≡ false) phones)

find_phone-Chosen :
    (phones : List RegistryPhone) (n : ℕ) (p : RegistryPhone)
    → find_phone phones n ≡ some p
    → Chosen n phones p
unfolding find_phone
find_phone-Chosen phones n p e =
    go (find (is_up n) phones) (find (has_number n) phones) (find-Found (is_up n) phones)
      (find-Found (has_number n) phones) e
  where
    same : {x y : RegistryPhone} → some x ≡ some y → x ≡ y
    same h = cc h

    go :
        (a b : Option RegistryPhone)
        → Found (is_up n) phones a
        → Found (has_number n) phones b
        → or_else a b ≡ some p
        → Chosen n phones p
    go (some x) b (among, up) h e =
        subst (Chosen n phones) (same e) (among, ground (arith, up), inl (ground (arith, up)))
    go none (some x) down (among, has) e = subst (Chosen n phones) (same e) (among, has, inr down)
    go none none down has e = absurd (cc e)

find_phone-none :
    (phones : List RegistryPhone) (n : ℕ)
    → find_phone phones n ≡ none
    → All (λ q. has_number n q ≡ false) phones
unfolding find_phone
find_phone-none phones n e =
    go (find (is_up n) phones) (find (has_number n) phones) (find-Found (has_number n) phones) e
  where
    go :
        (a b : Option RegistryPhone)
        → Found (has_number n) phones b
        → or_else a b ≡ none
        → All (λ q. has_number n q ≡ false) phones
    go none none has e = has
    go none (some x) has e = absurd (cc e)
    go (some x) b has e = absurd (cc e)

-- A host's answer lists no phone that passes a test.
abbrev Lacks : (HostPhone → Bool) → List HostPhone → Type 0
Lacks test phones = All (λ h. test h ≡ false) phones

abbrev Fits : (HostPhone → Bool) → List HostPhone → ℕ → Type 0
Fits test phones id = (h : HostPhone) × Among h phones × (test h ≡ true) × (id ≡ h.id)

-- The id of a phone on its host: that of the phone with its serial, if the host lists one; else of the
-- one with its registry id; else its own.
abbrev pub IsLocal : RegistryPhone → Response (List HostPhone) → ℕ → Type 0
IsLocal p (ok phones) id =
    Fits (has_serial p.adb_serial) phones id
    ⊎ (Lacks (has_serial p.adb_serial) phones
        × (Fits (has_registry_id p.id) phones id
            ⊎ (Lacks (has_registry_id p.id) phones × (id ≡ p.id))))
IsLocal p answer id = id ≡ p.id

local_id-IsLocal :
    (p : RegistryPhone) (answer : Response (List HostPhone)) → IsLocal p answer (local_id p answer)
unfolding local_id
local_id-IsLocal p unreachable = refl
local_id-IsLocal p (status code) = refl
local_id-IsLocal p (ok phones) =
    go (find (has_serial p.adb_serial) phones) (find (has_registry_id p.id) phones)
      (find (has_id p.id) phones) (find-Found (has_serial p.adb_serial) phones)
      (find-Found (has_registry_id p.id) phones) (find-Found (has_id p.id) phones)
  where
    go :
        (s r d : Option HostPhone)
        → Found (has_serial p.adb_serial) phones s
        → Found (has_registry_id p.id) phones r
        → Found (has_id p.id) phones d
        → IsLocal p (ok phones) (id_or (or_else s (or_else r d)) p.id)
    go (some h) r d (among, has) hr hd = inl (h, among, has, refl)
    go none (some h) d lacks (among, has) hd = inr (lacks, inl (h, among, has, refl))
    go none none (some h) lacks lacks' (among, has) = inr (lacks, inr (lacks', ground (arith, has)))
    go none none none lacks lacks' hd = inr (lacks, inr (lacks', refl))

-- The registry lists the number's phone, with that host.
abbrev pub Stands : Services → ℕ → ℕ → ℕ → RegistryPhone → Option ℕ → Type 0
Stands services url token n p host_id =
    (phones : List RegistryPhone) × (services.phones url token ≡ ok phones)
    × Chosen n phones p
    × (p.host_id ≡ host_id)

-- What a result says of the services.
abbrev pub Right : Services → ℕ → ℕ → ℕ → Result → Type 0
Right services url token n (thrown no_registry_url) = ⊥
Right services url token n (thrown no_token) = ⊥
Right services url token n (thrown fetch_failed) =
    (services.phones url token ≡ unreachable)
    ⊎ ((p : RegistryPhone) × (host_id : ℕ) × Stands services url token n p (some host_id)
        × (services.host url token host_id ≡ unreachable))
Right services url token n (thrown (list_failed code)) = services.phones url token ≡ status code
Right services url token n (thrown (no_phone m)) =
    (phones : List RegistryPhone) × (services.phones url token ≡ ok phones)
    × All (λ q. has_number n q ≡ false) phones
    × (m ≡ n)
Right services url token n (thrown (no_host id)) =
    (p : RegistryPhone) × Stands services url token n p none × (p.id ≡ id)
Right services url token n (thrown (host_failed host_id code)) =
    (p : RegistryPhone) × Stands services url token n p (some host_id)
    × (services.host url token host_id ≡ status code)
Right services url token n (thrown (no_address id)) =
    (p : RegistryPhone) × (host_id : ℕ) × (host : Host) × Stands services url token n p
      (some host_id)
    × (services.host url token host_id ≡ ok host)
    × (host.id ≡ id)
    × (host.address ≡ none)
Right services url token n (resolved r) =
    (p : RegistryPhone) × (host_id : ℕ) × (host : Host) × (address : ℕ) × Stands services url token
      n p (some host_id)
    × (services.host url token host_id ≡ ok host)
    × (host.address ≡ some address)
    × (r.phone_id ≡ p.id)
    × (r.host_url ≡ record { address = address; api_port = host.api_port })
    × IsLocal p (services.host_phones r.host_url) r.local_phone_id
    × (r.base_url ≡ record { host = r.host_url; local_id = r.local_phone_id })

module _ (services : Services) (url token n : ℕ) where
  abbrev IsRight : Result → Type 0
  IsRight r = Right services url token n r

  of_host-Right :
      (p : RegistryPhone) (host_id : ℕ) (answer : Response Host)
      → Stands services url token n p (some host_id)
      → services.host url token host_id ≡ answer
      → IsRight (of_host services p host_id answer)
  of_host-Right p host_id unreachable e f = inr (p, host_id, e, f)
  of_host-Right p host_id (status code) e f = (p, e, f)
  of_host-Right p host_id (ok host) e f = at_address host.address refl
    where
      at_address :
          (o : Option ℕ)
          → host.address ≡ o
          → IsRight (elim o [
            | none ↦ thrown (no_address host.id)
            | some address ↦
                on_host services p (record { address = address; api_port = host.api_port })
          ])
      at_address none g = (p, host_id, host, e, f, refl, g)
      at_address (some address) g = (
        p,
        host_id,
        host,
        address,
        e,
        f,
        g,
        refl,
        refl,
        local_id-IsLocal p
            (services.host_phones (record { address = address; api_port = host.api_port })),
        refl,
      )

  of_phone-Right :
      (phones : List RegistryPhone) (o : Option RegistryPhone)
      → services.phones url token ≡ ok phones
      → find_phone phones n ≡ o
      → IsRight (of_phone services url token n o)
  of_phone-Right phones none e h = (phones, e, find_phone-none phones n h, refl)
  of_phone-Right phones (some p) e h = at_host p.host_id refl
    where
      at_host :
          (o : Option ℕ)
          → p.host_id ≡ o
          → IsRight (elim o [
            | none ↦ thrown (no_host p.id)
            | some host_id ↦ of_host services p host_id (services.host url token host_id)
          ])
      at_host none g = (p, (phones, e, find_phone-Chosen phones n p h, g), refl)
      at_host (some host_id) g =
          of_host-Right p host_id (services.host url token host_id)
            (phones, e, find_phone-Chosen phones n p h, g) refl

  of_phones-Right :
      (answer : Response (List RegistryPhone))
      → services.phones url token ≡ answer
      → IsRight (of_phones services url token n answer)
  of_phones-Right unreachable e = inl e
  of_phones-Right (status code) e = e
  of_phones-Right (ok phones) e = of_phone-Right phones (find_phone phones n) e refl

-- With a registry's address and a token, a number resolves to a phone of the registry that has it, to a
-- connected one if there is any, and to the address and the port that the registry gives for that
-- phone's host, with the phone's id there: that of the host's phone with its serial, if the host lists
-- one, else of the one with its registry id, else its own id. Otherwise the error says why: the
-- registry did not answer, or answered with a status, for the phones or for the host of the number's
-- phone; no phone has the number; the phone has no host; or its host has no address.
pub resolve_phone-Right :
    (services : Services) (config : OtaconConfig) (url token n : ℕ)
    → config.registry_url ≡ some url
    → config.token ≡ some token
    → Right services url token n (resolve_phone services config n)
unfolding resolve_phone
resolve_phone-Right services config url token n has_url has_token =
    rw (has_url, has_token) (of_phones-Right services url token n (services.phones url token) refl)
