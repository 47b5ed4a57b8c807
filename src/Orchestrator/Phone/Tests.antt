-- ===== src/Orchestrator/Phone/Tests.antt =====
-- A number that two phones of the registry have, of which one is connected.
use otacon.Prelude.{◌≡◌, refl, true, false, some, none, [], ◌∷◌}
use otacon.Orchestrator.Phone.{
  Services, OtaconConfig, ok, resolved, resolve_phone, find_phone, local_id,
}
use otacon.Orchestrator.Phone.Resolved.{Right, resolve_phone-Right}

abbrev two_phones : Services
two_phones = record {
  phones = λ url token. ok (
      record {
        id = 4;
        phone_number = some 5550100;
        host_id = none;
        adb_serial = none;
        connected = false;
      }
      ∷ record {
        id = 5;
        phone_number = some 5550100;
        host_id = some 9;
        adb_serial = some 60;
        connected = true;
      }
      ∷ []);
  host = λ url token id. ok (record { id = id; address = some 77; api_port = 8443 });
  host_phones = λ url. ok (
      record { id = 5; adb_serial = none; registry_id = none }
      ∷ record { id = 31; adb_serial = some 60; registry_id = none }
      ∷ []);
}

abbrev known : OtaconConfig
known = record { registry_url = some 1; token = some 2 }

by_serial :
    resolve_phone two_phones known 5550100
    ≡ resolved (record {
      phone_id = 5;
      local_phone_id = 31;
      host_url = record { address = 77; api_port = 8443 };
      base_url = record { host = record { address = 77; api_port = 8443 }; local_id = 31 };
    })
unfolding resolve_phone find_phone local_id
by_serial = refl

resolve_phone-Right_example : Right two_phones 1 2 5550100 (resolve_phone two_phones known 5550100)
resolve_phone-Right_example = resolve_phone-Right two_phones known 1 2 5550100 refl refl
