-- ===== src/Soapy/Registration/Tests.antt =====
-- A search with the scripted library.
use ic7610iq.Prelude.{◌≡◌, refl, some, List, [], ◌∷◌, All, returns}
use ic7610iq.Port.Scripted.{scripted, the_radio}
use ic7610iq.Soapy.{Kwargs, at}
use ic7610iq.Soapy.Registration.{find_ic7610_sdr, matching, other_serial}
use ic7610iq.Soapy.Registration.Filter.{HasSerial, find_ic7610_sdr-HasSerial}

-- The scripted library has one device.
abbrev that_one : Kwargs
that_one = ("serial", the_radio.serial_number) ∷ []

one_found : (results : List Kwargs) × (find_ic7610_sdr scripted that_one [] ≡ returns results [])
unfolding find_ic7610_sdr matching other_serial at
one_found = (_, refl)

asked : at that_one "serial" ≡ some "IC-7610 000001"
unfolding at
asked = refl

find_ic7610_sdr-HasSerial_example : All (HasSerial "IC-7610 000001") one_found.0
find_ic7610_sdr-HasSerial_example =
    find_ic7610_sdr-HasSerial scripted that_one "IC-7610 000001" [] [] one_found.0 asked one_found.1
