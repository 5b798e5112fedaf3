-- ===== src/Soapy/Registration/Filter.antt =====
-- What the search for devices gives when a serial number is asked for.
use text.Mathlib.TextEquality.{eq_iff}
use ic7610iq.Prelude.{
  Bool, true, false, not, none, some, List, [], ◌∷◌, leb, ◌==◌, length, String, str_eq, pure, ◌≡◌,
  refl, sym, inl, inr, Bool-cases, All, returns, subst, Ends, Ends-if, Ends-require,
}
use ic7610iq.Common.{ft_ok}
use ic7610iq.Driver.{Node, Ftd3xx}
use ic7610iq.Soapy.{Kwargs, at, count}
use ic7610iq.Soapy.Registration.{device_info, other_serial, matching, find_ic7610_sdr}

-- A result with this serial number.
abbrev pub HasSerial : String → Kwargs → Type 0
HasSerial serial info = at info "serial" ≡ some serial

device_info-HasSerial : (node : Node) → HasSerial node.serial_number (device_info node)
unfolding device_info at
device_info-HasSerial node = refl

not-false : (b : Bool) → not b ≡ false → b ≡ true
not-false true e = refl
not-false false e = absurd cc

same_serial :
    (args : Kwargs) (node : Node) (serial : String)
    → at args "serial" ≡ some serial
    → other_serial args node ≡ false
    → node.serial_number ≡ serial
unfolding other_serial
same_serial args node serial e h =
    let filtered : not (str_eq serial node.serial_number) ≡ false =
      subst (λ o. elim o [ none ↦ false | some k ↦ not (str_eq k node.serial_number) ] ≡ false) e
        h in
    sym ((eq_iff _ _).0 (not-false _ filtered))

matching-HasSerial :
    (args : Kwargs) (serial : String) (nodes : List Node)
    → at args "serial" ≡ some serial
    → All (HasSerial serial) (matching args nodes)
unfolding matching
matching-HasSerial args serial [] e = tt
matching-HasSerial args serial (node ∷ nodes) e = elim (Bool-cases (other_serial args node)) [
  | inl t ↦ rw t (matching-HasSerial args serial nodes e)
  | inr f ↦ rw f (
    subst (λ s. HasSerial s (device_info node)) (same_serial args node serial e f)
        (device_info-HasSerial node),
    matching-HasSerial args serial nodes e,
  )
]

module _ {W : Type 0} (ft : Ftd3xx W) where
  -- When a serial number is asked for, each device that the search returns, if it returns, has it.
  pub find_ic7610_sdr-HasSerial :
      (args : Kwargs) (serial : String) (w w' : W) (results : List Kwargs)
      → at args "serial" ≡ some serial
      → find_ic7610_sdr ft args w ≡ returns results w'
      → All (HasSerial serial) results
  unfolding find_ic7610_sdr
  find_ic7610_sdr-HasSerial args serial w w' results e found =
      let ((res, count), w1) = ft.create_device_info_list w in
      let ((res', nodes), w2) = ft.get_device_info_list w1 in
      subst (Ends (λ results v. All (HasSerial serial) results)) found (
        Ends-if (λ results v. All (HasSerial serial) results) (not (res == ft_ok)) _ _ w1 (λ _. tt)
          (λ _.
            Ends-if (λ results v. All (HasSerial serial) results) (not (res' == ft_ok)) (pure []) _
              w2 (λ _. tt)
              (λ _.
                Ends-require (λ results v. All (HasSerial serial) results) (leb (length nodes) 16)
                  (λ _. pure (matching args nodes)) w2 (matching-HasSerial args serial nodes e))))
