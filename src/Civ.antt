-- ===== src/Civ.antt =====
-- The serial CI-V port: `class IcomCIVPort` (src/IcomCIVPort.cpp). The serial port library,
-- libserialport, is a parameter. Printing is left out.
pub mod Reading
pub mod Finding
mod Tests
use ic7610iq.Prelude.{
  ℕ, zero, suc, ◌+◌, ◌-◌, ℤ, pos, negsuc, is_positive, Bool, true, false, ◌&&◌, not, Option, none,
  some, List, [], ◌∷◌, ◌++◌, ltb, ◌==◌, if◌then◌else◌, length, String, str_eq, Outcome, returns,
  undefined, M, ◌>>=◌, ◌>>◌, pure, throw, modify, access, Error,
}
use ic7610iq.Common.{civ_eom, default_baudrate, civ_read_buffer_size}
use ic7610iq.Frame.{civ_frame}

-- A port that `sp_list_ports` finds: its name, and the vendor and product of a USB port.
pub record PortInfo : Type 0 where
  pub name : String
  pub usb : Option (ℕ × ℕ)

-- libserialport: whether a call gives `SP_OK`, and what it writes through its pointers.
pub record SerialPort (W : Type 0) : Type 0 where
  pub list_ports : W → (Bool × List PortInfo) × W
  pub free_port_list : W → W
  pub get_port_by_name : String → W → Bool × W
  pub open_read_write : W → Bool × W
  pub close : W → W
  pub free_port : W → W
  pub set_baudrate : ℤ → W → W
  pub set_bits : ℕ → W → W
  pub set_parity_none : W → W
  pub set_stopbits : ℕ → W → W
  pub set_flowcontrol_none : W → W
  -- bytes and milliseconds; the bytes written, or a negative error
  pub blocking_write : List ℕ → ℕ → W → ℤ × W
  -- one byte within the milliseconds: the bytes read, or a negative error; and the byte
  pub blocking_read : ℕ → W → (ℤ × ℕ) × W

pub record CivPort (W : Type 0) : Type 0 where
  pub baudrate : ℤ
  pub is_initialized : Bool
  pub is_open : Bool
  pub world : W

abbrev target_vendor_id : ℕ
target_vendor_id = 0x10c4

abbrev target_product_id : ℕ
target_product_id = 0xea60

-- The loop of `findIcomCtrlPort`: the name of the first port with both ids, or an empty one.
pub find_target : List PortInfo → String
find_target [] = ""
find_target (port ∷ ports) =
    let rest = find_target ports in
    elim port.usb [
      | none ↦ rest
      | some (vendor, product) ↦
          if vendor == target_vendor_id && product == target_product_id then port.name else rest
    ]

module _ {W : Type 0} where
  abbrev pub new_civ_port : W → CivPort W
  new_civ_port w = record {
    baudrate = pos default_baudrate;
    is_initialized = false;
    is_open = false;
    world = w;
  }

  abbrev call : {A : Type 0} → (W → A × W) → M (CivPort W) A
  call f p = let (a, w) = f p.world in returns a (record p { world = w })

  abbrev run : (W → W) → M (CivPort W) (Unit {0})
  run f p = returns tt (record p { world = f p.world })

module _ {W : Type 0} (sp : SerialPort W) where
  -- A failure to list the ports returns a string made of a null pointer.
  pub find_icom_ctrl_port : M (CivPort W) String
  find_icom_ctrl_port = do
    (ok, ports) ← call sp.list_ports
    if not ok then (λ p. undefined) else (do run sp.free_port_list; pure (find_target ports))

  -- `device_found` is never set.
  pub find_icom_civ_port : M (CivPort W) String
  find_icom_civ_port = do
    (ok, ports) ← call sp.list_ports
    if not ok then (λ p. undefined) else (do _ ← find_icom_ctrl_port; throw Error.no_serial_device)

  pub init : String → ℤ → M (CivPort W) (Unit {0})
  init port_name baudrate = if str_eq port_name "" then throw Error.no_port_name else (do
    modify λ p. record p { baudrate = baudrate }
    found ← call (sp.get_port_by_name port_name)
    if not found then throw Error.no_civ_port else (do
      opened ← call sp.open_read_write
      if not opened then (do run sp.free_port; throw Error.open_civ_failed) else (do
        run (sp.set_baudrate baudrate)
        run (sp.set_bits 8)
        run sp.set_parity_none
        run (sp.set_stopbits 1)
        run sp.set_flowcontrol_none
        modify λ p. record p { is_initialized = true; is_open = true })))

  -- `~IcomCIVPort()`.
  pub destroy : M (CivPort W) (Unit {0})
  destroy = do run sp.close; run sp.free_port

  pub send_civ_cmd : List ℕ → M (CivPort W) ℤ
  send_civ_cmd cmd = do
    buf ← access (civ_frame cmd)
    write_status ← call (sp.blocking_write buf 1000)
    pure (elim write_status [ pos n ↦ pos (length buf) | negsuc n ↦ negsuc n ])

  -- The loop of `readCIVReply` with `rounds` of it left.
  read_bytes : ℕ → ℕ → List ℕ → M (CivPort W) (ℤ × List ℕ)
  read_bytes zero bytes_read buffer = pure (pos bytes_read, buffer)
  read_bytes (suc rounds) bytes_read buffer = do
    (read_status, byte) ← call (sp.blocking_read 500)
    let rest = read_bytes rounds (bytes_read + 1) (buffer ++ (byte ∷ []))
    elim read_status [
      | negsuc n ↦ pure (negsuc n, buffer)
      | pos zero ↦ pure (pos bytes_read, buffer)
      | pos (suc n) ↦
          if byte == civ_eom then pure (pos (bytes_read + 1), buffer ++ (byte ∷ [])) else rest
    ]

  pub read_civ_reply : List ℕ → M (CivPort W) (ℤ × List ℕ)
  read_civ_reply buffer = read_bytes (civ_read_buffer_size - 1) 0 buffer

  pub icom_civ_command : List ℕ → List ℕ → M (CivPort W) (ℤ × List ℕ)
  icom_civ_command cmd reply = do
    sent_bytes ← send_civ_cmd cmd
    if is_positive sent_bytes then read_civ_reply reply else pure (sent_bytes, reply)
