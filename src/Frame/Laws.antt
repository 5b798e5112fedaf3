-- ===== src/Frame/Laws.antt =====
-- Which bytes go out, when the buffer overflows, and that the radio can read the command back.
use mathlib.Core.Option
use ic7610iq.Prelude.{
  ℕ, zero, suc, ◌+◌, ◌-◌, ◌%◌, ◌≤◌, ◌<◌, ◌≡◌, ◌≢◌, ◌⊎◌, refl, sym, ap, ◌∙◌, inl, inr, false, Option,
  none, some, List, [], ◌∷◌, ◌++◌, ltb, leb, ◌==◌, lt→ltb, ltb→lt, not_ltb→le, leb→le, not_leb→lt,
  ==_iff, Bool-cases, if◌then◌else◌, length, length-append, length-replicate, take, drop, replicate,
  append_assoc, append-nil, All, arith,
}
use ic7610iq.Common.{command_header, civ_eom}
use ic7610iq.Frame.{put_byte, put_bytes, pad, civ_frame, iq_frame}

put_byte-eq :
    (buf : List ℕ) (byte : ℕ) → length buf < 32 → put_byte buf byte ≡ some (buf ++ (byte ∷ []))
unfolding put_byte
put_byte-eq buf byte h = rw (lt→ltb _ _ h) refl

put_byte-full : (buf : List ℕ) (byte : ℕ) → 32 ≤ length buf → put_byte buf byte ≡ none
unfolding put_byte
put_byte-full buf byte h = ground arith

put_bytes-eq :
    (buf cmd : List ℕ) → length buf + length cmd ≤ 32 → put_bytes buf cmd ≡ some (buf ++ cmd)
unfolding put_bytes
put_bytes-eq buf [] h = rw (append-nil buf) refl
put_bytes-eq buf (byte ∷ cmd) h =
    rw (put_byte-eq buf byte (omega arith), put_bytes)
      (put_bytes-eq (buf ++ (byte ∷ [])) cmd (omega (arith, length-append buf (byte ∷ [])))
        ∙ ap some (append_assoc buf (byte ∷ []) cmd))

put_bytes-full :
    (buf cmd : List ℕ) → length buf ≤ 32 → 32 < length buf + length cmd → put_bytes buf cmd ≡ none
unfolding put_bytes
put_bytes-full buf [] l h = absurd (omega arith)
put_bytes-full buf (byte ∷ cmd) l h = elim (Bool-cases (ltb (length buf) 32)) [
  | inl t ↦
      rw (put_byte-eq buf byte (ltb→lt _ _ t), put_bytes)
        (put_bytes-full (buf ++ (byte ∷ [])) cmd
          (omega (arith, length-append buf (byte ∷ []), ltb→lt _ _ t))
          (omega (arith, length-append buf (byte ∷ []))))
  | inr f ↦ rw (put_byte-full buf byte (not_ltb→le _ _ f), put_bytes) refl
]

-- The bytes of the serial port's message.
pub civ_message : List ℕ → List ℕ
civ_message cmd = command_header ++ (cmd ++ (civ_eom ∷ []))

pub length-civ_message : (cmd : List ℕ) → length (civ_message cmd) ≡ length cmd + 5
unfolding civ_message
length-civ_message cmd = omega (arith, length-append cmd (civ_eom ∷ []))

==_no : (a b : ℕ) → a ≢ b → (a == b) ≡ false
==_no a b h = ground arith

civ_frame-eq : (cmd : List ℕ) → length cmd ≤ 27 → civ_frame cmd ≡ some (civ_message cmd)
unfolding civ_frame civ_message
civ_frame-eq cmd h =
    rw (put_bytes-eq command_header cmd (omega arith), civ_frame)
      (put_byte-eq (command_header ++ cmd) civ_eom
        (omega (arith, length-append command_header cmd)))

civ_frame-full : (cmd : List ℕ) → 27 < length cmd → civ_frame cmd ≡ none
unfolding civ_frame
civ_frame-full cmd h = elim (Bool-cases (leb (length cmd) 28)) [
  | inl t ↦
      rw (put_bytes-eq command_header cmd (omega (arith, leb→le _ _ t)), civ_frame)
        (put_byte-full (command_header ++ cmd) civ_eom (omega arith))
  | inr f ↦
      rw
        (
          put_bytes-full command_header cmd (omega arith) (omega (arith, not_leb→lt _ _ f)),
          civ_frame,
        )
        refl
]

-- How many bytes of fill a buffer of `n` bytes takes.
abbrev fill : ℕ → ℕ
fill n = (4 - n % 4) % 4

filled : List ℕ → List ℕ
filled buf = buf ++ replicate (fill (length buf)) 0xff

filled_done : (buf : List ℕ) → length buf % 4 ≡ 0 → filled buf ≡ buf
unfolding filled
filled_done buf h =
    let none_left : fill (length buf) ≡ 0 = omega (arith, h) in
    ap (λ k. buf ++ replicate k 0xff) none_left ∙ append-nil buf

filled_more : (buf : List ℕ) → length buf % 4 ≢ 0 → filled (buf ++ (0xff ∷ [])) ≡ filled buf
unfolding filled
filled_more buf h =
    append_assoc buf (0xff ∷ []) (replicate (fill (length (buf ++ (0xff ∷ [])))) 0xff)
    ∙ ap (λ k. buf ++ replicate k 0xff) count
  where
    count : suc (fill (length (buf ++ (0xff ∷ [])))) ≡ fill (length buf)
    count = omega (arith, length-append buf (0xff ∷ []))

pad-eq :
    (fuel : ℕ) (buf : List ℕ)
    → fill (length buf) < fuel
    → length buf ≤ 32
    → pad fuel buf ≡ some (filled buf)
unfolding pad
pad-eq zero buf h l = absurd (omega arith)
pad-eq (suc fuel) buf h l = elim (Bool-cases (length buf % 4 == 0)) [
  | inl t ↦ rw (t, pad) (ap some (sym (filled_done buf ((==_iff _ _).0 t))))
  | inr f ↦
      let ragged : length buf % 4 ≢ 0 = ground arith in
      rw (f, pad)
        (rw (put_byte-eq buf 0xff (omega (arith, ragged)), pad)
          (pad-eq fuel (buf ++ (0xff ∷ [])) (omega (arith, length-append buf (0xff ∷ []), ragged))
              (omega (arith, length-append buf (0xff ∷ []), ragged))
            ∙ ap some (filled_more buf ragged)))
]

-- A command of up to 27 bytes goes out on the I/Q port as header, command, end of message and 0xff
-- up to a multiple of four bytes, 32 at most; a longer one overflows the buffer.
pub iq_frame_lem :
    (cmd : List ℕ)
    → ((length cmd ≤ 27)
        × (iq_frame cmd ≡ some (civ_message cmd ++ replicate (fill (length cmd + 5)) 0xff))
        × (length (civ_message cmd ++ replicate (fill (length cmd + 5)) 0xff) % 4 ≡ 0)
        × (length (civ_message cmd ++ replicate (fill (length cmd + 5)) 0xff) ≤ 32))
      ⊎ ((27 < length cmd) × (iq_frame cmd ≡ none))
unfolding iq_frame filled
iq_frame_lem cmd = elim (Bool-cases (leb (length cmd) 27)) [
  | inl t ↦
      let short : length cmd ≤ 27 = leb→le _ _ t in
      let size = length-civ_message cmd in
      let total = length-append (civ_message cmd) (replicate (fill (length cmd + 5)) 0xff) in
      let tail = length-replicate {A = ℕ} (fill (length cmd + 5)) 0xff in
      inl (
        short,
        rw (civ_frame-eq cmd short, iq_frame)
            (pad-eq 4 (civ_message cmd) (omega arith) (omega (arith, size, short))
              ∙ ap (λ k. some (civ_message cmd ++ replicate (fill k) 0xff)) size),
        omega (arith, size, total, tail),
        omega (arith, size, total, tail, short),
      )
  | inr f ↦
      let long : 27 < length cmd = not_leb→lt _ _ f in
      inr (long, rw (civ_frame-full cmd long, iq_frame) refl)
]

-- The radio's side: the bytes up to the first end of message.
pub up_to_eom : List ℕ → Option (List ℕ)
up_to_eom [] = none
up_to_eom (b ∷ bs) =
    let rest = Option.map (λ r. b ∷ r) (up_to_eom bs) in if b == civ_eom then some [] else rest

up_to_eom-append :
    (cmd rest : List ℕ)
    → All (λ b. b ≢ civ_eom) cmd
    → up_to_eom (cmd ++ (civ_eom ∷ rest)) ≡ some cmd
unfolding up_to_eom
up_to_eom-append [] rest h = refl
up_to_eom-append (b ∷ cmd) rest h = rw (up_to_eom-append cmd rest h.1, ==_no b civ_eom h.0) refl

-- Every command of at most 27 bytes with no end-of-message byte in it is sent behind the header,
-- and is what stands between the header and the first end of message of the bytes sent.
pub iq_frame-up_to_eom :
    (cmd : List ℕ)
    → length cmd ≤ 27
    → All (λ b. b ≢ civ_eom) cmd
    → (frame : List ℕ) × (iq_frame cmd ≡ some frame)
      × (take 4 frame ≡ command_header)
      × (up_to_eom (drop 4 frame) ≡ some cmd)
unfolding civ_message
iq_frame-up_to_eom cmd h n = elim (iq_frame_lem cmd) [
  | inl (_, e, _, _) ↦ (
    _,
    e,
    refl,
    rw (append_assoc cmd (civ_eom ∷ []) (replicate (fill (length cmd + 5)) 0xff))
        (up_to_eom-append cmd _ n),
  )
  | inr (long, _) ↦ absurd (omega arith)
]
