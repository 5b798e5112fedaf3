-- ===== src/Tools/Options.antt =====
-- What the options of the programs come to.
use ic7610iq.Prelude.{
  ◌≡◌, ◌⊎◌, inl, inr, refl, Option, none, some, List, [], ◌∷◌, String, str_eq, is_zero, false, ◌≤◌,
  Bool-cases, Option-cases, arith,
}
use ic7610iq.Tools.{
  Letter, option_f, option_g, option_i, option_t, option_v, option_h, missing_argument,
  unrecognized, Numbers, Settings, Parsed, usage, parsed, bad_number, vfo_named, with_data_type,
  push_type, frequency_option, gain_option, server_option, push_option, parse, server_port, sub_vfo,
}

-- What a program relies on: one of the two receivers, and a type that it knows, or none yet.
abbrev pub KnownType : String → Type 0
KnownType t = (t ≡ "") ⊎ ((t ≡ "CS16") ⊎ ((t ≡ "CF32") ⊎ (t ≡ "CF64")))

abbrev pub Known : Settings → Type 0
Known s = (s.vfo ≤ sub_vfo) × KnownType s.data_type

-- What holds of the settings, if options come to any.
abbrev pub Gives : (Settings → Type 0) → Parsed → Type 0
Gives P usage = Unit
Gives P (parsed s) = P s
Gives P bad_number = Unit

Gives-then :
    (P Q : Settings → Type 0) (r : Parsed) (f : Settings → Parsed)
    → Gives P r
    → ((s : Settings) → P s → Gives Q (f s))
    → Gives Q (elim r [ usage ↦ usage | bad_number ↦ bad_number | parsed s ↦ f s ])
Gives-then P Q usage f g h = tt
Gives-then P Q (parsed s) f g h = h s g
Gives-then P Q bad_number f g h = tt

vfo_named-le : (name : String) → vfo_named name ≤ sub_vfo
unfolding vfo_named
vfo_named-le name = ground arith

push_type-KnownType : (optarg : String) → KnownType (push_type optarg)
unfolding push_type
push_type-KnownType optarg = elim (Bool-cases (str_eq optarg "CS16")) [
  | inl t ↦ rw t (inr (inl refl))
  | inr f ↦ elim (Bool-cases (str_eq optarg "CF32")) [
    | inl t ↦ rw (f, t) (inr (inr (inl refl)))
    | inr g ↦ elim (Bool-cases (str_eq optarg "CF64")) [
      | inl t ↦ rw (f, g, t) (inr (inr (inr refl)))
      | inr h ↦ rw (f, g, h) (inr (inl refl))
    ]
  ]
]

-- TCPServer knows no type but the one that it falls back on.
abbrev pub Untyped : Settings → Type 0
Untyped s = (s.vfo ≤ sub_vfo) × (s.data_type ≡ "")

-- The port that TCPServer listens on is never 0.
abbrev pub Listening : Settings → Type 0
Listening s = Untyped s × (is_zero s.port ≡ false)

module _ (numbers : Numbers) where
  frequency_option-Known :
      (optarg : String) (s : Settings) → Known s → Gives Known (frequency_option numbers optarg s)
  unfolding frequency_option
  frequency_option-Known optarg s k = elim (Option-cases (numbers.to_frequency optarg)) [
    | inl e ↦ rw (e, Gives, frequency_option) tt
    | inr (f, e) ↦ rw (e, Gives, frequency_option) k
  ]

  gain_option-Known :
      (optarg : String) (s : Settings) → Known s → Gives Known (gain_option numbers optarg s)
  unfolding gain_option
  gain_option-Known optarg s k = elim (Option-cases (numbers.to_gain optarg)) [
    | inl e ↦ rw (e, Gives, gain_option) tt
    | inr (g, e) ↦ rw (e, Gives, gain_option) k
  ]

  push_option-Known :
      (letter : Letter) (optarg : String) (s : Settings)
      → Known s
      → Gives Known (push_option numbers letter optarg s)
  unfolding push_option
  push_option-Known option_f optarg s k = frequency_option-Known optarg s k
  push_option-Known option_g optarg s k = gain_option-Known optarg s k
  push_option-Known option_t optarg s (v, t) = (v, push_type-KnownType optarg)
  push_option-Known option_v optarg s (v, t) = (vfo_named-le optarg, t)
  push_option-Known option_i optarg s k = tt
  push_option-Known option_h optarg s k = tt
  push_option-Known missing_argument optarg s k = tt
  push_option-Known unrecognized optarg s k = tt

  -- From settings with a known receiver and data type, the options of zmqPush, whatever they are, exit
  -- by `usage`, have a number that does not fit, or give settings with a known receiver and data
  -- type.
  pub parse-Known :
      (options : List (Letter × String)) (s : Settings)
      → Known s
      → Gives Known (parse (push_option numbers) options s)
  unfolding parse
  parse-Known [] s k = k
  parse-Known ((letter, optarg) ∷ rest) s k =
      Gives-then Known Known (push_option numbers letter optarg s)
        (parse (push_option numbers) rest) (push_option-Known letter optarg s k) (parse-Known rest)

  server_option-Untyped :
      (letter : Letter) (optarg : String) (s : Settings)
      → Untyped s
      → Gives Untyped (server_option numbers letter optarg s)
  unfolding server_option frequency_option gain_option
  server_option-Untyped option_f optarg s k = elim (Option-cases (numbers.to_frequency optarg)) [
    | inl e ↦ rw (e, Gives) tt
    | inr (f, e) ↦ rw (e, Gives) k
  ]
  server_option-Untyped option_g optarg s k = elim (Option-cases (numbers.to_gain optarg)) [
    | inl e ↦ rw (e, Gives) tt
    | inr (g, e) ↦ rw (e, Gives) k
  ]
  server_option-Untyped option_v optarg s (v, t) = (vfo_named-le optarg, t)
  server_option-Untyped option_t optarg s k = tt
  server_option-Untyped option_i optarg s k = tt
  server_option-Untyped option_h optarg s k = tt
  server_option-Untyped missing_argument optarg s k = tt
  server_option-Untyped unrecognized optarg s k = tt

  pub parse-Untyped :
      (options : List (Letter × String)) (s : Settings)
      → Untyped s
      → Gives Untyped (parse (server_option numbers) options s)
  unfolding parse
  parse-Untyped [] s k = k
  parse-Untyped ((letter, optarg) ∷ rest) s k =
      Gives-then Untyped Untyped (server_option numbers letter optarg s)
        (parse (server_option numbers) rest) (server_option-Untyped letter optarg s k)
        (parse-Untyped rest)

  -- The one operand of TCPServer never matters: whatever port it names, the outcome is the same.
  pub server_port-ignored :
      (optarg : Option String) (operand other : String) (s : Settings)
      → server_port numbers optarg (operand ∷ []) s ≡ server_port numbers optarg (other ∷ []) s
  unfolding server_port
  server_port-ignored none operand other s = refl
  server_port-ignored (some last) operand other s = refl

  pub server_port-Listening :
      (optarg : Option String) (operands : List String) (s : Settings)
      → Untyped s
      → Gives Listening (server_port numbers optarg operands s)
  unfolding server_port
  server_port-Listening optarg [] s k = (k, refl)
  server_port-Listening none (operand ∷ []) s k = tt
  server_port-Listening (some last) (operand ∷ []) s k = elim (Option-cases (numbers.to_int last)) [
    | inl e ↦ rw (e, Gives) tt
    | inr (n, e) ↦
        rw (e, Gives)
          (elim (Bool-cases (is_zero n)) [ inl z ↦ rw z (k, refl) | inr z ↦ rw z (k, z) ])
  ]
  server_port-Listening optarg (operand ∷ other ∷ rest) s k = tt

-- The type that a program falls back on.
pub with_data_type-eq :
    (s : Settings) → s.data_type ≡ "" → with_data_type s ≡ record s { data_type = "CS16" }
unfolding with_data_type
with_data_type-eq s e = rw e refl
