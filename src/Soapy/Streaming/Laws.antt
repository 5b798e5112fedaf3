-- ===== src/Soapy/Streaming/Laws.antt =====
-- What the stream's methods promise: the format they choose, and what a read stores.
use ic7610iq.Prelude.{
  ℕ, ◌≡◌, ◌⊎◌, refl, inl, inr, ℤ, int_eq, true, ◌||◌, not, List, [], ◌∷◌, ltb, ◌==◌, Bool-cases,
  if◌then◌else◌, length, clash, String, str_eq, returns, throws, Error,
}
use text.Mathlib.TextEquality.{eq_iff}
use ic7610iq.Driver.{Ftd3xx}
use ic7610iq.Soapy.{Api, Sdr}
use ic7610iq.Soapy.Streaming.{valid_format, format_index, setup_stream}

module _ {W D : Type 0} (ft : Ftd3xx W) (api : Api D) where
  -- One of the four formats of `getStreamFormats`.
  pub Supported : String → Type 0
  Supported format =
      (str_eq format api.s16 ≡ true)
      ⊎ (str_eq format api.cs16 ≡ true)
      ⊎ (str_eq format api.cf32 ≡ true)
      ⊎ (str_eq format api.cf64 ≡ true)

  valid_format-Supported :
      (format : String)
      → ltb 0 (format_index ft api (valid_format ft api format)) ≡ true
      → Supported format
  unfolding Supported valid_format format_index
  valid_format-Supported format h = elim (Bool-cases (str_eq format api.s16)) [
    | inl t ↦ inl t
    | inr f ↦ elim (Bool-cases (str_eq format api.cs16)) [
      | inl t ↦ inr (inl t)
      | inr g ↦ elim (Bool-cases (str_eq format api.cf32)) [
        | inl t ↦ inr (inr (inl t))
        | inr i ↦ elim (Bool-cases (str_eq format api.cf64)) [
          | inl t ↦ inr (inr (inr t))
          | inr j ↦ absurd (clash _ (rw (f, g, i, j) at h) refl)
        ]
      ]
    ]
  ]

  chosen_format : String → String
  chosen_format format =
      if ltb 0 (format_index ft api (valid_format ft api format)) then format else api.cs16

  chosen_format-Supported : (format : String) → Supported (chosen_format format)
  unfolding Supported chosen_format
  chosen_format-Supported format =
      elim (Bool-cases (ltb 0 (format_index ft api (valid_format ft api format)))) [
        | inl t ↦ rw t (valid_format-Supported format t)
        | inr f ↦ rw f (inr (inl ((eq_iff api.cs16 api.cs16).1 refl)))
      ]

  -- `setupStream` leaves the stream with a format of `getStreamFormats`, and the rest of the
  -- device as it was, or it throws and changes nothing.
  pub setup_stream-Supported :
      (direction : ℤ) (format : String) (channels : List ℕ) (d : Sdr W D)
      → ((chosen : String) × (setup_stream ft api direction format channels d
            ≡ returns tt (record d { rx_format = chosen }))
          × Supported chosen)
        ⊎ ((e : Error) × (setup_stream ft api direction format channels d ≡ throws e d))
  unfolding setup_stream chosen_format
  setup_stream-Supported direction format [] d = elim (Bool-cases (int_eq direction api.rx)) [
    | inr f ↦ inr (Error.rx_only, rw f refl)
    | inl t ↦ inl (chosen_format format, rw t refl, chosen_format-Supported format)
  ]
  setup_stream-Supported direction format (channel ∷ rest) d =
      elim (Bool-cases (int_eq direction api.rx)) [
        | inr f ↦ inr (Error.rx_only, rw f refl)
        | inl t ↦ elim (Bool-cases (ltb 0 (length rest) || not (channel == 0))) [
          | inl bad ↦ inr (Error.invalid_channel, rw (t, bad) refl)
          | inr ok ↦ inl (chosen_format format, rw (t, ok) refl, chosen_format-Supported format)
        ]
      ]
