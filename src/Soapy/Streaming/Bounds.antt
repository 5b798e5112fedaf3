-- ===== src/Soapy/Streaming/Bounds.antt =====
-- `readStream` of src/IC7610SDR_Streaming.cpp stays inside the caller's array.
use ic7610iq.Prelude.{
  ℕ, ◌*◌, ◌/◌, ◌≤◌, ◌≡◌, inl, inr, refl, min, ℤ, pos, negsuc, false, if◌then◌else◌, String, str_eq,
  List, ltb, le→leb, Bool-cases, M, Outcome, returns, throws, undefined, ◌>>=◌, pure, Runs,
  Runs-bind, Runs-if, Runs-require, Runs-returns, arith,
}
use ic7610iq.Driver.{Ftd3xx}
use ic7610iq.Port.{Port}
use ic7610iq.Port.Data.{read_iq_data}
use ic7610iq.Port.Data.Bounds.{AtMost, Documented, read_iq_data-AtMost}
use ic7610iq.Soapy.{Api, Sdr, on_port}
use ic7610iq.Soapy.Streaming.{Filled, untouched, store_samples, read_stream, get_stream_mtu}

module _ {W D : Type 0} where
  put_back :
      {A : Type 0} (P : A → Port W → Type 0) (d : Sdr W D) (o : Outcome (Port W) A)
      → Runs P o
      → Runs
          (λ a e. (p : Port W) × (e ≡ record d { port = p }) × P a p)
          (elim o [
            | returns a p ↦ returns a (record d { port = p })
            | throws e p ↦ throws e (record d { port = p })
            | undefined ↦ undefined
          ])
  put_back P d (returns a p) h = (p, refl, h)
  put_back P d (throws e p) h = absurd h
  put_back P d undefined h = absurd h

  on_port-Runs :
      {A : Type 0} (P : A → Port W → Type 0) (d : Sdr W D) (m : M (Port W) A)
      → Runs P (m d.port)
      → Runs (λ a e. (p : Port W) × (e ≡ record d { port = p }) × P a p) (on_port m d)
  unfolding on_port
  on_port-Runs P d m h = put_back P d (m d.port) h

module _ {W D : Type 0} (ft : Ftd3xx W) (api : Api D) where
  -- The bytes of an element of each format.
  unfoldable pub element_size : String → ℕ
  element_size format =
      if str_eq format api.s16
      then 2
      else if str_eq format api.cs16
      then 4
      else if str_eq format api.cf32
      then 8
      else if str_eq format api.cf64
      then 16
      else 0

  store_samples-Runs :
      (format : String) (num_elems capacity n : ℕ) (bytes : List ℕ) (d : Sdr W D)
      → element_size format * num_elems ≤ capacity
      → n ≤ (if str_eq format api.s16 then num_elems / 2 else num_elems)
      → Runs (λ filled e. e ≡ d) (store_samples ft api format capacity n bytes d)
  unfolding store_samples element_size
  store_samples-Runs format num_elems capacity n bytes d room few =
      Runs-if (λ filled e. e ≡ d) (str_eq format api.s16) _ _ d
        (λ a.
          let room' : 2 * num_elems ≤ capacity = rw a at room in
          let few' : n ≤ num_elems / 2 = rw a at few in
          Runs-require (λ filled e. e ≡ d) _ _ d (le→leb (n * 4) capacity (omega arith)) refl)
        (λ a.
          let few' : n ≤ num_elems = rw a at few in
          Runs-if (λ filled e. e ≡ d) (str_eq format api.cs16) _ _ d
            (λ b.
              let room' : 4 * num_elems ≤ capacity = rw (a, b) at room in
              Runs-require (λ filled e. e ≡ d) _ _ d (le→leb (n * 4) capacity (omega arith)) refl)
            (λ b.
              Runs-if (λ filled e. e ≡ d) (str_eq format api.cf32) _ _ d
                (λ c.
                  let room' : 8 * num_elems ≤ capacity = rw (a, b, c) at room in
                  Runs-require (λ filled e. e ≡ d) _ _ d (le→leb (n * 8) capacity (omega arith))
                    refl)
                (λ c.
                  Runs-if (λ filled e. e ≡ d) (str_eq format api.cf64) _ _ d
                    (λ f.
                      let room' : 16 * num_elems ≤ capacity = rw (a, b, c, f) at room in
                      Runs-require (λ filled e. e ≡ d) _ _ d
                        (le→leb (n * 16) capacity (omega arith)) refl)
                    (λ f. refl))))

  asked-few :
      (format : String) (num_elems mtu : ℕ)
      → (if str_eq format api.s16 then min num_elems mtu / 2 else min num_elems mtu)
        ≤ (if str_eq format api.s16 then num_elems / 2 else num_elems)
  asked-few format num_elems mtu = elim (Bool-cases (str_eq format api.s16)) [
    | inl e ↦ rw e (omega arith)
    | inr e ↦ rw e (omega arith)
  ]

  -- What `readStream` does with what the port returned.
  abbrev give : String → ℕ → ℤ → List ℕ → M (Sdr W D) (ℤ × Filled)
  give format capacity samples bytes = elim samples [
    | negsuc n ↦ pure (negsuc n, untouched)
    | pos n ↦
        if ltb 0 n
        then (do filled ← store_samples ft api format capacity n bytes; pure (pos n, filled))
        else pure (pos n, untouched)
  ]

  give-AtMost :
      (format : String) (num_elems capacity k : ℕ) (samples : ℤ) (bytes : List ℕ) (d : Sdr W D)
      → element_size format * num_elems ≤ capacity
      → k ≤ (if str_eq format api.s16 then num_elems / 2 else num_elems)
      → AtMost k samples
      → Runs (λ (result, filled) e. AtMost num_elems result) (give format capacity samples bytes d)
  give-AtMost format num_elems capacity k (negsuc n) bytes d room few most = tt
  give-AtMost format num_elems capacity k (pos n) bytes d room few most =
      let all : n ≤ num_elems = elim (Bool-cases (str_eq format api.s16)) [
        | inl e ↦ (let f : k ≤ num_elems / 2 = rw e at few in omega (arith, f, most))
        | inr e ↦ (let f : k ≤ num_elems = rw e at few in omega (arith, f, most))
      ] in
      Runs-if (λ (result, filled) e. AtMost num_elems result) (ltb 0 n) _ _ d
        (λ _.
          Runs-bind (λ filled e. e ≡ d) (λ (result, filled) e. AtMost num_elems result)
            (store_samples ft api format capacity n bytes) (λ filled. pure (pos n, filled)) d
            (store_samples-Runs format num_elems capacity n bytes d room (omega (arith, most, few)))
            (λ filled e same. all))
        (λ _. all)

  -- When the library's reads keep to their documentation, `readStream` into an array that has room
  -- for `num_elems` elements of the stream's format returns, having stored nothing past its end, and
  -- reports at most `num_elems` elements or an error code.
  pub read_stream-fits :
      (num_elems capacity : ℕ) (d : Sdr W D)
      → Documented ft
      → element_size d.rx_format * num_elems ≤ capacity
      → (samples : ℤ) × (filled : Filled) × (d' : Sdr W D) × (read_stream ft api num_elems capacity
            d
          ≡ returns (samples, filled) d')
        × AtMost num_elems samples
  unfolding read_stream
  read_stream-fits num_elems capacity d h room =
      let mtu : ℕ = get_stream_mtu ft api d in
      let asked : ℕ =
        if str_eq d.rx_format api.s16 then min num_elems mtu / 2 else min num_elems mtu in
      let ((samples, filled), d', e, most) =
        Runs-returns (λ (result, filled) e. AtMost num_elems result)
          (read_stream ft api num_elems capacity d)
          (Runs-bind
            (λ (samples, bytes) e.
              (p : Port W) × (e ≡ record d { port = p }) × AtMost asked samples)
            (λ (result, filled) e. AtMost num_elems result) (on_port (read_iq_data ft asked false))
            (λ (samples, bytes). give d.rx_format capacity samples bytes) d
            (on_port-Runs (λ (samples, bytes) q. AtMost asked samples) d
              (read_iq_data ft asked false) (read_iq_data-AtMost ft asked d.port h))
            (λ (samples, bytes) e (p, same, k).
              give-AtMost d.rx_format num_elems capacity asked samples bytes e room
                (asked-few d.rx_format num_elems mtu) k)) in
      (samples, filled, d', e, most)
