-- ===== src/Main/Arguments.antt =====
-- The ports that the settings hold.
use apk.Base.{
  ℕ, ◌^◌, ◌<◌, ◌≡◌, sym, some, List, [], ◌∷◌, arith, Option-cases, inl, inr, subst, some_inj,
}
use apk.Base.Text.{Str}
use apk.Std.Stoi.{ℤ, pos, negsuc, stoi, cast_unsigned}
use apk.Main.{
  Environment, port_of, port_or, Settings, environment_settings, Flag, port, ws_port, db_url, redis,
  jwt, flag_of, apply_flag, apply_arguments, settings,
}

abbrev pub PortsFit : Settings → Type 0
PortsFit s = (s.http_port < 2 ^ 16) × (s.ws_port < 2 ^ 16)

cast_fits : (n : ℤ) → cast_unsigned (2 ^ 16) n < 2 ^ 16
cast_fits (pos n) = omega arith
cast_fits (negsuc n) = omega arith

port_of-fits : (text : Str) (n : ℕ) → port_of text ≡ some n → n < 2 ^ 16
port_of-fits text n h = elim (Option-cases (stoi 10 text)) [
  | inl e ↦ absurd (ground arith)
  | inr (z, e) ↦
      let is_n : cast_unsigned (2 ^ 16) z ≡ n = ground arith in rw (sym is_n) (cast_fits z)
]

port_or-fits : (text : Str) (fallback : ℕ) → fallback < 2 ^ 16 → port_or text fallback < 2 ^ 16
unfolding port_or
port_or-fits text fallback h = elim (Option-cases (port_of text)) [
  | inl e ↦ rw (port_or, e) h
  | inr (n, e) ↦ rw (port_or, e) (port_of-fits text n e)
]

apply_flag-PortsFit :
    (flag : Flag) (value : Str) (s t : Settings)
    → PortsFit s
    → apply_flag flag value s ≡ some t
    → PortsFit t
unfolding apply_flag
apply_flag-PortsFit port value s t fit h = elim (Option-cases (port_of value)) [
  | inl e ↦ absurd (ground arith)
  | inr (n, e) ↦
      let is_t : record s { http_port = n } ≡ t = ground arith in
      subst PortsFit is_t (port_of-fits value n e, fit.1)
]
apply_flag-PortsFit ws_port value s t fit h = elim (Option-cases (port_of value)) [
  | inl e ↦ absurd (ground arith)
  | inr (n, e) ↦
      let is_t : record s { ws_port = n } ≡ t = ground arith in
      subst PortsFit is_t (fit.0, port_of-fits value n e)
]
apply_flag-PortsFit db_url value s t fit h = subst PortsFit (some_inj h) fit
apply_flag-PortsFit redis value s t fit h = subst PortsFit (some_inj h) fit
apply_flag-PortsFit jwt value s t fit h = subst PortsFit (some_inj h) fit

apply_arguments-PortsFit :
    (args : List Str) (s t : Settings) → PortsFit s → apply_arguments args s ≡ some t → PortsFit t
unfolding apply_arguments
apply_arguments-PortsFit [] s t fit h = subst PortsFit (some_inj h) fit
apply_arguments-PortsFit (arg ∷ []) s t fit h = subst PortsFit (some_inj h) fit
apply_arguments-PortsFit (arg ∷ value ∷ rest) s t fit h = elim (Option-cases (flag_of arg)) [
  | inl e ↦ apply_arguments-PortsFit (value ∷ rest) s t fit (ground arith)
  | inr (flag, e) ↦ elim (Option-cases (apply_flag flag value s)) [
    | inl f ↦ absurd (ground arith)
    | inr (u, f) ↦
        apply_arguments-PortsFit rest u t (apply_flag-PortsFit flag value s u fit f) (ground arith)
  ]
]

-- Whatever the environment and the arguments hold: where the settings are read at all, both ports
-- are 16-bit numbers.
settings-PortsFit :
    (getenv : Environment) (args : List Str) (s : Settings)
    → settings getenv args ≡ some s
    → PortsFit s
unfolding settings environment_settings
settings-PortsFit getenv args s h =
    apply_arguments-PortsFit args (environment_settings getenv) s
      (port_or-fits _ 8080 (omega arith), port_or-fits _ 8000 (omega arith)) h
