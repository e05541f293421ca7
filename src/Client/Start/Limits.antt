-- ===== src/Client/Start/Limits.antt =====
-- The options of wlan_br_client/main.c and the buffers that hold their arguments.
use mathlib.Core.Path.{subst}
use wlan_bridge.Common.{
  ℕ, ◌<◌, ◌≡◌, refl, sym, ◌∙◌, ◌↔◌, inl, inr, Bool, true, false, ◌&&◌, List, [], ◌∷◌, arith, ltb,
  Bool-cases, length,
}
use wlan_bridge.Cli.{Text}
use wlan_bridge.Client.Start.{
  Opt, help, server, tap, other, Options, exits, overruns, names, server_size, tap_size,
  read_options, server_ip, default_tap, or_default, options_of,
}

-- Each argument up to the first -h, with its final NUL, is no longer than its buffer.
unfoldable pub fits : List Opt → Bool
fits [] = true
fits (help ∷ rest) = true
fits (server optarg ∷ rest) = ltb (length optarg) server_size && fits rest
fits (tap optarg ∷ rest) = ltb (length optarg) tap_size && fits rest
fits (other ∷ rest) = fits rest

-- A result whose names fit their buffers.
abbrev Within : Options → Type 0
Within exits = Unit {0}
Within overruns = Unit {0}
Within (names server_addr tap_name) =
    (length server_addr < server_size) × (length tap_name < tap_size)

read_options-Within :
    (a b : Text) (opts : List Opt)
    → length a < server_size
    → length b < tap_size
    → Within (read_options a b opts)
unfolding read_options
read_options-Within a b [] h k = (h, k)
read_options-Within a b (help ∷ rest) h k = tt
read_options-Within a b (server s ∷ rest) h k = elim (Bool-cases (ltb (length s) server_size)) [
  | inl e ↦ rw e (read_options-Within s b rest (ground arith) k)
  | inr e ↦ rw e tt
]
read_options-Within a b (tap t ∷ rest) h k = elim (Bool-cases (ltb (length t) tap_size)) [
  | inl e ↦ rw e (read_options-Within a t rest h (ground arith))
  | inr e ↦ rw e tt
]
read_options-Within a b (other ∷ rest) h k = read_options-Within a b rest h k

read_options-overruns :
    (a b : Text) (opts : List Opt) → (read_options a b opts ≡ overruns) ↔ (fits opts ≡ false)
unfolding read_options fits
read_options-overruns a b [] = (λ h. cc, λ h. cc)
read_options-overruns a b (help ∷ rest) = (λ h. cc, λ h. cc)
read_options-overruns a b (server s ∷ rest) =
    let ih = read_options-overruns s b rest in
    (λ h. ground (arith, h, ih.0), λ h. ground (arith, h, ih.1))
read_options-overruns a b (tap t ∷ rest) =
    let ih = read_options-overruns a t rest in
    (λ h. ground (arith, h, ih.0), λ h. ground (arith, h, ih.1))
read_options-overruns a b (other ∷ rest) = read_options-overruns a b rest

or_default-length :
    (name default : Text) (n : ℕ)
    → length name < n
    → 0 < length default
    → length default < n
    → (0 < length (or_default name default)) × (length (or_default name default) < n)
unfolding or_default
or_default-length name default n h z k = ground (arith, h, z, k)

-- What the options lead to, by what their loop does.
options_step :
    (opts : List Opt) (o : Options)
    → read_options [] [] opts ≡ o
    → (options_of opts ≡ overruns ↔ o ≡ overruns)
      × ((a b : Text)
          → options_of opts ≡ names a b
          → (0 < length a) × (length a < 20) × (0 < length b) × (length b < 16))
unfolding options_of
options_step opts exits e =
    let f : options_of opts ≡ exits = rw (e, options_of) refl in ((λ h. cc, λ h. cc), λ a b h. cc)
options_step opts overruns e =
    let f : options_of opts ≡ overruns = rw (e, options_of) refl in
    ((λ h. refl, λ h. f), λ a b h. cc)
options_step opts (names s t) e =
    let f : options_of opts ≡ names (or_default s server_ip) (or_default t default_tap) =
      rw (e, options_of) refl in
    let w : Within (names s t) =
      subst Within e (read_options-Within [] [] opts (omega arith) (omega arith)) in
    let p = or_default-length s server_ip 20 (w.0) (omega arith) (omega arith) in
    let q = or_default-length t default_tap 16 (w.1) (omega arith) (omega arith) in
    (
      (λ h. cc, λ h. cc),
      λ a b h.
          let g : names a b ≡ names (or_default s server_ip) (or_default t default_tap) =
            sym h ∙ f in
          let ga : a ≡ or_default s server_ip = cc in
          let gb : b ≡ or_default t default_tap = cc in rw (ga, gb) (p.0, p.1, q.0, q.1),
    )

-- The options overrun a buffer exactly when an argument before any -h is too long for its buffer, of 20
-- characters for the server and 16 for the device; otherwise both names are set to texts that are not
-- empty and fit, unless -h ends the program.
pub options_bounds :
    (opts : List Opt)
    → ((options_of opts ≡ overruns) ↔ (fits opts ≡ false))
      × ((server_addr tap_name : Text)
          → options_of opts ≡ names server_addr tap_name
          → (0 < length server_addr)
            × (length server_addr < 20)
            × (0 < length tap_name)
            × (length tap_name < 16))
options_bounds opts =
    let r = options_step opts (read_options [] [] opts) refl in
    let o = read_options-overruns [] [] opts in ((λ h. o.0 (r.0.0 h), λ h. r.0.1 (o.1 h)), r.1)
