-- ===== src/Client/Tuntap/Setup.antt =====
-- The descriptors of setup_tuntap_device: none is left open on any error path.
use Prim.Native.Nat.{bit_or}
use wlan_bridge.Common.{
  ℕ, ◌≡◌, refl, sym, ap, ◌∙◌, inl, inr, true, List, [], ◌∷◌, ◌++◌, not, ◌==◌, if◌then◌else◌,
  Bool-cases, ℤ, ◌==ℤ◌, ==ℤ_iff, is_neg,
}
use Prim.Native.Nat.{bit_and}
use mathlib.Core.List.{append_assoc, append-nil}
use wlan_bridge.Client.{
  tunsetiff, tunsetnocsum, tunsetdebug, tunsetpersist, siocsifhwaddr, siocsifmtu, siocgifflags,
  siocsifflags, siocgifindex, Call, open_tun, ioctl, socket, close, Kernel, Client, called,
}
use wlan_bridge.Client.Tuntap.{
  iff_up, ifname, tap_flags, generate_random_mac, tap_alloc, give_up, check_index, bring_up,
  set_mtu, setup_tuntap_device,
}

-- Open descriptors, the last one first. A negative result opens none.
abbrev pub acquire : ℤ → List ℤ → List ℤ
acquire fd fds = if is_neg fd then fds else fd ∷ fds

unfoldable remove : ℤ → List ℤ → List ℤ
remove fd [] = []
remove fd (x ∷ fds) = if x ==ℤ fd then fds else x ∷ remove fd fds

-- To close a descriptor that is not open has no effect.
unfoldable pub release : ℤ → List ℤ → List ℤ
unfolding remove
release fd fds = if is_neg fd then fds else remove fd fds

-- What a call with a result does to them: the device file and sockets are opened.
abbrev pub after : ℤ → Call → List ℤ → List ℤ
after ret open_tun fds = acquire ret fds
after ret socket fds = acquire ret fds
after ret (close fd) fds = release fd fds
after ret _ fds = fds

-- Those that some calls behind others leave.
unfoldable open_after : Kernel → (before new : List Call) → List ℤ → List ℤ
open_after kernel before [] fds = fds
open_after kernel before (c ∷ new) fds =
    let before' = before ++ c ∷ [] in
    open_after kernel before' new (after (kernel.ret before') c fds)

-- Those that a log of calls leaves, where none was open before.
unfoldable pub held : Kernel → List Call → List ℤ
unfolding open_after
held kernel log = open_after kernel [] log []

-- A function that has returned a descriptor leaves it open beside those that were; any other result
-- leaves just those.
abbrev pub Balanced : Kernel → List ℤ → ℤ × Client → Type 0
Balanced kernel fds r = held kernel r.1.log ≡ acquire r.0 fds

remove_self : (fd : ℤ) (fds : List ℤ) → remove fd (fd ∷ fds) ≡ fds
unfolding remove
remove_self fd fds = let e : (fd ==ℤ fd) ≡ true = (==ℤ_iff fd fd).1 refl in rw e refl

pub release-acquire : (fd : ℤ) (fds : List ℤ) → release fd (acquire fd fds) ≡ fds
unfolding release
release-acquire fd fds = elim (Bool-cases (is_neg fd)) [
  | inl e ↦ rw e refl
  | inr e ↦ rw e (remove_self fd fds)
]

-- The descriptor may be below another one.
pub release_below :
    (fd top : ℤ) (fds : List ℤ) → release fd (acquire top (acquire fd fds)) ≡ acquire top fds
unfolding release remove
release_below fd top fds = elim (Bool-cases (is_neg top)) [
  | inl t ↦ rw t (release-acquire fd fds)
  | inr t ↦ elim (Bool-cases (is_neg fd)) [
    | inl e ↦ rw (t, e) refl
    | inr e ↦ elim (Bool-cases (top ==ℤ fd)) [
      | inl q ↦ rw (t, e, q) (ap (λ x. x ∷ fds) (sym ((==ℤ_iff top fd).0 q)))
      | inr q ↦ rw (t, e, q) (ap (λ l. top ∷ l) (remove_self fd fds))
    ]
  ]
]

module _ (kernel : Kernel) where
  open_after-append :
      (before new : List Call) (c : Call) (fds : List ℤ)
      → open_after kernel before (new ++ c ∷ []) fds
        ≡ after (kernel.ret ((before ++ new) ++ c ∷ [])) c (open_after kernel before new fds)
  unfolding open_after
  open_after-append before [] c fds =
      ap (λ l. after (kernel.ret (l ++ c ∷ [])) c fds) (sym (append-nil before))
  open_after-append before (d ∷ new) c fds =
      let before' = before ++ d ∷ [] in
      let fds' = after (kernel.ret before') d fds in
      open_after-append before' new c fds'
      ∙ ap (λ l. after (kernel.ret (l ++ c ∷ [])) c (open_after kernel before' new fds'))
          (append_assoc before (d ∷ []) new)

  -- What one more call does.
  pub held-called :
      (log : List Call) (c : Call)
      → held kernel (log ++ c ∷ []) ≡ after (kernel.ret (log ++ c ∷ [])) c (held kernel log)
  unfolding held
  held-called log c = open_after-append [] log c []

  pub held-close :
      (log : List Call) (fd : ℤ) (fds : List ℤ)
      → held kernel log ≡ acquire fd fds
      → held kernel (log ++ close fd ∷ []) ≡ fds
  held-close log fd fds h = held-called log (close fd) ∙ ap (release fd) h ∙ release-acquire fd fds

  give_up-Balanced :
      (s : Client) (gen_fd fd : ℤ) (fds : List ℤ)
      → held kernel s.log ≡ acquire gen_fd (acquire fd fds)
      → Balanced kernel fds (give_up kernel s gen_fd fd)
  unfolding give_up
  give_up-Balanced s gen_fd fd fds h =
      held-close (s.log ++ close gen_fd ∷ []) fd fds (held-close s.log gen_fd (acquire fd fds) h)

  module _ (fd : ℤ) (fds : List ℤ) where
    check_index-Balanced :
        (s : Client) (name : List ℕ) (gen_fd : ℤ)
        → held kernel s.log ≡ acquire gen_fd (acquire fd fds)
        → Balanced kernel fds (check_index kernel s name gen_fd fd)
    unfolding check_index
    check_index-Balanced s name gen_fd h =
        let c = ioctl gen_fd (siocgifindex name) in
        let s' = called s c in
        let h' = held-called s.log c ∙ h in
        elim (Bool-cases (is_neg (kernel.ret s'.log))) [
          | inl e ↦ rw e (give_up-Balanced s' gen_fd fd fds h')
          | inr e ↦ rw e (held-close s'.log gen_fd (acquire fd fds) h')
        ]

    bring_up-Balanced :
        (s : Client) (name : List ℕ) (gen_fd : ℤ)
        → held kernel s.log ≡ acquire gen_fd (acquire fd fds)
        → Balanced kernel fds (bring_up kernel s name gen_fd fd)
    unfolding bring_up
    bring_up-Balanced s name gen_fd h =
        let c = ioctl gen_fd (siocgifflags name) in
        let s1 = called s c in
        let flags = kernel.flags_of s1.log in
        let d = ioctl gen_fd (siocsifflags name (bit_or flags iff_up)) in
        let s2 = called s1 d in
        let h1 = held-called s.log c ∙ h in
        let h2 = held-called s1.log d ∙ h1 in
        elim (Bool-cases (is_neg (kernel.ret s1.log))) [
          | inl e ↦ rw e (give_up-Balanced s1 gen_fd fd fds h1)
          | inr e ↦ elim (Bool-cases (not (bit_and flags iff_up == 0))) [
            | inl f ↦ rw (e, f) (check_index-Balanced s1 name gen_fd h1)
            | inr f ↦ elim (Bool-cases (is_neg (kernel.ret s2.log))) [
              | inl g ↦ rw (e, f, g) (give_up-Balanced s2 gen_fd fd fds h2)
              | inr g ↦ rw (e, f, g) (check_index-Balanced s2 name gen_fd h2)
            ]
          ]
        ]

    set_mtu-Balanced :
        (s : Client) (name : List ℕ)
        → held kernel s.log ≡ acquire fd fds
        → Balanced kernel fds (set_mtu kernel s name fd)
    unfolding set_mtu
    set_mtu-Balanced s name h =
        let s1 = called s socket in
        let gen_fd = kernel.ret s1.log in
        let d = ioctl gen_fd (siocsifmtu name 1500) in
        let s2 = called s1 d in
        let h2 = held-called s1.log d ∙ held-called s.log socket ∙ ap (acquire gen_fd) h in
        elim (Bool-cases (is_neg (kernel.ret s2.log))) [
          | inl e ↦ rw e (give_up-Balanced s2 gen_fd fd fds h2)
          | inr e ↦ rw e (bring_up-Balanced s2 name gen_fd h2)
        ]

  tap_alloc-Balanced :
      (s : Client) (dev : List ℕ) (flags : ℕ)
      → let (fd, name, s') = tap_alloc kernel s dev flags in
        Balanced kernel (held kernel s.log) (fd, s')
  unfolding tap_alloc
  tap_alloc-Balanced s dev flags =
      let s1 = called s open_tun in
      let fd = kernel.ret s1.log in
      let c = ioctl fd (tunsetiff (ifname dev) flags) in
      let s2 = called s1 c in
      let s3 = called s2 (ioctl fd tunsetnocsum) in
      let h1 = held-called s.log open_tun in
      let h2 = held-called s1.log c ∙ h1 in
      elim (Bool-cases (is_neg fd)) [
        | inl e ↦ rw e (h1 ∙ rw e refl)
        | inr e ↦ elim (Bool-cases (is_neg (kernel.ret s2.log))) [
          | inl f ↦ rw (e, f) (held-close s2.log fd (held kernel s.log) h2)
          | inr f ↦
              rw (e, f)
                (held-called s3.log (ioctl fd tunsetdebug)
                  ∙ held-called s2.log (ioctl fd tunsetnocsum)
                  ∙ h2
                  ∙ rw e refl)
        ]
      ]

  -- After setup_tuntap_device just those descriptors are open that were open before, and the one that
  -- it returns, if its result is not negative: on every error path it has closed each descriptor that
  -- it had opened.
  pub setup-Balanced :
      (s : Client) (rand : ℕ → ℕ) (dev : List ℕ)
      → Balanced kernel (held kernel s.log) (setup_tuntap_device kernel s rand dev)
  unfolding setup_tuntap_device
  setup-Balanced s rand dev =
      let (fd, name, s1) = tap_alloc kernel s (ifname dev) tap_flags in
      let fds = held kernel s.log in
      let c = ioctl fd (siocsifhwaddr (ifname name) (generate_random_mac rand)) in
      let s2 = called s1 c in
      let s3 = called s2 (ioctl fd tunsetpersist) in
      let h1 = tap_alloc-Balanced s (ifname dev) tap_flags in
      let h2 = held-called s1.log c ∙ h1 in
      elim (Bool-cases (is_neg fd)) [
        | inl e ↦ rw e (h1 ∙ rw e refl)
        | inr e ↦ elim (Bool-cases (is_neg (kernel.ret s2.log))) [
          | inl f ↦ rw (e, f) (held-close s2.log fd fds h2)
          | inr f ↦
              rw (e, f)
                (set_mtu-Balanced fd fds s3 (ifname name)
                  (held-called s2.log (ioctl fd tunsetpersist) ∙ h2))
        ]
      ]
