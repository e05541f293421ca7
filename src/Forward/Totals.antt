-- ===== src/Forward/Totals.antt =====
-- What statistics.c ought to count for an address, read off the calls that the program makes and the
-- kernel's answers to them.
use wlan_bridge.Common.{
  ℕ, ◌+◌, ◌≡◌, refl, Bool, true, false, ◌&&◌, List, [], ◌∷◌, ◌++◌, arith, length, take, ◌==◌,
  if◌then◌else◌, pos, ◌==ℤ◌,
}
use mathlib.Core.List.{append_assoc, append-nil}
use wlan_bridge.Net.{Datagram}
use wlan_bridge.Udp.{Call, recvmmsg, sendto, sendmmsg, usleep, Kernel, Arrival, nothing}

-- A frame weighs 1 in the packets, and its length in the bytes.
abbrev pub one : ℕ → ℕ
one len = 1

abbrev pub bytes : ℕ → ℕ
bytes len = len

-- The sum over the frames of an address.
unfoldable pub total : (ℕ → ℕ) → ℕ → List Datagram → ℕ
total weight a [] = 0
total weight a (d ∷ ds) = (if d.addr.s_addr == a then weight d.len else 0) + total weight a ds

pub total-append :
    (weight : ℕ → ℕ) (a : ℕ) (xs ys : List Datagram)
    → total weight a (xs ++ ys) ≡ total weight a xs + total weight a ys
unfolding total
total-append weight a [] ys = omega arith
total-append weight a (d ∷ xs) ys = omega (arith, total-append weight a xs ys)

-- The sum over what arrived from an address, as much of it as the buffers take.
unfoldable pub arrived : (ℕ → ℕ) → ℕ → (max_len : ℕ) → List Arrival → ℕ
arrived weight a max_len [] = 0
arrived weight a max_len (x ∷ xs) =
    (if x.from.s_addr == a then weight (length (take max_len x.bytes)) else 0)
    + arrived weight a max_len xs

unfoldable pub sleeps : Call → Bool
sleeps (usleep n) = true
sleeps _ = false

module _ (kernel : Kernel) (weight : ℕ → ℕ) (a : ℕ) where
  -- What a read finds from the address.
  unfoldable pub came : Bool → List Call → Call → ℕ
  came slept log (recvmmsg fd max_len n) =
      let r = kernel.recv_ret log in if nothing r then 0 else arrived weight a max_len r.arrivals
  came slept log _ = 0

  -- What is sent to the address: by sendto, where it returns the frame's length; by sendmmsg whatever
  -- it returns, but for the second try behind a usleep.
  unfoldable pub went : Bool → List Call → Call → ℕ
  went slept log (sendto fd d) =
      if (kernel.sendto_ret log ==ℤ pos d.len) && (d.addr.s_addr == a) then weight d.len else 0
  went slept log (sendmmsg fd ds) = if slept then 0 else total weight a ds
  went slept log _ = 0

-- The sum over the calls behind `before`, given whether the last of those sleeps.
unfoldable pub ledger : (Bool → List Call → Call → ℕ) → Bool → List Call → List Call → ℕ
ledger f slept before [] = 0
ledger f slept before (c ∷ cs) =
    f slept (before ++ c ∷ []) c + ledger f (sleeps c) (before ++ c ∷ []) cs

-- Whether the last call sleeps.
unfoldable pub asleep : Bool → List Call → Bool
asleep slept [] = slept
asleep slept (c ∷ cs) = asleep (sleeps c) cs

asleep-append : (s : Bool) (xs ys : List Call) → asleep s (xs ++ ys) ≡ asleep (asleep s xs) ys
unfolding asleep
asleep-append s [] ys = refl
asleep-append s (c ∷ xs) ys = asleep-append (sleeps c) xs ys

ledger-append :
    (f : Bool → List Call → Call → ℕ) (s : Bool) (before xs ys : List Call)
    → ledger f s before (xs ++ ys) ≡ ledger f s before xs + ledger f (asleep s xs) (before ++ xs) ys
unfolding ledger asleep
ledger-append f s before [] ys = rw (append-nil before) (omega arith)
ledger-append f s before (c ∷ xs) ys =
    let ih = ledger-append f (sleeps c) (before ++ c ∷ []) xs ys in
    rw (ih, append_assoc before (c ∷ []) xs) (omega arith)

-- The calls behind `before`, when neither the last of those nor the last of these sleeps.
pub record Log (before new after : List Call) : Type 0 where
  pub log : after ≡ before ++ new
  pub awake : asleep false new ≡ false

pub Log-trans : {s t u xs ys : List Call} → Log s xs t → Log t ys u → Log s (xs ++ ys) u
Log-trans {s} {t} {u} {xs} {ys} f g = record {
  log = rw (g.log, f.log) (append_assoc s xs ys);
  awake = rw (asleep-append false xs ys, f.awake) g.awake;
}

pub ledger_trans :
    (f : Bool → List Call → Call → ℕ) {s t u xs ys : List Call}
    → Log s xs t
    → Log t ys u
    → ledger f false s (xs ++ ys) ≡ ledger f false s xs + ledger f false t ys
ledger_trans f {s} {t} {u} {xs} {ys} h k = rw (ledger-append f false s xs ys, h.awake, h.log) refl
