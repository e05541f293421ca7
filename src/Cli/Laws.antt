-- ===== src/Cli/Laws.antt =====
-- What the commands of cli.c do.
use wlan_bridge.Common.{
  ℕ, zero, suc, ◌+◌, ◌-◌, ◌*◌, ◌/◌, ◌%◌, ◌^◌, ◌≤◌, ◌<◌, ◌≡◌, refl, ◌↔◌, inl, inr, true, List, [],
  ◌∷◌, ◌++◌, map, arith, if◌then◌else◌, Bool-cases,
}
use native.Mathlib.Nat.{pow-suc}
use wlan_bridge.Main.{no_events}
use wlan_bridge.Cli.{
  Text, cli_ok, Globals, text_eq, lower, admin, check_auth, is_digit, is_number, atoi,
  cmd_set_log_level,
}

-- Every code of a text is a digit's.
abbrev pub AllDigits : Text → Type 0
AllDigits [] = Unit {0}
AllDigits (c ∷ s) = (b'0' ≤ c) × (c ≤ b'9') × AllDigits s

-- is_number accepts the texts of digits, the empty one included, and no other.
is_number_lem : (s : Text) → (is_number s ≡ true) ↔ AllDigits s
unfolding is_number is_digit
is_number_lem [] = (λ h. tt, λ h. refl)
is_number_lem (c ∷ s) =
    (λ h. ground (arith, (is_number_lem s).0), λ h. ground (arith, (is_number_lem s).1))

-- The codes of the decimal digits of a number, lowest last, given a count of digits.
unfoldable pub decimal : ℕ → ℕ → Text
decimal zero n = []
decimal (suc k) n = decimal k (n / 10) ++ (b'0' + n % 10) ∷ []

text_eq_iff : (a b : Text) → (text_eq a b ≡ true) ↔ (a ≡ b)
unfolding text_eq
text_eq_iff a b = (to a b, from a b)
  where
    to : (a b : Text) → text_eq a b ≡ true → a ≡ b
    to [] [] h = refl
    to [] (d ∷ b) h = cc
    to (c ∷ a) [] h = cc
    to (c ∷ a) (d ∷ b) h = ground (arith, to a b)

    from : (a b : Text) → a ≡ b → text_eq a b ≡ true
    from a b e = rw e (self b)
      where
        self : (b : Text) → text_eq b b ≡ true
        self [] = refl
        self (c ∷ b) = ground (arith, self b)

-- check_auth lets a user in exactly when the name and the password both are "admin", in capital or
-- small letters.
pub check_auth_lem :
    (username password : Text)
    → (check_auth username password ≡ cli_ok)
      ↔ ((map lower username ≡ admin) × (map lower password ≡ admin))
unfolding check_auth lower
check_auth_lem u p = (
  λ h. ground (arith, text_eq_iff (map lower u) admin, text_eq_iff (map lower p) admin),
  λ h. ground (arith, text_eq_iff (map lower u) admin, text_eq_iff (map lower p) admin),
)

-- On a first argument whose value an int holds, cmd_set_log_level succeeds exactly when the argument
-- is all digits (an empty text too), and then sets the level to their value; otherwise the level stays. Either way it clears the statistics
-- of epoll.
pub set_log_level_lem :
    (g : Globals) (a : Text) (argv : List Text)
    → atoi 0 a < 2 ^ 31
    → let r = cmd_set_log_level g (a ∷ argv) in
      ((r.0 ≡ cli_ok) ↔ AllDigits a)
      × (r.1.log_level ≡ (if is_number a then atoi 0 a else g.log_level))
      × (r.1.epoll_stat_info ≡ no_events)
unfolding cmd_set_log_level
set_log_level_lem g a argv l = elim (Bool-cases (is_number a)) [
  | inl e ↦ rw e ((λ h. (is_number_lem a).0 e, λ h. refl), refl, refl)
  | inr e ↦ rw e ((λ h. cc, λ h. cc (e, (is_number_lem a).1 h)), refl, refl)
]

atoi-append : (acc : ℕ) (s : Text) (c : ℕ) → atoi acc (s ++ c ∷ []) ≡ atoi acc s * 10 + (c - b'0')
unfolding atoi
atoi-append acc [] c = refl
atoi-append acc (d ∷ s) c = atoi-append (acc * 10 + (d - b'0')) s c

is_number-append :
    (s : Text) (c : ℕ) → is_number s ≡ true → is_digit c ≡ true → is_number (s ++ c ∷ []) ≡ true
unfolding is_number
is_number-append [] c h d = ground arith
is_number-append (x ∷ s) c h d = ground (arith, is_number-append s c)

is_digit_of : (n : ℕ) → is_digit (b'0' + n % 10) ≡ true
unfolding is_digit
is_digit_of n = ground arith

is_number-decimal : (k n : ℕ) → is_number (decimal k n) ≡ true
unfolding decimal is_number
is_number-decimal zero n = refl
is_number-decimal (suc k) n =
    is_number-append (decimal k (n / 10)) _ (is_number-decimal k (n / 10)) (is_digit_of n)

atoi-decimal : (k n : ℕ) → n < 10 ^ k → atoi 0 (decimal k n) ≡ n
unfolding decimal atoi
atoi-decimal zero n h = omega arith
atoi-decimal (suc k) n h = omega (
  arith,
  atoi-append 0 (decimal k (n / 10)) (b'0' + n % 10),
  atoi-decimal k (n / 10) (omega (arith, pow-suc 10 k)),
)

-- Whatever level that an int holds is written out in decimal, cmd_set_log_level sets it.
pub set_log_level-decimal :
    (g : Globals) (k n : ℕ) (argv : List Text)
    → n < 10 ^ k
    → n < 2 ^ 31
    → ((cmd_set_log_level g (decimal k n ∷ argv)).0 ≡ cli_ok)
      × ((cmd_set_log_level g (decimal k n ∷ argv)).1.log_level ≡ n)
unfolding cmd_set_log_level
set_log_level-decimal g k n argv h l = rw (is_number-decimal k n) (refl, atoi-decimal k n h)
