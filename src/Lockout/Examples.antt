-- ===== src/Lockout/Examples.antt =====
-- Ten wrong passwords.
use silence_watch.Prelude.{List, [], nat_eq, some, text_keys, ℕ, ◌∷◌}
use silence_watch.Lockout.{Login}

abbrev locked_before : Login
locked_before = record { failed_login_count = 12; locked_until = some 500 }

abbrev nine : List ℕ
nine = 1000 ∷ 1100 ∷ 1200 ∷ 1300 ∷ 1400 ∷ 1500 ∷ 1600 ∷ 1700 ∷ 1800 ∷ []
