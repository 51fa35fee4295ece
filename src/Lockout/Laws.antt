-- ===== src/Lockout/Laws.antt =====
-- When an account is locked.
use silence_watch.Prelude.{List, [], nat_eq, text_keys, ℕ, ◌∷◌}
use silence_watch.Lockout.{Login, record_failure}

-- An account after wrong passwords at the given instants, the first of them first.
abbrev pub fail_at : List ℕ → Login → Login
fail_at [] u = u
fail_at (t ∷ ts) u = fail_at ts (record_failure t u).0
