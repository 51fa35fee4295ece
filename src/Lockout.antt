-- ===== src/Lockout.antt =====
-- auth/lockout/login-lockout.service.ts and its update in auth/users/users.repository.ts: the lockout
-- that follows repeated wrong passwords.
pub mod Laws
mod Examples
use silence_watch.Prelude.{
  Bool, Option, false, if◌then◌else◌, leb, ltb, nat_eq, none, some, text_keys, ℕ, ◌+◌,
}

pub record Login : Type 0 where
  pub failed_login_count : ℕ
  pub locked_until : Option ℕ

abbrev pub max_failed_logins : ℕ
max_failed_logins = 10

abbrev pub lockout_ms : ℕ
lockout_ms = 900000

abbrev pub is_future : ℕ → Option ℕ → Bool
is_future now none = false
is_future now (some t) = ltb now t

unfoldable pub is_locked : ℕ → Login → Bool
is_locked now u = is_future now u.locked_until

-- `recordFailure`: the row that it writes, and the number that it returns.
unfoldable pub record_failure : ℕ → Login → Login × ℕ
record_failure now u =
    let failures = u.failed_login_count + 1 in
    (
      record {
        failed_login_count = failures;
        locked_until = if leb max_failed_logins failures then some (now + lockout_ms) else none;
      },
      failures,
    )

-- `recordSuccessfulLogin`.
unfoldable pub record_success : Login → Login
record_success u = record { failed_login_count = 0; locked_until = none }
