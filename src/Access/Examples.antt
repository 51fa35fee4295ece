-- ===== src/Access/Examples.antt =====
-- A member and a key of one project.
use silence_watch.Prelude.{In, [], nat_eq, ok, text_keys, ◌∷◌, ◌≡◌}
use silence_watch.Quotas.{admin, member}
use silence_watch.Access.{AccessDb, assert_access, user, visible_project_ids}
use silence_watch.Access.Laws.{assert_access-visible}

abbrev tables : AccessDb
tables = record {
  members = record { project_id = 7; user_id = 1; role = admin } ∷ [];
  checks = (3, 7) ∷ [];
}

assert_access-visible_example :
    (assert_access tables (user 1 2 0) 7 admin ≡ ok tt
      → In 7 (visible_project_ids tables (user 1 2 0)))
    × (In 7 (visible_project_ids tables (user 1 2 0))
        → assert_access tables (user 1 2 0) 7 member ≡ ok tt)
assert_access-visible_example = assert_access-visible tables (user 1 2 0) 7 admin
