-- ===== src/Access.antt =====
-- access/principal.ts, access/project-access.service.ts and access/project-access.repository.ts: who
-- may touch which project.
pub mod Laws
mod Examples
use silence_watch.Prelude.{
  List, Option, Result, [], err, filter, if◌then◌else◌, leb, ltb, map, nat_eq, none, ok, some,
  text_keys, ℕ, ◌&&◌, ◌*◌, ◌+◌, ◌==◌, ◌∷◌,
}
use silence_watch.Quotas.{Membership, Role, admin, member, owner}

pub data Principal : Type 0 where
  user : (id session : ℕ) → (signed_in_at : ℕ) → Principal
  api_key : (id project : ℕ) → Principal

pub data AccessError : Type 0 where
  unauthorized forbidden not_found reauth_required : AccessError

abbrev pub fresh_session_seconds : ℕ
fresh_session_seconds = 600

unfoldable pub assert_user : Principal → Result AccessError (ℕ × ℕ)
assert_user (user id session at) = ok (id, session)
assert_user (api_key id project) = err unauthorized

unfoldable pub assert_recent_user : ℕ → Principal → Result AccessError (ℕ × ℕ)
assert_recent_user now (user id session at) =
    if leb (at + fresh_session_seconds * 1000) now then err reauth_required else ok (id, session)
assert_recent_user now (api_key id project) = err unauthorized

abbrev pub rank : Role → ℕ
rank member = 1
rank admin = 2
rank owner = 3

-- The tables behind the access rules: memberships, and the project of each check.
pub record AccessDb : Type 0 where
  pub members : List Membership
  pub checks : List (ℕ × ℕ)

unfoldable pub find_role : ℕ → ℕ → List Membership → Option Role
find_role project user_id [] = none
find_role project user_id (m ∷ ms) =
    if m.project_id == project && m.user_id == user_id
    then some m.role
    else find_role project user_id ms

unfoldable pub find_check_project_id : ℕ → List (ℕ × ℕ) → Option ℕ
find_check_project_id check [] = none
find_check_project_id check ((id, project) ∷ cs) =
    if id == check then some project else find_check_project_id check cs

unfoldable pub role_access : Option Role → Role → Result AccessError (Unit {0})
role_access none minimum = err not_found
role_access (some role) minimum = if ltb (rank role) (rank minimum) then err forbidden else ok tt

unfoldable pub assert_access : AccessDb → Principal → ℕ → Role → Result AccessError (Unit {0})
unfolding role_access
assert_access db (api_key id own) project minimum =
    if own == project
    then if ltb (rank member) (rank minimum) then err forbidden else ok tt
    else err not_found
assert_access db (user id session at) project minimum =
    role_access (find_role project id db.members) minimum

unfoldable pub visible_project_ids : AccessDb → Principal → List ℕ
visible_project_ids db (api_key id own) = own ∷ []
visible_project_ids db (user id session at) =
    map (λ (m : Membership). m.project_id) (filter (λ (m : Membership). m.user_id == id) db.members)

abbrev pub granted : ℕ → Result AccessError (Unit {0}) → Result AccessError ℕ
granted project (ok done) = ok project
granted project (err refused) = err refused

access_found : AccessDb → Principal → Role → Option ℕ → Result AccessError ℕ
access_found db p minimum none = err not_found
access_found db p minimum (some project) = granted project (assert_access db p project minimum)

unfoldable pub assert_check_access : AccessDb → Principal → ℕ → Role → Result AccessError ℕ
unfolding access_found
assert_check_access db p check minimum =
    access_found db p minimum (find_check_project_id check db.checks)
