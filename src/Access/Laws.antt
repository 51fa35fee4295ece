-- ===== src/Access/Laws.antt =====
-- Access and visibility agree.
use silence_watch.Prelude.{
  Bool, Bool-cases, In, List, Option, [], ap, arith, err, false, filter, if◌then◌else◌, inl, inr,
  map, nat_eq, none, ok, refl, some, sym, text_keys, true, ℕ, ◌&&◌, ◌==◌, ◌∙◌, ◌∷◌, ◌≡◌,
}
use silence_watch.Quotas.{Membership, Role, admin, member, owner}
use silence_watch.Access.{
  AccessDb, Principal, api_key, assert_access, find_role, not_found, role_access, user,
  visible_project_ids,
}

member-lowest : (r : Role) → role_access (some r) member ≡ ok tt
unfolding role_access
member-lowest member = ground arith
member-lowest admin = ground arith
member-lowest owner = ground arith

role-visible :
    (project id : ℕ) (ms : List Membership) (r : Role)
    → find_role project id ms ≡ some r
    → In project
        (map (λ (m : Membership). m.project_id) (filter (λ (m : Membership). m.user_id == id) ms))
unfolding find_role
role-visible project id [] r h = cc
role-visible project id (m ∷ ms) r h =
    elim (Bool-cases (m.project_id == project && m.user_id == id)) [
      | inl here ↦ rw (the_user here) (inl (ground arith))
      | inr past ↦ step (m.user_id == id) (role-visible project id ms r (rw past at h))
    ]
  where
    the_user : (m.project_id == project && m.user_id == id) ≡ true → (m.user_id == id) ≡ true
    the_user here = ground arith

    step :
        (b : Bool)
        → In project (
            map
              (λ (x : Membership). x.project_id)
              (filter (λ (x : Membership). x.user_id == id) ms))
        → In project (
            map
              (λ (x : Membership). x.project_id)
              (if b
                then m ∷ filter (λ (x : Membership). x.user_id == id) ms
                else filter (λ (x : Membership). x.user_id == id) ms))
    step true n = inr n
    step false n = n

visible-role :
    (project id : ℕ) (ms : List Membership)
    → In project
        (map (λ (m : Membership). m.project_id) (filter (λ (m : Membership). m.user_id == id) ms))
    → (r : Role) × (find_role project id ms ≡ some r)
unfolding find_role
visible-role project id [] n = absurd n
visible-role project id (m ∷ ms) n =
    elim (Bool-cases (m.project_id == project && m.user_id == id)) [
      | inl here ↦ (m.role, rw here refl)
      | inr past ↦ let (r, e) = visible-role project id ms (step past n) in (r, rw past e)
    ]
  where
    step :
        (m.project_id == project && m.user_id == id) ≡ false
        → In project (
            map
              (λ (x : Membership). x.project_id)
              (if m.user_id == id
                then m ∷ filter (λ (x : Membership). x.user_id == id) ms
                else filter (λ (x : Membership). x.user_id == id) ms))
        → In project (
            map
              (λ (x : Membership). x.project_id)
              (filter (λ (x : Membership). x.user_id == id) ms))
    step past k = elim (Bool-cases (m.user_id == id)) [
      | inl mine ↦
          elim (rw mine at k)
            as (λ _. In project (
              map (λ (x : Membership). x.project_id)
                (filter (λ (x : Membership). x.user_id == id) ms))) [
                  | inl e ↦ absurd (ground arith)
                  | inr rest ↦ rest
                ]
      | inr theirs ↦ rw theirs at k
    ]

-- Whatever role an operation asks for, a caller who may touch a project sees it in the list of
-- projects; and a caller who sees a project may do there what a member may.
pub assert_access-visible :
    (db : AccessDb) (p : Principal) (project : ℕ) (minimum : Role)
    → (assert_access db p project minimum ≡ ok tt → In project (visible_project_ids db p))
      × (In project (visible_project_ids db p) → assert_access db p project member ≡ ok tt)
unfolding assert_access visible_project_ids role_access
assert_access-visible db (api_key id own) project minimum = (
  λ h. inl (ground arith),
  λ m. elim m [ inl e ↦ ground arith | inr none_left ↦ absurd none_left ],
)
assert_access-visible db (user id session at) project minimum = (
  λ h. found (find_role project id db.members) refl h,
  λ m.
      let (r, e) = visible-role project id db.members m in
      ap (λ x. role_access x member) e ∙ member-lowest r,
)
  where
    found :
        (r : Option Role)
        → find_role project id db.members ≡ r
        → role_access (find_role project id db.members) minimum ≡ ok tt
        → In project (visible_project_ids db (user id session at))
    found none e h =
        let clash : err not_found ≡ ok tt = ap (λ x. role_access x minimum) (sym e) ∙ h in cc
    found (some r) e h = role-visible project id db.members r e
