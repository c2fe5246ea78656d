-- ===== src/Server/Members.antt =====
-- netlify/functions: what the handlers' query for the active membership of a user in a vault finds.
use dynastytrust.Prelude.{
  String, true, ◌&&◌, some, List, [], ◌∷◌, Any, str_eq, eq_iff, ◌≡◌, inl, inr, refl, sym, arith,
  Bool-cases,
}
use dynastytrust.Server.Store.{
  Member, MemberStatus, active, invited, removed, is_active, membership,
}

-- The row is one of the members': the user's own, of the vault, and active.
pub record IsMemberOf (vault_id user : String) (members : List Member) (m : Member) : Type 0 where
  pub among : Any (λ n. n ≡ m) members
  pub same_vault : m.vault_id ≡ vault_id
  pub same_user : m.user_id ≡ user
  pub is_current : m.status ≡ active

is_active-active : (s : MemberStatus) → is_active s ≡ true → s ≡ active
is_active-active active h = refl
is_active-active invited h = cc
is_active-active removed h = cc

pub membership-IsMemberOf :
    (vault_id user : String) (members : List Member) (m : Member)
    → membership vault_id user members ≡ some m
    → IsMemberOf vault_id user members m
membership-IsMemberOf vault_id user [] m e = cc
membership-IsMemberOf vault_id user (n ∷ members) m e =
    elim (Bool-cases
      (str_eq n.vault_id vault_id && (str_eq n.user_id user && is_active n.status))) [
        | inl hit ↦
            let here : n ≡ m = ground arith in
            rw (sym here) (record {
              among = inl refl;
              same_vault = (eq_iff _ _).0 (ground arith);
              same_user = (eq_iff _ _).0 (ground arith);
              is_current = is_active-active n.status (ground arith);
            })
        | inr miss ↦
            let later = membership-IsMemberOf vault_id user members m (ground arith) in
            record {
              among = inr later.among;
              same_vault = later.same_vault;
              same_user = later.same_user;
              is_current = later.is_current;
            }
      ]
