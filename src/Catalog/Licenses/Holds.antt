-- ===== src/Catalog/Licenses/Holds.antt =====
-- What a statement leaves of the license of an order: license_repository.go of the catalog.
use gosplash.Prelude.{
  String, List, [], ◌∷◌, none, some, true, false, str_eq, eq_iff, ◌&&◌, ◌≡◌, refl, ap, ◌∙◌,
  Bool-cases, Option-cases, inl, inr, subst,
}
use gosplash.Catalog.Licenses.{
  License, Atomic, insert_license, revoke_license, find_license, insert_unless, revoked,
  revoke_rows, act,
}

-- The license of an order is there, and is this one but for its status and reason.
pub record Holds (o : String) (l : License) (ls : List License) : Type 0 where
  pub held : License
  pub found : find_license o ls ≡ some held
  pub same_id : held.id ≡ l.id
  pub same_listing : held.listing_id ≡ l.listing_id
  pub same_buyer : held.buyer_id ≡ l.buyer_id

revoked-eq :
    (p reason : String) (x : License)
    → ((revoked p reason x).id ≡ x.id)
      × ((revoked p reason x).listing_id ≡ x.listing_id)
      × ((revoked p reason x).buyer_id ≡ x.buyer_id)
      × ((revoked p reason x).order_id ≡ x.order_id)
unfolding revoked
revoked-eq p reason x = elim (Bool-cases (str_eq x.order_id p && str_eq x.status "granted")) [
  | inl hit ↦ rw (hit, revoked) (refl, refl, refl, refl)
  | inr miss ↦ rw (miss, revoked) (refl, refl, refl, refl)
]

find_license-revoke_rows :
    (o p reason : String) (x : License) (ls : List License)
    → find_license o ls ≡ some x
    → find_license o (revoke_rows p reason ls) ≡ some (revoked p reason x)
unfolding revoke_rows find_license
find_license-revoke_rows o p reason x [] h = cc
find_license-revoke_rows o p reason x (l ∷ ls) h = elim (Bool-cases (str_eq l.order_id o)) [
  | inl mine ↦
      let e : str_eq (revoked p reason l).order_id o ≡ true = rw ((revoked-eq p reason l).3) mine in
      let head : some l ≡ some x = rw mine at h in
      let same : l ≡ x = cc in rw (e, find_license) (ap (λ y. some (revoked p reason y)) same)
  | inr other ↦
      let e : str_eq (revoked p reason l).order_id o ≡ false =
        rw ((revoked-eq p reason l).3) other in
      rw (e, find_license) (find_license-revoke_rows o p reason x ls (rw other at h))
]

revoke_rows-Holds :
    (o p reason : String) (l : License) (ls : List License)
    → Holds o l ls
    → Holds o l (revoke_rows p reason ls)
revoke_rows-Holds o p reason l ls h =
    let e = revoked-eq p reason h.held in
    record {
      held = revoked p reason h.held;
      found = find_license-revoke_rows o p reason h.held ls h.found;
      same_id = e.0 ∙ h.same_id;
      same_listing = e.1 ∙ h.same_listing;
      same_buyer = e.2 ∙ h.same_buyer;
    }

pub insert-Holds :
    (o : String) (l x : License) (ls : List License)
    → Holds o l ls
    → Holds o l (insert_unless (find_license x.order_id ls) x ls)
unfolding insert_unless find_license
insert-Holds o l x ls h = elim (Option-cases (find_license x.order_id ls)) [
  | inr (old, there) ↦ rw (there, insert_unless) h
  | inl gone ↦
      rw (gone, insert_unless)
        (elim (Bool-cases (str_eq x.order_id o)) [
          | inl mine ↦
              let e : x.order_id ≡ o = (eq_iff x.order_id o).0 mine in
              let none_there : find_license o ls ≡ none =
                subst (λ i. find_license i ls ≡ none) e gone in
              cc
          | inr other ↦ record {
            held = h.held;
            found = rw (other, find_license) h.found;
            same_id = h.same_id;
            same_listing = h.same_listing;
            same_buyer = h.same_buyer;
          }
        ])
]

pub act-Holds :
    (o : String) (l : License) (a : Atomic) (ls : List License)
    → Holds o l ls
    → Holds o l (act a ls)
unfolding act
act-Holds o l (insert_license x) ls h = insert-Holds o l x ls h
act-Holds o l (revoke_license p reason) ls h = revoke_rows-Holds o p reason l ls h
