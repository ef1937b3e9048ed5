-- ===== src/Security/Selection.antt =====
-- The selected incident of web/src/pages/Security.tsx.
use mathlib.Core.Path.{subst}
use mathlib.Core.List.{Mem, mem-cons_self, mem-cons_of_mem}
use ddsds.Common.{
  String, Bool, true, ◌&&◌, List, [], ◌∷◌, some, ◌≡◌, refl, sym, ◌∙◌, ap, str_eq, eq_iff, eq_refl,
  any, find, arith, Bool-cases, inl, inr, if◌then◌else◌,
}
use ddsds.Text.{truthy}
use ddsds.Types.{SecurityIncident}
use ddsds.Security.{
  SecurityView, same_id, or_first, selected_incident, set_selected_incident_id, kept_or_first,
  on_incidents,
}

find-any :
    (id : String) (xs : List SecurityIncident)
    → any (same_id id) xs ≡ true
    → (i : SecurityIncident) × (find (same_id id) xs ≡ some i) × (i.id ≡ id) × Mem i xs
find-any id [] h = cc
find-any id (x ∷ xs) h = elim (Bool-cases (same_id id x)) [
  | inl e ↦ (x, rw (e, find) refl, (eq_iff x.id id).0 e, mem-cons_self)
  | inr e ↦
      let later : any (same_id id) xs ≡ true = ground arith in
      let (i, found, same, listed) = find-any id xs later in
      (i, rw (e, find) found, same, mem-cons_of_mem x listed)
]

set_selected_incident_id-id :
    (id : String) (v : SecurityView) → (set_selected_incident_id id v).selected_incident_id ≡ id
unfolding set_selected_incident_id
set_selected_incident_id-id id v = elim (Bool-cases (str_eq id v.selected_incident_id)) [
  | inl e ↦ rw e (sym ((eq_iff id v.selected_incident_id).0 e))
  | inr e ↦ rw e refl
]

abbrev still_there : String → List SecurityIncident → Bool
still_there current incidents = truthy current && any (same_id current) incidents

kept_or_first-cons :
    (i : SecurityIncident) (is : List SecurityIncident) (current : String)
    → kept_or_first (i ∷ is) current ≡ (if still_there current (i ∷ is) then current else i.id)
unfolding kept_or_first
kept_or_first-cons i is current = refl

and_right : (a b : Bool) → (a && b) ≡ true → b ≡ true
and_right a b h = ground arith

any-kept_or_first :
    (i : SecurityIncident) (is : List SecurityIncident) (current : String)
    → any (same_id (if still_there current (i ∷ is) then current else i.id)) (i ∷ is) ≡ true
any-kept_or_first i is current = elim (Bool-cases (still_there current (i ∷ is))) [
  | inl e ↦
      subst (λ b. any (same_id (if b then current else i.id)) (i ∷ is) ≡ true) (sym e)
        (and_right (truthy current) (any (same_id current) (i ∷ is)) e)
  | inr e ↦
      subst (λ b. any (same_id (if b then current else i.id)) (i ∷ is) ≡ true) (sym e)
        (ground (arith, eq_refl i.id))
]

-- When the incidents have come and there is one, the page shows an incident of the list, and the
-- identifier that the page keeps is its identifier; an identifier that the page kept and that is
-- still in the list stays.
pub on_incidents-selected :
    (i : SecurityIncident) (is : List SecurityIncident) (v : SecurityView)
    → (shown : SecurityIncident) × (selected_incident
          (some (i ∷ is))
          (on_incidents (some (i ∷ is)) v)
        ≡ some shown)
      × ((on_incidents (some (i ∷ is)) v).selected_incident_id ≡ shown.id)
      × Mem shown (i ∷ is)
      × ((on_incidents (some (i ∷ is)) v).selected_incident_id ≡ (
          if truthy v.selected_incident_id && any (same_id v.selected_incident_id) (i ∷ is)
          then v.selected_incident_id
          else i.id))
unfolding on_incidents selected_incident
on_incidents-selected i is v =
    let current = v.selected_incident_id in
    let kept =
      set_selected_incident_id-id (kept_or_first (i ∷ is) current) v
      ∙ kept_or_first-cons i is current in
    let id : String = if still_there current (i ∷ is) then current else i.id in
    let (shown, found, same, listed) = find-any id (i ∷ is) (any-kept_or_first i is current) in
    (shown, rw kept (ap (λ o. or_first o (i ∷ is)) found), kept ∙ sym same, listed, kept)
