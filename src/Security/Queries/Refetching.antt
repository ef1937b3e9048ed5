-- ===== src/Security/Queries/Refetching.antt =====
-- Which queries of web/src/hooks/useSecurity.ts the success of a request makes the library fetch
-- again.
use ddsds.Common.{
  String, Bool, true, false, ◌||◌, [], ◌∷◌, ◌++◌, Option, none, some, any, ◌≡◌, refl, sym, ◌∙◌, ap,
  str_eq, eq_iff, eq_refl, Bool-cases, inl, inr,
}
use ddsds.Security.{Request, block, unblock, update_status, add_note}
use ddsds.Security.Queries.{
  name, text, Key, Query, security_events, security_incidents, security_incident_detail,
  incident_notes, security_audit, blocked_ips, query_key, invalidated, invalidate_security_queries,
}

abbrev pub is_of : Option String → String → Bool
is_of none id = false
is_of (some j) id = str_eq j id

-- The queries that are fetched again, request by request.
abbrev pub fetched_again : Request → Query → Bool
fetched_again r (security_audit trace_id) = false
fetched_again r (security_incidents event_type) = true
fetched_again (add_note id note) (security_events event_type source_ip limit) = false
fetched_again r (security_events event_type source_ip limit) = true
fetched_again (add_note id note) blocked_ips = false
fetched_again r blocked_ips = true
fetched_again (update_status id status) (security_incident_detail incident_id) =
    is_of incident_id id
fetched_again (add_note id note) (security_incident_detail incident_id) = is_of incident_id id
fetched_again r (security_incident_detail incident_id) = false
fetched_again (update_status id status) (incident_notes incident_id limit) = is_of incident_id id
fetched_again (add_note id note) (incident_notes incident_id limit) = is_of incident_id id
fetched_again r (incident_notes incident_id limit) = false

abbrev named : Key → String
named (name s ∷ ps) = s
named _ = ""

abbrev argument : Key → Option String
argument (p ∷ text s ∷ ps) = s
argument _ = none

module _ (matches : Key → Key → Bool)
    (begins : (prefix rest : Key) → matches prefix (prefix ++ rest) ≡ true)
    (only : (prefix k : Key) → matches prefix k ≡ true → (rest : Key) × (k ≡ prefix ++ rest)) where
  matches_other :
      (s r : String) (ps ks : Key)
      → str_eq s r ≡ false
      → matches (name s ∷ ps) (name r ∷ ks) ≡ false
  matches_other s r ps ks ne = elim (Bool-cases (matches (name s ∷ ps) (name r ∷ ks))) [
    | inl e ↦
        let same : r ≡ s = ap named (only (name s ∷ ps) (name r ∷ ks) e).1 in
        let equal : str_eq s r ≡ true = (eq_iff s r).1 (sym same) in absurd (cc (ne, equal))
    | inr e ↦ e
  ]

  matches_name : (s : String) (ks : Key) → matches (name s ∷ []) (name s ∷ ks) ≡ true
  matches_name s ks = begins (name s ∷ []) ks

  matches_argument :
      (s id : String) (i : Option String) (ks : Key)
      → matches (name s ∷ text (some id) ∷ []) (name s ∷ text i ∷ ks) ≡ is_of i id
  matches_argument s id i ks =
      elim (Bool-cases (matches (name s ∷ text (some id) ∷ []) (name s ∷ text i ∷ ks))) [
        | inl e ↦
            let same : i ≡ some id =
              ap argument (only (name s ∷ text (some id) ∷ []) (name s ∷ text i ∷ ks) e).1 in
            e ∙ sym (ap (λ j. is_of j id) same ∙ eq_refl id)
        | inr e ↦ e ∙ sym (not_it i e)
      ]
    where
      not_it :
          (j : Option String)
          → matches (name s ∷ text (some id) ∷ []) (name s ∷ text j ∷ ks) ≡ false
          → is_of j id ≡ false
      not_it none e = refl
      not_it (some j) e = elim (Bool-cases (str_eq j id)) [
        | inl same ↦
            let it : matches (name s ∷ text (some id) ∷ []) (name s ∷ text (some j) ∷ ks) ≡ true =
              rw ((eq_iff j id).0 same) (begins (name s ∷ text (some id) ∷ []) ks) in
            absurd (cc (e, it))
        | inr other ↦ other
      ]

  or_false : (b : Bool) → (b || false) ≡ b
  or_false true = refl
  or_false false = refl

  ruleset by_key = (matches_other, matches_name, matches_argument, or_false)

  -- If a key that is invalidated matches exactly the queries whose keys begin with it, then the success
  -- of a request makes these queries be fetched again and no other: the incidents after any request;
  -- the events and the blocked addresses after a block, its end, and a change of status; the detail and
  -- the notes of the incident after a change of its status and a note. So after a block or its end no
  -- detail of an incident is fetched again, and the audit is after no request.
  pub invalidated-query_key :
      (r : Request) (q : Query)
      → any (λ p. matches p (query_key q)) (invalidated r) ≡ fetched_again r q
  unfolding query_key invalidated invalidate_security_queries
  invalidated-query_key (block ip reason) (security_events t s n) = simp by_key refl
  invalidated-query_key (block ip reason) (security_incidents t) = simp by_key refl
  invalidated-query_key (block ip reason) (security_incident_detail i) = simp by_key refl
  invalidated-query_key (block ip reason) (incident_notes i n) = simp by_key refl
  invalidated-query_key (block ip reason) (security_audit t) = simp by_key refl
  invalidated-query_key (block ip reason) blocked_ips = simp by_key refl
  invalidated-query_key (unblock ip) (security_events t s n) = simp by_key refl
  invalidated-query_key (unblock ip) (security_incidents t) = simp by_key refl
  invalidated-query_key (unblock ip) (security_incident_detail i) = simp by_key refl
  invalidated-query_key (unblock ip) (incident_notes i n) = simp by_key refl
  invalidated-query_key (unblock ip) (security_audit t) = simp by_key refl
  invalidated-query_key (unblock ip) blocked_ips = simp by_key refl
  invalidated-query_key (update_status id status) (security_events t s n) = simp by_key refl
  invalidated-query_key (update_status id status) (security_incidents t) = simp by_key refl
  invalidated-query_key (update_status id status) (security_incident_detail i) = simp by_key refl
  invalidated-query_key (update_status id status) (incident_notes i n) = simp by_key refl
  invalidated-query_key (update_status id status) (security_audit t) = simp by_key refl
  invalidated-query_key (update_status id status) blocked_ips = simp by_key refl
  invalidated-query_key (add_note id note) (security_events t s n) = simp by_key refl
  invalidated-query_key (add_note id note) (security_incidents t) = simp by_key refl
  invalidated-query_key (add_note id note) (security_incident_detail i) = simp by_key refl
  invalidated-query_key (add_note id note) (incident_notes i n) = simp by_key refl
  invalidated-query_key (add_note id note) (security_audit t) = simp by_key refl
  invalidated-query_key (add_note id note) blocked_ips = simp by_key refl
