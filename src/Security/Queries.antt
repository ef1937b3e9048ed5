-- ===== src/Security/Queries.antt =====
-- web/src/hooks/useSecurity.ts: the keys of the queries, and those that a successful request makes
-- the query library fetch again. The library matches a key that is invalidated against the key of a
-- query; that match is a parameter.
pub mod Refetching
use ddsds.Common.{ℕ, String, Bool, true, List, [], ◌∷◌, ◌++◌, Option, some, if◌then◌else◌}
use ddsds.Security.{Request, block, unblock, update_status, add_note}

-- A part of a query's key: a name, a text that may be missing, or a number.
pub data Part : Type 0 where
  name : String → Part
  text : Option String → Part
  number : ℕ → Part

abbrev pub Key : Type 0
Key = List Part

-- The queries of the hooks, with their arguments.
pub data Query : Type 0 where
  security_events : (event_type source_ip : Option String) → (limit : ℕ) → Query
  security_incidents : (event_type : Option String) → Query
  security_incident_detail : (incident_id : Option String) → Query
  incident_notes : (incident_id : Option String) → (limit : ℕ) → Query
  security_audit : (trace_id : Option String) → Query
  blocked_ips : Query

-- `queryKey`
unfoldable pub query_key : Query → Key
query_key (security_events event_type source_ip limit) =
    name "securityEvents" ∷ text event_type ∷ text source_ip ∷ number limit ∷ []
query_key (security_incidents event_type) = name "securityIncidents" ∷ text event_type ∷ []
query_key (security_incident_detail incident_id) =
    name "securityIncidentDetail" ∷ text incident_id ∷ []
query_key (incident_notes incident_id limit) =
    name "incidentNotes" ∷ text incident_id ∷ number limit ∷ []
query_key (security_audit trace_id) = name "securityAudit" ∷ text trace_id ∷ []
query_key blocked_ips = name "blockedIPs" ∷ []

-- `invalidateSecurityQueries`, in the order of its calls.
unfoldable pub invalidate_security_queries : (include_blocked : Bool) → List Key
invalidate_security_queries include_blocked =
    (if include_blocked then (name "blockedIPs" ∷ []) ∷ [] else [])
    ++ ((name "securityEvents" ∷ []) ∷ (name "securityIncidents" ∷ []) ∷ [])

-- What `onSuccess` of each mutation invalidates.
unfoldable pub invalidated : Request → List Key
unfolding invalidate_security_queries
invalidated (block ip reason) = invalidate_security_queries true
invalidated (unblock ip) = invalidate_security_queries true
invalidated (update_status incident_id status) =
    invalidate_security_queries true
    ++ ((name "securityIncidentDetail" ∷ text (some incident_id) ∷ [])
        ∷ (name "incidentNotes" ∷ text (some incident_id) ∷ [])
        ∷ [])
invalidated (add_note incident_id note) =
    (name "incidentNotes" ∷ text (some incident_id) ∷ [])
    ∷ (name "securityIncidents" ∷ [])
    ∷ (name "securityIncidentDetail" ∷ text (some incident_id) ∷ [])
    ∷ []
