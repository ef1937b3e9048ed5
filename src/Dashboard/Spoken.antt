-- ===== src/Dashboard/Spoken.antt =====
-- The messages and badges of web/src/pages/Dashboard.tsx.
