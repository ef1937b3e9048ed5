-- ===== src/System/Spoken.antt =====
-- The messages and badges of web/src/pages/System.tsx and its cards.
