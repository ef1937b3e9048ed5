-- ===== src/Lib.antt =====
-- The web interface of Nullius (web/src): what it keeps, what it shows and what it asks of the server.
--
-- The program is a single page. The WebSocket client brings live messages, which the live feed puts
-- into the global store and the logs hook into its list; the pages show the store and the answers to
-- their queries, in the language that the messages are set to, and send requests.
--
-- Which file models which part, with its children beside it in the folder of the same name:
--   Ws         web/src/lib/ws.ts: connectWS, disconnectWS, the handlers of a socket and the listeners.
--              The sockets and timers of the browser are part of the state; Ws/Steps has the events.
--   Live       web/src/hooks/useWebSocket.ts, over Json for the values that JSON.parse gives.
--   Store      web/src/stores/store.ts, with the saved language and the theme of the document, and
--              the effect of web/src/hooks/useSystemStatus.ts on it.
--   I18n       web/src/lib/i18n.ts: both dictionaries in full, as templates, and the current one.
--   Format     web/src/lib/format.ts: labels of codes, risk texts, audit summaries, ages, bytes,
--              and the descriptions of events.
--   Paging     the pages of a table, as web/src/pages/Processes.tsx and Security.tsx cut them.
--   Processes  web/src/pages/Processes.tsx: order, search, pages, and the confirmation of an action.
--   Logs       web/src/hooks/useLogs.ts, the query of web/src/lib/api.ts and the filters of
--              web/src/pages/Logs.tsx with their copy in the address.
--              Logs/Highlight has the marking of fragments in the lines of that page.
--   Api        web/src/lib/api.ts: the requests, and what is made of the responses; Api/Addresses
--              describes how a server reads an address.
--   Ui         web/src/components/ui/Badge.tsx and StateBlock.tsx; Ui/Speaks says when what a
--              component shows can be shown in a language, with I18n/Told for the texts that the
--              functions of format.ts make of messages.
--   System     web/src/components/system/SystemCards.tsx and web/src/pages/System.tsx, as lists of
--              what they show; System/RiskCard has the sparkline.
--   Dashboard  web/src/pages/Dashboard.tsx with the cards of web/src/components/metrics.
--   Chart      web/src/components/metrics/MetricChart.tsx: points, bounds, ticks and path.
--   Security   web/src/pages/Security.tsx, over the records of web/src/types/index.ts in Types.
--              Security/Queries has the keys of web/src/hooks/useSecurity.ts and what is invalidated,
--              with Security/Queries/Refetching for what is fetched again.
--   Settings   web/src/pages/Settings.tsx: the forms, what they send, and the answers.
--   Common     shared names, Boolean tests, lists over the native numbers, and sorting, which stands
--              for Array.prototype.sort; Text has the operations on strings and regular expressions.
--   Tests      the theorems at concrete inputs.
-- Names are those of the source in snake case: connectWS is connect_ws, formatRiskTrend is
-- format_risk_trend. Setters of React's state are fields of a record, and an effect is part of the
-- function after whose change it runs.
--
-- Counts, identifiers and times are natural numbers; loads and other doubles are a type with a
-- comparison that is a parameter. Loops with fuel are unit_loop of Format/Bytes, whose index stops at
-- 3, and the digits of a number in Text, of which there are fewer than the number plus one.
-- Parameters stand for the runtime: lower case and comparison of texts, number formats, reading and
-- writing of dates, the rounding of a number to a double, `encodeURIComponent`, `JSON.stringify` and
-- the texts of numbers. The bounds of the chart are in hundredths, in which its shares of 8 and 10
-- per cent are whole.
--
-- Not modelled: markup and styles; the caches of the query library, whose data are arguments;
-- the ticks beside a chart, the rectangles under the pointer, and the block that stands in while a
-- chart of the dashboard loads; the routing; the server and the
-- agent, which are other programs.
pub mod Common
pub mod Text
pub mod I18n
pub mod Store
pub mod Json
pub mod Ws
pub mod Live
pub mod Types
pub mod Format
pub mod Paging
pub mod Processes
pub mod Logs
pub mod Security
pub mod Api
pub mod Chart
pub mod Dashboard
pub mod Settings
pub mod System
pub mod Tests
pub mod Ui
