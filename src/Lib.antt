-- ===== src/Lib.antt =====
-- EdgeGuardian's web console, which is the ui/ folder of the repository: how it calls the
-- controller, how it keeps the user signed in, and what its pages do.
--
-- The program. A page of ui/app asks for data with a function of ui/lib/api. Each such function
-- builds a path with ui/lib/api/endpoints.ts and calls ui/lib/api-client.ts, which adds the token
-- of the session, sends the request and turns the response into a value or an exception; the
-- console's own server passes the request on to the controller, as ui/next.config.ts says. The
-- session is kept by NextAuth, whose callbacks in ui/lib/auth.ts refresh the tokens with Keycloak;
-- ui/middleware.ts keeps those out who have no session, and
-- ui/components/refresh-error-guard.tsx sends those to sign in again whose refresh failed. The
-- pages keep their own state, and share the current organization.
--
-- The files.
--   Base        numbers, lists, strings as lists of code points, objects as association lists
--   Decimal     `String(n)` and `parseInt(s, 10)` for numbers that are not negative
--   Query       `URLSearchParams` and `encodeURIComponent`, over UTF-8, with the URL standard's
--               parser (RoundTrip)
--   Json        `JSON.stringify` for objects of strings and numbers; Json.Reading is a reader of it
--   Sorting     `Array.prototype.sort`
--   Paging      the number of pages and the slice of a page, of the list pages
--   Http        ui/lib/api-client.ts: rawFetch, apiFetch, apiFetchText
--   Endpoints   ui/lib/api/endpoints.ts; Endpoints.Routing is a server's table of its paths
--   Rewrites    ui/next.config.ts: the requests that the console's server passes on
--   Api         ui/lib/api: Certificates, Devices, Organizations and Shell hold the functions of the
--               file with that name, Operations joins them into one type, and Operations.Server,
--               Params and Reading are how a server reads their requests: the method and the path,
--               the query, and the body with all the arguments; Operations.Kept says which device
--               identifiers an address carries as they are
--   Auth        ui/lib/auth.ts: one run of its callbacks (Refresh), any number of them (Callbacks,
--               Outage), and the addresses (Logout); Auth.Guards
--               is ui/middleware.ts with ui/components/refresh-error-guard.tsx
--   Organization  ui/lib/hooks/use-organization.ts
--   History     ui/lib/hooks/use-polling-history.ts
--   DevicesPage   ui/app/(dashboard)/devices/page.tsx: its handlers (Steps), what the clicks make of
--               the selection (Steps.Clicks), its table (View, by what the
--               filters and the order ask for in View.Wanted), its bulk deletion (Deletion) and
--               what is drawn (Screen); lists that stand for a `Set` (Sets, and as a quotient
--               Sets.Subset), and what they count (Counting)
--   CertificatesPage  ui/app/(dashboard)/certificates/page.tsx: the states it shows (States), its
--               queue (Queue), what its pages show (Browsing), its requests and rows (Screen), the
--               file of the CA certificate (Download), and any sequence of what happens on it
--               (Dialogs)
--   DevicePage  ui/app/(dashboard)/devices/[id]/page.tsx: its labels (Labels), its manifest
--               (Editor), its uptime (Uptime), what is polled and charted (Monitoring) and asked for
--               under the filters that are chosen (Monitoring.Requests), its cards and deletion
--               (Overview), and what its tabs show (Panels)
--   SettingsPage  ui/app/(dashboard)/settings/page.tsx: its mutations and dialogs, the form of the
--               organization (Form) and its card (General), the requests of its buttons
--               (Requests), its rows (Tables), and any sequence of what the user does on it (Steps)
--   AuditPage   ui/app/(dashboard)/audit/page.tsx: its pages, what it lists (View), what the types
--               that it offers find (Types), and what it draws (Screen)
--   LogsPage    ui/app/(dashboard)/devices/[id]/logs/page.tsx: its query and lines, the file that it
--               offers (Download), its filters (Choices), and what is drawn (Screen)
--   ManifestPage  ui/app/(dashboard)/devices/[id]/manifest/page.tsx: what it saves (Saving), and
--               the requests (Request)
--   Terminal    ui/app/(dashboard)/devices/[id]/terminal/page.tsx: who may open a shell (Roles), what
--               is left of a run after its clean-up (Lifetime), and what the status and the frames
--               say of the connection (Connection); of devices/[id]/page.tsx, who is offered it
--               and what happens over several runs of the effect (Restarts)
--   DashboardPage  ui/app/(dashboard)/dashboard/page.tsx and the charts it shows: the average
--               (Averages), the busiest devices (Consumers), the counts (Health) and what is drawn
--               (Screen)
--   Components  ui/components: metric-card.tsx, empty-state.tsx, page-header.tsx and logo.tsx, and in
--               Charts sparkline.tsx and device-resource-chart.tsx
--   Table, ConfirmDialog  the body of a table, and ui/components/confirm-dialog.tsx
--   Layout      ui/app/(dashboard)/layout.tsx: the parts that stand round every page, one module
--               for each of ui/components/sidebar.tsx, breadcrumbs.tsx, command-palette.tsx,
--               user-menu.tsx, org-switcher.tsx and error-boundary.tsx
--   Landing     ui/app/page.tsx: the redirect of a user who is signed in (with the middleware and
--               the guard in Arrival) and its sample data (Mockup); and ui/components/landing:
--               navbar.tsx (Navbar), sign-in-button.tsx, marquee-section.tsx (Marquee, with the
--               frames of a row in Marquee.Motion and its gaps in Marquee.Seam),
--               terminal-section.tsx (Demo, with the observer and the timers in Demo.Section),
--               discovery-section.tsx (Discovery), both of which start in view (InView),
--               scroll-reveal.tsx (Reveal) and parallax-wrapper.tsx (Parallax)
--   Providers   ui/components/providers.tsx
--   LoginPage   ui/app/auth/login/page.tsx
--   Tests       the operations at concrete inputs
--
-- How the code is read. A camelCase name of the source is the same name in snake_case. A `useState`
-- of a component is a field of its state, and a handler is a function from state to state. An
-- optional value is an `Option`; undefined and null are told apart only where the code does. A call
-- of an API function is a `Call`, a path with options, until `Http` sends it. A select hands the value
-- of the item that is picked to its handler. The browser's `fetch`
-- and `JSON.parse`, Keycloak, the clock, `toLowerCase`, `toUpperCase`, `localeCompare`,
-- `toISOString`, `decodeURIComponent`, `isNaN`, `URL` as the logout address uses it, the formats of date-fns and how Next.js matches an
-- address with a pattern are parameters, and so is what floating point computes in a frame or a
-- drawing of the landing page; of `localeCompare` it is assumed, where the order matters, that it
-- is consistent, as its documentation says. A percentage is in
-- thousandths, and a quotient is exact until it is rounded. Times are in milliseconds and not
-- negative. A string is a list of code points, which is what the query encoding works on; where the
-- source measures or cuts a string, it counts UTF-16 units, which is the same for text without
-- surrogates. A path is the text that a call builds: `fetch` reads it as an address, which changes it
-- unless it is made of the characters that an address carries as they are.
--
-- Fuel. The digits of a number are computed with the number itself as fuel, which is enough since each
-- step divides it by ten; the loop that fills a row of the landing page has 24 rounds, which are enough
-- since each adds an item, if there is one.
--
-- Not modelled. How the markup is laid out and styled, of which only what it shows is recorded, the
-- terms of use, the copies of the shadcn components in ui/components/ui, and how the style sheets
-- animate the landing page; in the terminal, the layout of the widget, which shows in the events
-- that report its size; the React runtime and the cache of queries, of
-- which only what is invalidated is recorded, and the organization that the settings page writes to
-- it, with what is typed into its form while an update runs; a `URL` that throws, for an issuer that
-- is no address; white space outside ASCII and numbers beyond the exact integers of JavaScript in
-- `parseInt`; the logger of NextAuth; the controller in Java and the agent in Go, which the console meets
-- only through the REST interface.
pub mod Base
pub mod ConfirmDialog
pub mod DashboardPage
pub mod Decimal
pub mod Providers
pub mod Query
pub mod Http
pub mod Endpoints
pub mod Rewrites
pub mod Components
pub mod Json
pub mod Api
pub mod Auth
pub mod Organization
pub mod History
pub mod Paging
pub mod Sorting
pub mod DevicesPage
pub mod CertificatesPage
pub mod DevicePage
pub mod SettingsPage
pub mod AuditPage
pub mod LogsPage
pub mod ManifestPage
pub mod Landing
pub mod LoginPage
pub mod Layout
pub mod Table
pub mod Terminal
pub mod Tests
