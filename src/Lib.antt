-- ===== src/Lib.antt =====
-- The browser code of BillGen, in frontend-react/src: the client of the HTTP API, the queries over
-- it, the tree of the product's areas with its routes and its shell, the invoice builder, the list
-- of invoices, the invoice screen, the first run, the template studio, the invoice workspace and
-- the appearance preferences; and, of henrioutai-ui, the pagination and the date picker.
--
-- Parts, and the files that model them:
--   Prelude, Json      shared tests and lists on the native numbers; JSON as `response.json()` gives
--                      it. A parsed value is a tree of Json, and `none` stands for `undefined`.
--   Client/Http        what the client of frontend-react/src/lib/apiClient.ts reads of the platform,
--                      its token store, and the effects of a method: a function from the state to an
--                      outcome (a value, or what was thrown) and a state.
--   Client/Request     rawRequest, tryRefresh, request and fetchWithAuth. The platform's `fetch` is a
--                      parameter: a function of the state of the world and the request.
--   Client/Auth        signup, login, desktopBootstrap and logout.
--   Client/Calls       the endpoint methods, each as the request that it hands to `request` (or to
--                      fetchWithAuth, in Calls/Backup). URLSearchParams and the printing of a number
--                      are the parameter Platform.
--   Builder            frontend-react/src/panels/InvoiceBuilderPanel.tsx: the rates and lines, the state
--                      and handlers (Panel), and trimPrice (Price). The answers of the queries are the
--                      record Remote, which may change between two actions.
--   Detail             frontend-react/src/panels/InvoiceDetailPanel.tsx: its state, its cards and dialogs
--                      (Panel), the download with `saveBlob` and `documentFilename` of
--                      frontend-react/src/lib/download.ts (Download, Filename), and the timeline (Rail).
--                      A run is a list of events, each with the invoice as it is then; the browser's
--                      check of required fields is part of a submission.
--   History            frontend-react/src/panels/HistoryPanel.tsx: its state, the sheet and the dialog
--                      (Panel), the order and the pages of its table (Pages), whose headings are those
--                      of henrioutai-ui/src/components/Table.tsx. A run is a list of events, each with
--                      the invoices as they are then.
--   Onboarding         frontend-react/src/panels/OnboardingWizard.tsx: the steps with the state of each
--                      (Steps), their requests (Requests), the blockers' labels (Blockers), and the item
--                      of frontend-react/src/lib/tour.ts. A run is a list of events, each with what the
--                      server has said.
--   Queries            frontend-react/src/hooks/queries.ts and the query client of
--                      providers/BillGenProvider.tsx: keys (Keys), queries (Reads), mutations
--                      (Writes), and the status of one that a component reads (Status).
--                      How the cache applies a key is a parameter.
--   Scaffold           frontend-react/src/scaffold/ia.ts: its types and functions (Ia) and the tree
--                      itself, section by section (Spec); the routes, breadcrumbs and landing pages of
--                      frontend-react/src/shell/routes.tsx (Router); the links and commands of
--                      shell/ProductShell.tsx (Shell). Texts are parameters.
--   DatePicker         henrioutai-ui/src/components/DatePicker.tsx: the platform's calendar, the grid of a
--                      month (Grid), the order of the ISO texts (Texts) and the arrow keys (Keys).
--   Overdue            frontend-react/src/lib/invoiceStatus.ts, over the same calendar: the order of
--                      the days (Order) and the rounded difference of two midnights (Rounds). `Number`
--                      of a text and the midnights of the time zone are parameters.
--   Pagination         `pageEntries` of henrioutai-ui/src/components/Pagination.tsx.
--   Translations       the lookups of frontend-react/src/lib/translations.ts. The table of messages and
--                      the names that every object inherits are parameters.
--   Workspace/Template frontend-react/src/workspace/templateSchema.ts (Schema, Defaults),
--                      templatePresets.ts and the column checkboxes of PropertyPanel.tsx (Presets),
--                      the wire shape of frontend-react/src/shell/TemplateStudioScreen.tsx (Wire),
--                      the list of BlockCanvas.tsx (Canvas), and the state of TemplateWorkspace.tsx
--                      with that list (Studio), whose handlers are the constructors of Action.
--   Workspace/Invoice  types.ts (Draft), readiness.ts (Readiness), totals.ts (Totals), the lines as
--                      InvoiceItemsEditor.tsx and EditItemDrawer.tsx change them (Items), and the
--                      state of InvoiceWorkspace.tsx with its four steps (Composer). The platform's
--                      texts, numbers and sort are the parameters Texts, Doubles and sort; nothing
--                      is assumed of the numbers.
--   Preferences        frontend-react/src/lib/preferences.ts: storage, the root element's attributes
--                      and the hook that changes them. JSON's parser and printer are parameters.
--
-- How they interact: a query or a mutation names the endpoint method that it calls, and the
-- endpoint methods and the sessions go through `request`, which owns the token store; the builder,
-- the invoice screen and the wizard read what the queries have answered, and their requests are
-- mutations; the router and the shell read the same pruned tree; the studio holds a template that
-- the starter models build from the default blocks, and the canvas hands it reordered lists; the
-- composer's review asks the readiness check before it opens the delivery panel.
--
-- The code has no unbounded loop: `request` retries once at most, and the recursions are on lists and
-- trees. Fuel stands only for the browser following redirects from route to route; 2 are enough, as
-- one redirect never leads to another (Scaffold/Router/Mounted).
--
-- Not modelled: rendering, styles and the texts of the translations, with their placeholders and
-- plurals; overlapping requests of one client (each method runs to its end before the next); the
-- pixel positions of a drag, where the test of the pointer against a row's box is a parameter; the
-- font stacks and swatches of templateSchema.ts; the fields of the customer drawer; saving,
-- publishing and issuing, which the owner of a screen does; stale times and the debounce of the
-- search; the screens and sketches of the routes, the other panels, and the state of the shell; the
-- download of the list, which is that of the invoice screen; overlapping downloads of one screen,
-- and a mutation's run that a later one of the same hook has replaced; the server.
pub mod Prelude
pub mod Json
pub mod Client
pub mod Workspace
pub mod Builder
pub mod DatePicker
pub mod Detail
pub mod History
pub mod Onboarding
pub mod Overdue
pub mod Pagination
pub mod Preferences
pub mod Queries
pub mod Scaffold
pub mod Translations
