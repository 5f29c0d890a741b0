-- ===== src/Lib.antt =====
-- Tidyboard is a family hub: a household's calendar, lists, meals, routines, chores, pocket money
-- and rewards. This library models the logic of its browser client (web/src), a React program over a
-- REST API, and proves what makes that logic correct.
--
-- The parts, and the files that model them:
-- * web/src/lib/unified-tasks.ts folds to-dos, routines, chores, rewards and approvals into one task
--   feed. Types has the rows that the API gives (web/src/lib/api/types.ts), Tasks/Shape the feed's
--   types and the pet test (isPet), Tasks/Rows the row of each source and the map of redemptions, and
--   Tasks/Unify unifyTasks and filterTasksByMember. The loops that push into one array are functions
--   that return their rows, joined in the loops' order. The sort of the browser is taken to be a
--   stable sort by its comparator, which Sort defines by insertion. Tasks/Order, Tasks/Feed,
--   Tasks/Groups and Tasks/Owners hold the proofs.
-- * web/src/lib/wallet/payout-math.ts and freqPerWeek of web/src/components/screens/chores-kid.tsx
--   split a weekly allowance over chores: Wallet, with the proofs in Wallet/Budget and Wallet/Bonus.
--   Cents are integers, so Math.floor of a quotient of positive ones is the quotient on the naturals.
-- * web/src/lib/api/hooks.ts has one hook for each read and write of the API, over the query
--   library's cache. Api/Request has the api object of web/src/lib/api/client.ts and Api/Client its
--   request, Api/Keys the key factory qk, Api/Query the result of a hook, and Api/Hooks one definition
--   for each hook: useCreateChore is use_create_chore. The arguments of a hook and the variables of
--   its mutation are the arguments of the definition; an object that is sent as it stands is a Json
--   value. Api/Registry makes the hooks the constructors of the types Read and Write, and
--   Api/Matching and Api/Refresh relate the two through the cache. Which keys a filter matches (by prefix), and what the browser does with
--   texts in URLs, are parameters: the records QueryClient and Platform; Api/Sample has instances.
--   Api/Polling is about useImportJob. isUuid of web/src/lib/id.ts is in Api/Query.
-- * entriesToMealPlan of web/src/lib/api/hooks.ts lays out a week's meals: MealPlan has its loop
--   over the entries, MealPlan/Grid what each cell shows, and MealPlan/Week the dates of a week
--   (weekMonday, useMealPlan) and the table of entry ids. A date is its number of days since Monday,
--   January 1st of the year 1; its ISO text and back is the record Calendar, a parameter.
-- * web/src/lib/auth/oidc.ts signs in with the identity provider: Oidc has signIn, handleCallback
--   (cut at its request, begin_callback and finish_callback), signOut and the encoding of random
--   bytes. The random texts, the digest, btoa, the time and the provider's answer are arguments.
--   Oidc/Callback is the page of web/src/app/auth/callback/page.tsx together with the session. Proofs:
--   Oidc/Encoding, Oidc/Exchange, Oidc/Callback.
-- * web/src/app/onboarding/page.tsx is the wizard of a new household: Onboarding has its state,
--   advance at each step with the requests it makes, and Onboarding/Queue the queue of family members.
--   An advance is one operation, given the server's answers by their number; Back pressed while one is
--   under way is left out. Proofs: Onboarding/Members, Onboarding/Runs.
-- * web/src/lib/api/shopping.ts groups a grocery list by aisle (Shopping, with the proofs in
--   Shopping/Ascending and Shopping/Aisles), and web/src/components/shopping/CategoryGroup.tsx regroups it (Shopping/Groups,
--   with the proofs in Shopping/Regroup). Shopping/Buckets has what both do with a Map, and its laws.
--   Case tables and the printing of amounts are parameters.
-- * web/src/lib/notes/use-notes.ts keeps a board of notes in the browser's storage: Notes, with the
--   proofs in Notes/Mirror. JSON.stringify and JSON.parse are the record JsonCodec, a parameter.
-- * Three timers, over events and ticks: Timers/Idle (web/src/lib/use-idle-timeout.ts),
--   Timers/Countdown (StepTimer of web/src/components/screens/cooking-mode.tsx) and Timers/Report
--   (handleReport of web/src/components/ui/error-alert.tsx).
-- * web/src/lib/auth/auth-store.tsx keeps the session. Auth/Session has its state, with the
--   browser's storage, and the setters; Auth/Provider its operations. An operation that awaits the
--   server is cut at the await: the rest of it waits in a list, and an event gives the answer to one
--   entry, so that the answers come in any order between other operations. What the code runs after an
--   answer up to the next request is one step. Auth/Gates has AuthGate and AdminGate
--   (web/src/components/auth-gate.tsx, admin-gate.tsx) and KioskGate (web/src/app/page.tsx). Proofs:
--   Auth/Invariant, Auth/Orders, Auth/Gates.
-- * web/src/lib/ws/ws-provider.tsx holds a WebSocket, and invalidates cached reads when a frame
--   arrives: Ws/Invalidation has handleInvalidation and Ws/Connection the connection as a state
--   machine, whose events are the browser's calls (a socket opens, fails, closes or gets a frame; a
--   timer fires) and React's (a dependency changes, the component unmounts). A socket that has closed
--   calls no handler. Ws/Address has buildWsUrl. Proofs: Ws/Invariant, Ws/Backoff.
-- * isWithinQuietHours of web/src/components/kiosk/SleepSchedule.tsx says when a kiosk dims itself:
--   QuietHours, with the proofs in QuietHours/Window.
-- * web/src/components/shopping/PantryCues.tsx hints at staples that run low or expire: Pantry, with
--   the proofs in Pantry/Order. Dates, amounts and the order of names are the record Shelf, a
--   parameter.
-- * CalMonth of web/src/components/screens/calendar.tsx lays out a month: Month, with the proofs in
--   Month/Cells; dates are day numbers, as in MealPlan/Week. Its CalAgenda groups, filters and
--   searches the coming events: Agenda, with the proofs in Agenda/Readable and Agenda/Shown; dates and the order of texts
--   are the record Dates, a parameter. CalWeek sorts a week's events into seven columns: WeekView,
--   with the proofs in WeekView/Columns. CalDay draws a day's events by member: DayView, with the
--   proofs in DayView/Shown. EventModal is the form of an event: EventForm has its fields
--   and the warning about events at the same time, EventForm/Form its operations over edits, taps and
--   answers. Proofs: EventForm/Overlap, EventForm/Requests.
-- * web/src/components/screens/recipes.tsx has two screens with a state of their own. MealPlan edits
--   the week's grid that entriesToMealPlan lays out: Planner, with the proofs in Planner/Picks and
--   Planner/Reload, and the copy of last week's meals in Planner/Copy. ShoppingList checks the items
--   that web/src/lib/api/shopping.ts groups: Checklist, with the proofs in Checklist/Kept and
--   Checklist/Taps. A request that a tap makes waits in a list, and an event gives its answer.
-- * web/src/lib/ai/client.ts asks three AI providers: Ai has their requests and what becomes of the
--   responses, and Ai/Keys the keys that two tabs keep in the browser's storage
--   (web/src/lib/ai/ai-keys.ts) and the choice of a provider. Proofs: Ai/Turns, Ai/Tabs.
-- * web/src/app/admin/audit/page.tsx searches the log of changes and exports it as CSV: Audit, with a
--   reader of CSV in Audit/Export.
-- * web/src/components/screens/routine.tsx, RoutineKid, is the routine that a child taps through:
--   Routine, with the proofs in Routine/Taps.
-- * web/src/lib/family-roster.ts projects a member for the widgets of the shared display: Roster and
--   Roster/Colors.
-- * web/src/app/pin-login/page.tsx and web/src/components/kiosk/KioskLock.tsx take a PIN: PinPads, with
--   the proofs in PinPads/Entry and PinPads/Lock.
-- * web/src/app/kiosk/page.tsx is the kiosk's lock screen, choice of a member and PIN pad: Kiosk,
--   with the proofs in Kiosk/Pages. Each pad that is mounted has a number, by which the answer of its
--   login finds it.
-- * web/src/components/app-route-gate.tsx puts AuthGate before all pages but the public ones:
--   Auth/Routes.
-- * Prelude has the shared helpers: Boolean tests, lists, texts, membership and integers;
--   Prelude/Words the methods of texts that the screens' helpers call.
--
-- Loops are structural recursion on their lists, so no definition needs fuel. Natural numbers are
-- unbounded; the amounts and counts that the code computes with are far below the 2^53 up to which
-- the browser's numbers are exact.
--
-- Not modelled: the labels and the frames of the calendar, the paging of the audit log, the screens that only show
-- what hooks give or keep the text of an input (settings, lists, equity, recipe collections, the
-- dashboards), and all markup; the Go server (internal), the Python services, the database and the
-- deployment, which are other programs.
pub mod Prelude
pub mod Sort
pub mod Types
pub mod Tasks
pub mod Wallet
pub mod Api
pub mod Auth
pub mod Ws
pub mod MealPlan
pub mod QuietHours
pub mod Oidc
pub mod Shopping
pub mod Onboarding
pub mod Notes
pub mod Timers
pub mod Kiosk
pub mod Pantry
pub mod Month
pub mod Agenda
pub mod EventForm
pub mod Routine
pub mod PinPads
pub mod Roster
pub mod Checklist
pub mod Planner
pub mod Audit
pub mod DayView
pub mod WeekView
pub mod Ai
