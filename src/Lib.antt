-- ===== src/Lib.antt =====
-- The portal of Canonizr: accounts, API keys, billing and jobs (portal/).
--
-- The portal is a Next.js application. It keeps its data in Azure Table Storage, shares some of the
-- tables with the gateway, which admits requests by them, keeps counters and cached answers in Redis,
-- and bills through Stripe. This library models the code of portal/lib and of the routes under
-- portal/app/api, and proves what makes it correct.
--
-- How the parts interact. A request comes in at a route (Api), which asks who makes it
-- (Auth.Session); this sets the account up if that has not been done (Auth.Setup). Routes and pages
-- then call the key store (Keys), the stores of settings and permissions (Tables), the billing store
-- (Services), and what is computed of these (Usage, Jobs, Trace). The components in the browser
-- (View, Trace.Flame) keep their own state, show what is computed, and call the routes. Stripe calls
-- back at Api.Webhook, which sets the payment flag of the customer's user.
--
-- Which file models what:
--   Prelude          texts as lists of UTF-16 units, decimals, integers, lists
--   Storage          Azure Table Storage as the code uses it: rows in order, reads, writes with Merge
--   World            Redis, Stripe, time, and the monad of actions with faults; `emit` of
--                    portal/lib/telemetry.ts
--   Tables           portal/lib/data/table-interface.ts and portal/lib/data/tables/: append-only.ts,
--                    user-config.ts, user-permissions.ts, gw-billing.ts
--   Usage            portal/lib/pure/format.ts, billing-calc.ts, billing-period.ts and time.ts
--   Services         portal/lib/services/index.ts, billing-stripe.ts, billing-table.ts and
--                    auth-adapter.ts
--   Auth             portal/lib/auth/rate-limit.ts, session.ts, on-create-user.ts,
--                    ensure-user-setup.ts, email.ts, email-template.ts, email-transport.ts and auth.ts,
--                    portal/proxy.ts and portal/instrumentation.ts
--   Keys             portal/lib/services/keys-table.ts and portal/lib/pure/key-name-validation.ts,
--                    and resolve_api_key of gateway/app/auth.py
--   Trace            portal/lib/pure/trace.ts and infra-cost.ts, with portal/components/trace-flame.tsx
--                    and trace-cost-card.tsx
--   View             portal/lib/hooks/, and of portal/components/: quota-editor.tsx, usage-bar.tsx,
--                    create-key-form.tsx, create-key-input.tsx, key-actions.tsx,
--                    paid-usage-settings.tsx, admin-user-form.tsx, manage-billing-button.tsx,
--                    ui/data-table.tsx, ui/preview-strip.tsx, ui/code-block.tsx, upload-form.tsx,
--                    job-trace-viewer.tsx,
--                    admin-user-search.tsx, account-status-banner.tsx, stat-cards.tsx,
--                    sidebar-nav.tsx, mobile-nav.tsx, tables/, and of pages/ jobs-page-content.tsx,
--                    admin-user-detail-content.tsx and admin-overview-content.tsx;
--                    portal/app/auth/page.tsx, and of portal/app/dashboard/: layout.tsx, page.tsx,
--                    history/page.tsx, and of admin/ layout.tsx, trace/page.tsx and
--                    users/[id]/page.tsx
--   Export           portal/lib/pure/table-export.ts
--   Jobs             portal/lib/data/tables/jobs.ts, job-trace.ts and users.ts, portal/lib/data/jobs.ts and
--                    user-page-data.ts, admin-page-data.ts, admin-overview-data.ts and
--                    synthetic.ts, and portal/lib/pure/artefacts.ts, job-types.ts and admin-calc.ts
--   Api              portal/lib/api/route.ts and keys.ts, and the routes of the keys, of the settings,
--                    of the jobs, of the administrators and of the Stripe webhook under portal/app/api/
--   Tests            services in memory that meet what is assumed, and the theorems at concrete inputs
--
-- How code corresponds to definitions. A function of the source has the same name in snake case; what
-- follows an await or a branch is often a definition of its own, so that theorems can speak of it. An
-- asynchronous function is an `Action`: it takes the world and returns an outcome and the world after
-- it. The world holds the state of the three services, the clock, the session, and the memory of the
-- process (the limiters and the users set up). A throw is an outcome, and what was written before it
-- stays written. Calls under one `Promise.all` run in the order in which they are listed. A request
-- runs at one instant of the clock, and requests do not interleave within an action; the theorems hold
-- of every world in which an action starts.
--
-- Services that the portal calls are records of operations with laws (Storage.Service, World.Redis,
-- World.Stripe), fields of `Env`: what can be read of a table is the list of its rows in key order, a
-- write changes the row that it names and no other, Redis returns what was set until it expires. Random
-- values, SHA-256, the locale's dates, and the configuration are fields of `Env` too. `new Date(text)`,
-- `JSON.parse`, `JSON.stringify`, highlight.js, the paging of listings and the mail transport are arguments of the
-- definitions that use them.
--
-- Numbers are natural numbers, or integers where a sentinel or a stored number may be negative;
-- amounts are whole hundredths. Stored properties that the portal wrote as text are read as text.
-- Doubles occur where numbers are printed: a quotient of whole numbers is rounded to 53 bits, and
-- `toFixed` takes the nearest decimal (Prelude.Double). The search for the scale of a quotient has 120
-- rounds of fuel, enough for dividends from 1 on and divisors below 2 ^ 60. Other recursion is
-- structural.
--
-- A component is a record of its state; a handler is a function of it, in two parts where it awaits,
-- and what a request settles to is an argument. View.JobsPage.Steps and Trace.Flame.Laws let the steps
-- of a component follow each other in any order.
--
-- What is not modelled: dates and numbers in the locale's format, what components draw and the table
-- component of another package, connections to the services, the creation of the tables, tracing, the
-- configuration of NextAuth, the gateway (Python) but for
-- how it resolves a key, the SDKs, the command-line client, the site and the
-- deployment. A component's effects that run when it is drawn are not modelled, but for the refresh of
-- the page of jobs, the key that the selector tells the form, and the menu that a change of the page
-- closes.
pub mod Prelude
pub mod Storage
pub mod World
pub mod Auth
pub mod Tables
pub mod Usage
pub mod Services
pub mod Keys
pub mod Trace
pub mod Export
pub mod Jobs
pub mod Api
pub mod View
mod Tests
