-- ===== src/View.antt =====
-- The components of the browser that keep state or build what is shown, portal/components/ and
-- portal/lib/hooks/. A component's state is a record of its `useState` values; a handler is a function
-- on it. What is drawn is not modelled, but for the texts and choices that handlers and tables compute.
pub mod Fetch
pub mod Hooks
pub mod Quota
pub mod Forms
pub mod JobTable
pub mod Exports
pub mod Rows
pub mod JobsPage
pub mod Viewer
pub mod Admin
pub mod SignIn
pub mod CodeBlock
pub mod Layout
pub mod Pages
pub mod Navigation
