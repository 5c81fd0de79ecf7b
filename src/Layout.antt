-- ===== src/Layout.antt =====
-- ui/app/(dashboard)/layout.tsx: what stands round every page of the console.
pub mod Sidebar
pub mod Breadcrumbs
pub mod CommandPalette
pub mod UserMenu
pub mod OrgSwitcher
pub mod ErrorBoundary
