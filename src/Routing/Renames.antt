-- ===== src/Routing/Renames.antt =====
-- What a rename leaves behind (`reallocateSlug`, lib/routing/slugs.ts).
use directory_platform.Common.{Bool, true, false, Option, some, find?, ◌≡◌, if◌then◌else◌}
use directory_platform.Routing.{Text, Unicode, same_text}
use directory_platform.Routing.Slugs.{
  SlugRow, RouteDb, claimed_row, resolve_slug, write_entity_slug, is_entity_at, Rename,
}
use directory_platform.Routing.Redirects.{LeavesAlone, leads_to, turned_to}

-- The row that an entity has in a scope.
abbrev pub current_row : Rename → RouteDb → Option SlugRow
current_row rename s = find? (is_entity_at rename.to.parent_scope rename.to.entity_id) s.slugs

-- The new slug resolves to the entity; the old path leads to the new one, and every other path
-- where it led, but to the new path if that was the old one; no row leads to the old path.
abbrev pub Renamed : Unicode → Rename → Text → RouteDb → RouteDb → Type 0
Renamed unicode rename slug s t =
    (resolve_slug unicode rename.to.parent_scope slug t ≡ some (claimed_row rename.to slug))
    × ((path : Text)
        → leads_to path t.redirects ≡ (
            if same_text rename.old_path path
            then some (rename.new_path_for slug)
            else turned_to rename.old_path (rename.new_path_for slug) (leads_to path s.redirects)))
    × LeavesAlone rename.old_path t.redirects

-- What a rename that succeeds does: the name gives the slug that the entity has, and nothing
-- changes, or it gives another one.
abbrev pub RenameIs : Unicode → Rename → Text → RouteDb → RouteDb → SlugRow → Bool → Type 0
RenameIs unicode rename slug s t current true = (slug ≡ current.slug) × (t ≡ s)
RenameIs unicode rename slug s t current false = Renamed unicode rename slug s t

module _ (unicode : Unicode) (rename : Rename) where
  abbrev written : Text → RouteDb → Bool → RouteDb
  written slug s b = if b then s else write_entity_slug rename.to.kind rename.to.entity_id slug s
