-- ===== src/Routing/Redirects.antt =====
-- What the rows of redirects are after a rename (`reallocateSlug`, lib/routing/slugs.ts).
use directory_platform.Common.{
  Bool, true, false, Option, none, some, sym, ap, subst, ◌∙◌, List, [], ◌∷◌, ◌++◌, find?, any,
  update, ◌≡◌, refl, arith, All, All-append, All-update, if◌then◌else◌,
}
use directory_platform.Routing.{Text, same_text}
use directory_platform.Routing.Slugs.{Redirect, upsert_redirect, collapse}
use directory_platform.Routing.Registry.{find?-last, same_text_self, same_text→eq}

abbrev leads_on : Text → Redirect → Bool
leads_on old r = same_text r.from_path old

abbrev turned : Text → Redirect → Redirect
turned new r = record r { to_path = new }

-- Where a path, in lower case, leads by these rows.
abbrev pub target_of : Option Redirect → Option Text
target_of none = none
target_of (some r) = some r.to_path

unfoldable pub leads_to : Text → List Redirect → Option Text
leads_to path rows = target_of (find? (λ r. same_text r.from_path path) rows)

-- What led to the old path leads to the new one.
abbrev pub turned_to : Text → Text → Option Text → Option Text
turned_to old new none = none
turned_to old new (some to) = some (if same_text to old then new else to)

leads_to-collapse :
    (old new path : Text) (rows : List Redirect)
    → leads_to path (collapse old new rows) ≡ turned_to old new (leads_to path rows)
unfolding leads_to collapse
leads_to-collapse old new path [] = refl
leads_to-collapse old new path (r ∷ rs) =
    at_row (same_text r.to_path old) (same_text r.from_path path) refl refl
      (leads_to-collapse old new path rs)
  where
    find : List Redirect → Option Redirect
    find rows = find? (λ x. same_text x.from_path path) rows

    at_row :
        (b c : Bool)
        → same_text r.to_path old ≡ b
        → same_text r.from_path path ≡ c
        → target_of (find (collapse old new rs)) ≡ turned_to old new (target_of (find rs))
        → target_of (find ((if b then turned new r else r) ∷ collapse old new rs))
          ≡ turned_to old new (target_of (if c then some r else find rs))
    at_row true true e f h = rw (e, f) refl
    at_row true false e f h = rw f h
    at_row false true e f h = rw (e, f) refl
    at_row false false e f h = rw f h

-- The rows for the old path are not those for another one.
other_row :
    (old path : Text) (r : Redirect)
    → same_text old path ≡ false
    → leads_on old r ≡ true
    → same_text r.from_path path ≡ false
other_row old path r h e =
    subst (λ x. same_text x path ≡ false) (sym (same_text→eq r.from_path old e)) h

find-update_other :
    (old new path : Text) (rows : List Redirect)
    → same_text old path ≡ false
    → leads_to path (update (leads_on old) (turned new) rows) ≡ leads_to path rows
unfolding leads_to
find-update_other old new path [] h = refl
find-update_other old new path (r ∷ rs) h =
    at_row (leads_on old r) refl (find-update_other old new path rs h)
  where
    rest : List Redirect
    rest = update (leads_on old) (turned new) rs

    at_row :
        (b : Bool)
        → leads_on old r ≡ b
        → leads_to path rest ≡ leads_to path rs
        → leads_to path ((if b then turned new r else r) ∷ rest) ≡ leads_to path (r ∷ rs)
    at_row true e k = rw (other_row old path r h e) k
    at_row false e k = ground (arith, k)

find-append_other :
    (old path : Text) (added : Redirect) (rows : List Redirect)
    → same_text added.from_path path ≡ false
    → leads_to path (rows ++ (added ∷ [])) ≡ leads_to path rows
unfolding leads_to
find-append_other old path added [] h = rw h refl
find-append_other old path added (r ∷ rs) h = ground (arith, find-append_other old path added rs h)

find-update_old :
    (old new : Text) (rows : List Redirect)
    → any (leads_on old) rows ≡ true
    → leads_to old (update (leads_on old) (turned new) rows) ≡ some new
unfolding leads_to
find-update_old old new [] e = ground arith
find-update_old old new (r ∷ rs) e = at_row (leads_on old r) refl e (find-update_old old new rs)
  where
    rest : List Redirect
    rest = update (leads_on old) (turned new) rs

    at_row :
        (b : Bool)
        → leads_on old r ≡ b
        → any (leads_on old) (r ∷ rs) ≡ true
        → (any (leads_on old) rs ≡ true → leads_to old rest ≡ some new)
        → leads_to old ((if b then turned new r else r) ∷ rest) ≡ some new
    at_row true f g k = rw f refl
    at_row false f g k = rw f (k (ground (arith, f, g)))

leads_to-upsert :
    (old new path : Text) (rows : List Redirect)
    → leads_to path (upsert_redirect old new rows)
      ≡ (if same_text old path then some new else leads_to path rows)
unfolding upsert_redirect leads_to
leads_to-upsert old new path rows = at_any (any (leads_on old) rows) refl
  where
    added : Redirect
    added = record { from_path = old; to_path = new; status_code = 301 }

    upserted : Bool → List Redirect
    upserted b = if b then update (leads_on old) (turned new) rows else rows ++ (added ∷ [])

    at_old : (b : Bool) → any (leads_on old) rows ≡ b → leads_to old (upserted b) ≡ some new
    at_old true e = find-update_old old new rows e
    at_old false e = ap target_of (find?-last (leads_on old) rows added e (same_text_self old))

    at_any :
        (b : Bool)
        → any (leads_on old) rows ≡ b
        → leads_to path (upserted b) ≡ (if same_text old path then some new else leads_to path rows)
    at_any b e = at_path (same_text old path) refl b e
      where
        at_path :
            (c : Bool)
            → same_text old path ≡ c
            → (b : Bool) → any (leads_on old) rows ≡ b
            → leads_to path (upserted b) ≡ (if c then some new else leads_to path rows)
        at_path true f b e =
            subst (λ x. leads_to x (upserted b) ≡ some new) (same_text→eq old path f) (at_old b e)
        at_path false f true e = find-update_other old new path rows f
        at_path false f false e = find-append_other old path added rows f

-- After a rename the old path leads to the new one, and every other path leads where it led, but
-- to the new path if that was the old one.
pub leads_to-renamed :
    (old new path : Text) (rows : List Redirect)
    → leads_to path (upsert_redirect old new (collapse old new rows))
      ≡ (if same_text old path then some new else turned_to old new (leads_to path rows))
leads_to-renamed old new path rows =
    leads_to-upsert old new path (collapse old new rows)
    ∙ ap (λ x. if same_text old path then some new else x) (leads_to-collapse old new path rows)

-- No row leads to the old path.
abbrev pub LeavesAlone : Text → List Redirect → Type 0
LeavesAlone old rows = All (λ r. same_text r.to_path old ≡ false) rows

pub collapse-LeavesAlone :
    (old new : Text) (rows : List Redirect)
    → same_text new old ≡ false
    → LeavesAlone old (collapse old new rows)
unfolding collapse
collapse-LeavesAlone old new [] h = tt
collapse-LeavesAlone old new (r ∷ rs) h =
    (at_row (same_text r.to_path old) refl, collapse-LeavesAlone old new rs h)
  where
    at_row :
        (b : Bool)
        → same_text r.to_path old ≡ b
        → same_text (if b then turned new r else r).to_path old ≡ false
    at_row true e = h
    at_row false e = e

pub upsert_redirect-LeavesAlone :
    (old new : Text) (rows : List Redirect)
    → same_text new old ≡ false
    → LeavesAlone old rows
    → LeavesAlone old (upsert_redirect old new rows)
unfolding upsert_redirect
upsert_redirect-LeavesAlone old new rows h k = at_any (any (leads_on old) rows)
  where
    added : Redirect
    added = record { from_path = old; to_path = new; status_code = 301 }

    at_any :
        (b : Bool)
        → LeavesAlone old
            (if b then update (leads_on old) (turned new) rows else rows ++ (added ∷ []))
    at_any true =
        All-update (λ r. same_text r.to_path old ≡ false) (leads_on old) (turned new) rows
          (λ r e f. h) k
    at_any false = All-append (λ r. same_text r.to_path old ≡ false) rows (added ∷ []) k (h, tt)
